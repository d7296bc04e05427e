-- ===== src/Deliverables/Graph/Acyclic.antt =====
-- A project's graph stays acyclic.
use auto_builder.Base.{String, true, List, ◌≡◌, ◌⊎◌, inl, inr, elem, Dict, sym, subst}
use auto_builder.Deliverables.Graph.{targets}
use auto_builder.Deliverables.Graph.Cycle.{Reaches, here, step}

-- No dependency leads back to where it starts.
abbrev pub IsAcyclic : Dict (List String) → Type 0
IsAcyclic adj = (x y : String) → elem y (targets adj x) ≡ true → ¬ Reaches adj y x

-- Every edge of the second graph is one of the first, or the one from `s` to `t`.
abbrev pub Extends : String → String → Dict (List String) → Dict (List String) → Type 0
Extends s t adj adj' =
    (x y : String)
    → elem y (targets adj' x) ≡ true
    → (elem y (targets adj x) ≡ true) ⊎ ((x ≡ s) × (y ≡ t))

Reaches-trans :
    (adj : Dict (List String)) (x y z : String)
    → Reaches adj x y
    → Reaches adj y z
    → Reaches adj x z
Reaches-trans adj x y _ a (here _) = a
Reaches-trans adj x y z a (step _ w _ b e) = step x w z (Reaches-trans adj x y w a b) e

module _ (s t : String) (adj adj' : Dict (List String)) (extends : Extends s t adj adj') where
  detour : (x y : String) → Reaches adj' x y → Reaches adj x y ⊎ (Reaches adj x s × Reaches adj t y)
  detour x _ (here _) = inl (here x)
  detour x y (step _ w _ r e) = elim (detour x w r) [
    | inl old ↦ elim (extends w y e) [
      | inl known ↦ inl (step x w y old known)
      | inr new ↦ inr (
        subst (λ i. Reaches adj x i) new.0 old,
        subst (λ i. Reaches adj t i) (sym new.1) (here t),
      )
    ]
    | inr via ↦ elim (extends w y e) [
      | inl known ↦ inr (via.0, step t w y via.1 known)
      | inr new ↦ inr (via.0, subst (λ i. Reaches adj t i) (sym new.1) (here t))
    ]
  ]

  pub IsAcyclic-extend : (¬ Reaches adj t s) → IsAcyclic adj → IsAcyclic adj'
  IsAcyclic-extend apart h x y e back = elim (detour y x back) [
    | inl old ↦ elim (extends x y e) [
      | inl known ↦ h x y known old
      | inr new ↦
          apart (subst (λ i. Reaches adj i s) new.1 (subst (λ i. Reaches adj y i) new.0 old))
    ]
    | inr via ↦ elim (extends x y e) [
      | inl known ↦ apart (Reaches-trans adj t y s (step t x y via.1 known) via.0)
      | inr new ↦ apart (subst (λ i. Reaches adj i s) new.1 via.0)
    ]
  ]

module _ (adj adj' : Dict (List String))
    (within : (x y : String) → elem y (targets adj' x) ≡ true → elem y (targets adj x) ≡ true) where
  Reaches-within : (x y : String) → Reaches adj' x y → Reaches adj x y
  Reaches-within x _ (here _) = here x
  Reaches-within x y (step _ w _ r e) = step x w y (Reaches-within x w r) (within w y e)

  pub IsAcyclic-within : IsAcyclic adj → IsAcyclic adj'
  IsAcyclic-within h x y e back = h x y (within x y e) (Reaches-within y x back)
