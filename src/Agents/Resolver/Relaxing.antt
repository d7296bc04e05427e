-- ===== src/Agents/Resolver/Relaxing.antt =====
-- What the inner loop of agents/custom/dependency_resolver.py keeps.
use auto_builder.Base.{
  IsDistinct, ℕ, suc, ◌-◌, ◌≤◌, String, true, false, List, [], ◌∷◌, ◌++◌, ◌≡◌, ◌∙◌, inl, inr, not,
  ◌&&◌, nat_eq, if◌then◌else◌, elem, select, length, All, arith, eq_iff, elem-append, Bool-cases,
}
use auto_builder.Sessions.State.{elem-sort_texts}
use auto_builder.Agents.Resolver.{Sorting, lower, is_lowered, relax}
use auto_builder.Agents.Resolver.Distinct.{sort_texts-IsDistinct, append-IsDistinct}

module _ (names : List String) (graph : String → List String) where
  -- The dependencies on listed names that are not among the finished ones.
  unfoldable pub open_among : List String → List String → ℕ
  unfolding select elem
  open_among done deps = length (select (λ d. elem d names && not (elem d done)) deps)

  unfoldable pub unmet : List String → String → ℕ
  unfolding select elem
  unmet done n = length (select (λ d. elem d names && not (elem d done)) (graph n))

  pub unmet-fewer :
      (node : String) (done deps : List String)
      → open_among (done ++ node ∷ []) deps ≤ open_among done deps
  unfolding open_among select elem
  unmet-fewer node done [] = omega arith
  unmet-fewer node done (d ∷ deps) =
      ground (arith, unmet-fewer node done deps, elem-append d done (node ∷ []), eq_iff node d)

  pub unmet-less :
      (node : String) (done deps : List String)
      → elem node names ≡ true
      → elem node done ≡ false
      → elem node deps ≡ true
      → suc (open_among (done ++ node ∷ []) deps) ≤ open_among done deps
  unfolding open_among select elem
  unmet-less node done [] known new there = cc
  unmet-less node done (d ∷ deps) known new there = ground (
    arith,
    unmet-less node done deps known new,
    unmet-fewer node done deps,
    elem-append d done (node ∷ []),
    elem-append node done (node ∷ []),
    eq_iff d node,
    eq_iff node d,
  )

  -- While the names are relaxed for a node: `todo` are those to come.
  pub record IsRelaxing (node : String) (done todo : List String) (s : Sorting) : Type 0 where
    pub ready : (n : String) → elem n s.queue ≡ true → unmet done n ≡ 0
    pub bounded :
        (n : String)
        → elem n done ≡ false
        → elem n s.queue ≡ false
        → (if elem n todo && elem node (graph n) then suc (unmet done n) else unmet done n)
          ≤ s.in_deg n
    pub listed : (n : String) → elem n s.queue ≡ true → elem n names ≡ true
    pub fresh : (n : String) → elem n s.queue ≡ true → elem n done ≡ false
    pub once : IsDistinct s.queue

  same-IsRelaxing :
      (node name : String) (done todo : List String) (s : Sorting)
      → is_lowered graph node done name s ≡ false
      → IsRelaxing node done (name ∷ todo) s
      → IsRelaxing node done todo s
  unfolding elem
  same-IsRelaxing node name done todo s e m = record {
    ready = m.ready;
    bounded = λ n new out. ground (arith, m.bounded n new out, e, eq_iff name n, new, out);
    listed = m.listed;
    fresh = m.fresh;
    once = m.once;
  }

  lower-IsRelaxing :
      (node name : String) (done todo : List String) (s : Sorting)
      → is_lowered graph node done name s ≡ true
      → elem name todo ≡ false
      → elem name names ≡ true
      → IsRelaxing node done (name ∷ todo) s
      → IsRelaxing node done todo (lower name s)
  unfolding elem
  lower-IsRelaxing node name done todo s e later known m =
      let new : elem name done ≡ false = ground (arith, e) in
      let out : elem name s.queue ≡ false = ground (arith, e) in
      let enough : suc (unmet done name) ≤ s.in_deg name =
        ground (arith, m.bounded name new out, e, eq_iff name name) in
      let joined = λ (n : String).
        elem-sort_texts n (s.queue ++ name ∷ []) ∙ elem-append n s.queue (name ∷ []) in
      elim (Bool-cases (nat_eq (s.in_deg name - 1) 0)) [
        | inl z ↦ rw z (record {
          ready = λ n h. ground (arith, m.ready n, joined n, h, z, enough, eq_iff name n);
          bounded = λ n new_n out_n.
              ground (arith, m.bounded n new_n, joined n, out_n, eq_iff n name, eq_iff name n);
          listed = λ n h. ground (arith, m.listed n, joined n, h, known, eq_iff name n);
          fresh = λ n h. ground (arith, m.fresh n, joined n, h, new, eq_iff name n);
          once = sort_texts-IsDistinct _ (append-IsDistinct s.queue name m.once out);
        })
        | inr z ↦ rw z (record {
          ready = m.ready;
          bounded = λ n new_n out_n.
              ground (arith, m.bounded n new_n out_n, enough, later, eq_iff n name, eq_iff name n);
          listed = m.listed;
          fresh = m.fresh;
          once = m.once;
        })
      ]

  pub relax-IsRelaxing :
      (node : String) (done todo : List String) (s : Sorting)
      → IsDistinct todo
      → All (λ n. elem n names ≡ true) todo
      → IsRelaxing node done todo s
      → IsRelaxing node done [] (relax graph node done todo s)
  unfolding relax
  relax-IsRelaxing node done [] s d known m = m
  relax-IsRelaxing node done (name ∷ todo) s d known m =
      elim (Bool-cases (is_lowered graph node done name s)) [
        | inl e ↦ rw e (
            relax-IsRelaxing node done todo (lower name s) d.1 known.1
              (lower-IsRelaxing node name done todo s e d.0 known.0 m))
        | inr e ↦ rw e (
            relax-IsRelaxing node done todo s d.1 known.1
              (same-IsRelaxing node name done todo s e m))
      ]
