-- ===== src/Deliverables/Failure/Reached/Complete.antt =====
-- When the frontier is empty, everything downstream is found.
use auto_builder.Base.{
  ℕ, zero, suc, ◌≤◌, String, Bool, true, List, [], ◌∷◌, ◌≡◌, ◌⊎◌, inl, inr, ◌==◌, elem, arith,
  eq_iff, Bool-cases, sym,
}
use auto_builder.Model.Rows.{Deliverable}
use auto_builder.Deliverables.Failure.{Search, visit, sweep, spread}
use auto_builder.Deliverables.Failure.Reached.Found.{Needs, Downstream, direct, further}
use auto_builder.Deliverables.Failure.Reached.Weight.{weight, spread-ends, visit-grows, sweep-grows}

first_or_rest :
    {P : Type 0} (current : String) (rest : List String) (y : String)
    → elem y (current ∷ rest) ≡ true
    → (y ≡ current) ⊎ (elem y rest ≡ true) ⊎ P
unfolding elem
first_or_rest current rest y h = elim (Bool-cases (current == y)) [
  | inl e ↦ inl (sym ((eq_iff current y).0 e))
  | inr e ↦ inr (inl (ground arith))
]

module _ (admit : Deliverable → Bool) (rows : List Deliverable) (start : List String) where
  abbrev IsClosed : String → List String → Type 0
  IsClosed y found = (x : String) → Needs admit x y rows → elem x found ≡ true

  abbrev IsOrigin : Search → String → Type 0
  IsOrigin s y = (elem y start ≡ true) ⊎ (elem y s.found ≡ true)

  abbrev IsWaiting : Search → String → Type 0
  IsWaiting s y = (elem y s.frontier ≡ true) ⊎ IsClosed y s.found

  -- In the pass for `current`.
  abbrev IsHandled : String → Search → String → Type 0
  IsHandled current s y = (y ≡ current) ⊎ IsWaiting s y

  visit-frontier :
      (current : String) (d : Deliverable) (s : Search) (y : String)
      → elem y s.frontier ≡ true
      → elem y (visit admit current d s).frontier ≡ true
  unfolding visit elem
  visit-frontier current d s y h = ground arith

  visit-new :
      (current : String) (d : Deliverable) (s : Search) (y : String)
      → elem y (visit admit current d s).found ≡ true
      → (elem y s.found ≡ true) ⊎ (elem y (visit admit current d s).frontier ≡ true)
  unfolding visit elem
  visit-new current d s y h = ground arith

  visit-IsHandled :
      (current : String) (d : Deliverable) (s : Search) (y : String)
      → IsHandled current s y
      → IsHandled current (visit admit current d s) y
  visit-IsHandled current d s y (inl e) = inl e
  visit-IsHandled current d s y (inr (inl f)) = inr (inl (visit-frontier current d s y f))
  visit-IsHandled current d s y (inr (inr c)) =
      inr (inr (λ x n. visit-grows admit rows current d s x (c x n)))

  visit-covers :
      (current : String) (d : Deliverable) (s : Search)
      → ((y : String) → IsOrigin s y → IsHandled current s y)
      → (y : String) → IsOrigin (visit admit current d s) y
      → IsHandled current (visit admit current d s) y
  visit-covers current d s h y (inl begun) = visit-IsHandled current d s y (h y (inl begun))
  visit-covers current d s h y (inr found) = elim (visit-new current d s y found) [
    | inl old ↦ visit-IsHandled current d s y (h y (inr old))
    | inr new ↦ inr (inl new)
  ]

  sweep-covers :
      (current : String) (ds : List Deliverable) (s : Search)
      → ((y : String) → IsOrigin s y → IsHandled current s y)
      → (y : String) → IsOrigin (sweep admit current ds s) y
      → IsHandled current (sweep admit current ds s) y
  unfolding sweep
  sweep-covers current [] s h = h
  sweep-covers current (d ∷ ds) s h =
      sweep-covers current ds (visit admit current d s) (visit-covers current d s h)

  visit-finds :
      (current : String) (d : Deliverable) (s : Search)
      → admit d ≡ true
      → elem current d.depends_on ≡ true
      → elem d.id (visit admit current d s).found ≡ true
  unfolding visit elem
  visit-finds current d s a n = ground (arith, eq_iff d.id d.id)

  sweep-finds :
      (current : String) (ds : List Deliverable) (s : Search) (x : String)
      → Needs admit x current ds
      → elem x (sweep admit current ds s).found ≡ true
  unfolding sweep
  sweep-finds current [] s x n = absurd n
  sweep-finds current (d ∷ ds) s x (inl n) =
      rw (← n.0) (sweep-grows admit rows current ds _ d.id (visit-finds current d s n.1 n.2))
  sweep-finds current (d ∷ ds) s x (inr n) = sweep-finds current ds _ x n

  settle :
      (current : String) (s : Search)
      → ((y : String) → IsOrigin s y → IsHandled current s y)
      → (y : String) → IsOrigin (sweep admit current rows s) y
      → IsWaiting (sweep admit current rows s) y
  settle current s h y o = elim (sweep-covers current rows s h y o) [
    | inl e ↦ inr (λ x n. sweep-finds current rows s x (rw e at n))
    | inr w ↦ w
  ]

  spread-covers :
      (fuel : ℕ) (s : Search)
      → ((y : String) → IsOrigin s y → IsWaiting s y)
      → (y : String) → IsOrigin (spread admit rows fuel s) y
      → IsWaiting (spread admit rows fuel s) y
  unfolding spread
  spread-covers zero s h = h
  spread-covers (suc fuel) s h = pop (spread-covers fuel) s.found s.frontier h
    where
      pop :
          ((t : Search)
            → ((y : String) → IsOrigin t y → IsWaiting t y)
            → (y : String) → IsOrigin (spread admit rows fuel t) y
            → IsWaiting (spread admit rows fuel t) y)
          → (found frontier : List String)
          → ((y : String)
              → IsOrigin (record { found = found; frontier = frontier }) y
              → IsWaiting (record { found = found; frontier = frontier }) y)
          → (y : String)
          → IsOrigin
              (spread admit rows (suc fuel) (record { found = found; frontier = frontier }))
              y
          → IsWaiting
              (spread admit rows (suc fuel) (record { found = found; frontier = frontier }))
              y
      pop ih found [] h = h
      pop ih found (current ∷ rest) h = ih _ (
          settle current (record { found = found; frontier = rest })
            (λ y o. elim (h y o) [ inl f ↦ first_or_rest current rest y f | inr c ↦ inr (inr c) ]))

  closed :
      (fuel : ℕ) (s : Search)
      → weight admit rows s ≤ fuel
      → ((y : String) → IsOrigin s y → IsWaiting s y)
      → (y : String) → IsOrigin (spread admit rows fuel s) y
      → IsClosed y (spread admit rows fuel s).found
  unfolding elem
  closed fuel s w h y o = elim (spread-covers fuel s h y o) [
    | inl f ↦ cc (spread-ends admit rows fuel s w)
    | inr c ↦ c
  ]

  -- Everything downstream of the start is found.
  pub spread_complete :
      (fuel : ℕ) (s : Search)
      → weight admit rows s ≤ fuel
      → ((y : String) → IsOrigin s y → IsWaiting s y)
      → (x : String) → Downstream admit rows start x
      → elem x (spread admit rows fuel s).found ≡ true
  spread_complete fuel s w h x (direct _ y begun n) = closed fuel s w h y (inl begun) x n
  spread_complete fuel s w h x (further _ y below n) =
      closed fuel s w h y (inr (spread_complete fuel s w h y below)) x n
