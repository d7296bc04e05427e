-- ===== src/Deliverables/Failure/Reached/Weight.antt =====
-- A pass of the search loses nothing, and with enough fuel the frontier empties.
use auto_builder.Base.{
  ℕ, zero, suc, ◌+◌, ◌≤◌, String, Bool, true, false, List, [], ◌∷◌, ◌≡◌, refl, inl, inr, Any,
  if◌then◌else◌, elem, length, arith, eq_iff,
}
use auto_builder.Model.Rows.{Deliverable}
use auto_builder.Deliverables.Failure.{Search, visit, sweep, spread}

-- The rows that the search has not found.
pub unfound : List Deliverable → List String → ℕ
unfound [] found = 0
unfound (d ∷ ds) found = let rest = unfound ds found in if elem d.id found then rest else suc rest

pub unfound-le-length : (ds : List Deliverable) (found : List String) → unfound ds found ≤ length ds
unfolding unfound
unfound-le-length [] found = omega arith
unfound-le-length (d ∷ ds) found = ground (arith, unfound-le-length ds found)

pub unfound-cons_le :
    (ds : List Deliverable) (i : String) (found : List String)
    → unfound ds (i ∷ found) ≤ unfound ds found
unfolding unfound elem
unfound-cons_le [] i found = omega arith
unfound-cons_le (d ∷ ds) i found = ground (arith, unfound-cons_le ds i found)

pub unfound-cons_lt :
    (ds : List Deliverable) (i : String) (found : List String)
    → Any (λ (d : Deliverable). d.id ≡ i) ds
    → elem i found ≡ false
    → suc (unfound ds (i ∷ found)) ≤ unfound ds found
unfolding unfound elem
unfound-cons_lt [] i found here new = absurd here
unfound-cons_lt (d ∷ ds) i found (inl e) new =
    ground (arith, unfound-cons_le ds i found, eq_iff i d.id)
unfound-cons_lt (d ∷ ds) i found (inr later) new =
    ground (arith, unfound-cons_lt ds i found later new)

module _ (admit : Deliverable → Bool) (rows : List Deliverable) where
  abbrev pub weight : Search → ℕ
  weight s = length s.frontier + unfound rows s.found

  pub visit-weight :
      (current : String) (d : Deliverable) (s : Search)
      → Any (λ (e : Deliverable). e.id ≡ d.id) rows
      → weight (visit admit current d s) ≤ weight s
  unfolding visit
  visit-weight current d s here = ground (arith, unfound-cons_lt rows d.id s.found here)

  pub sweep-weight :
      (current : String) (ds : List Deliverable) (s : Search)
      → ((i : String)
          → Any (λ (e : Deliverable). e.id ≡ i) ds
          → Any (λ (e : Deliverable). e.id ≡ i) rows)
      → weight (sweep admit current ds s) ≤ weight s
  unfolding sweep
  sweep-weight current [] s inside = omega arith
  sweep-weight current (d ∷ ds) s inside = omega (
    arith,
    sweep-weight current ds (visit admit current d s) (λ i h. inside i (inr h)),
    visit-weight current d s (inside d.id (inl refl)),
  )

  pub spread-ends :
      (fuel : ℕ) (s : Search) → weight s ≤ fuel → (spread admit rows fuel s).frontier ≡ []
  unfolding spread
  spread-ends zero s h = ends s.frontier (omega arith)
    where
      ends : (f : List String) → length f ≤ 0 → f ≡ []
      ends [] _ = refl
      ends (x ∷ f) h = absurd (omega arith)
  spread-ends (suc fuel) s h = pop (spread-ends fuel) s.found s.frontier h
    where
      pop :
          ((t : Search) → weight t ≤ fuel → (spread admit rows fuel t).frontier ≡ [])
          → (found frontier : List String)
          → weight (record { found = found; frontier = frontier }) ≤ suc fuel
          → (spread admit rows (suc fuel) (record { found = found; frontier = frontier })).frontier
            ≡ []
      pop ih found [] h = refl
      pop ih found (current ∷ rest) h = ih _ (
          omega (
            arith,
            sweep-weight current rows (record { found = found; frontier = rest }) (λ i n. n),
          ))

  pub visit-grows :
      (current : String) (d : Deliverable) (s : Search) (x : String)
      → elem x s.found ≡ true
      → elem x (visit admit current d s).found ≡ true
  unfolding visit elem
  visit-grows current d s x h = ground arith

  pub sweep-grows :
      (current : String) (ds : List Deliverable) (s : Search) (x : String)
      → elem x s.found ≡ true
      → elem x (sweep admit current ds s).found ≡ true
  unfolding sweep
  sweep-grows current [] s x h = h
  sweep-grows current (d ∷ ds) s x h = sweep-grows current ds _ x (visit-grows current d s x h)

  pub spread-grows :
      (fuel : ℕ) (s : Search) (x : String)
      → elem x s.found ≡ true
      → elem x (spread admit rows fuel s).found ≡ true
  unfolding spread
  spread-grows zero s x h = h
  spread-grows (suc fuel) s x h = pop (spread-grows fuel) s.found s.frontier h
    where
      pop :
          ((t : Search) (y : String)
            → elem y t.found ≡ true
            → elem y (spread admit rows fuel t).found ≡ true)
          → (found frontier : List String) → elem x found ≡ true
          → elem x
              (spread admit rows (suc fuel) (record { found = found; frontier = frontier })).found
            ≡ true
      pop ih found [] h = h
      pop ih found (current ∷ rest) h =
          ih _ x (sweep-grows current rows (record { found = found; frontier = rest }) x h)
