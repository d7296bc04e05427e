-- ===== src/Deliverables/Failure/Reached/Found.antt =====
-- Whatever the search finds is downstream of its start.
use auto_builder.Base.{
  ℕ, zero, suc, String, Bool, true, List, [], ◌∷◌, ◌≡◌, refl, ◌⊎◌, inl, inr, All, Any, not, ◌&&◌,
  elem, arith, Bool-cases, All-elem,
}
use auto_builder.Model.Rows.{Deliverable}
use auto_builder.Deliverables.Failure.{Search, visit, sweep, spread}

-- An admitted row with the id `x` depends on `y`.
abbrev pub Needs : (Deliverable → Bool) → String → String → List Deliverable → Type 0
Needs admit x y =
    Any (λ (d : Deliverable). (d.id ≡ x) × (admit d ≡ true) × (elem y d.depends_on ≡ true))

pub data Downstream (admit : Deliverable → Bool) (rows : List Deliverable) (start : List String)
    : String → Type 0 where
  direct :
      (x y : String) → elem y start ≡ true → Needs admit x y rows → Downstream admit rows start x
  further :
      (x y : String)
      → Downstream admit rows start y
      → Needs admit x y rows
      → Downstream admit rows start x

module _ (admit : Deliverable → Bool) (rows : List Deliverable) (start found₀ : List String) where
  abbrev IsSource : String → Type 0
  IsSource y = (elem y start ≡ true) ⊎ Downstream admit rows start y

  abbrev IsReached : String → Type 0
  IsReached x = (elem x found₀ ≡ true) ⊎ Downstream admit rows start x

  pub record IsSound (s : Search) : Type 0 where
    pub reached : All IsReached s.found
    pub sources : All IsSource s.frontier

  reach : (x y : String) → IsSource y → Needs admit x y rows → Downstream admit rows start x
  reach x y (inl begun) n = direct x y begun n
  reach x y (inr found) n = further x y found n

  visit-IsSound :
      (current : String) (d : Deliverable) (s : Search)
      → IsSource current
      → (admit d ≡ true → elem current d.depends_on ≡ true → Needs admit d.id current rows)
      → IsSound s
      → IsSound (visit admit current d s)
  unfolding visit
  visit-IsSound current d s source here h =
      elim (Bool-cases (not (elem d.id s.found) && (admit d && elem current d.depends_on))) [
        | inr e ↦ rw e h
        | inl e ↦
            let below = reach d.id current source (here (ground arith) (ground arith)) in
            rw e (record { reached = (inr below, h.reached); sources = (inr below, h.sources) })
      ]

  sweep-IsSound :
      (current : String) (ds : List Deliverable) (s : Search)
      → IsSource current
      → ((x : String) → Needs admit x current ds → Needs admit x current rows)
      → IsSound s
      → IsSound (sweep admit current ds s)
  unfolding sweep
  sweep-IsSound current [] s source inside h = h
  sweep-IsSound current (d ∷ ds) s source inside h =
      sweep-IsSound current ds (visit admit current d s) source (λ x n. inside x (inr n))
        (visit-IsSound current d s source (λ a b. inside d.id (inl (refl, a, b))) h)

  pub spread-IsSound : (fuel : ℕ) (s : Search) → IsSound s → IsSound (spread admit rows fuel s)
  unfolding spread
  spread-IsSound zero s h = h
  spread-IsSound (suc fuel) s h = pop (spread-IsSound fuel) s.found s.frontier h.reached h.sources
    where
      pop :
          ((t : Search) → IsSound t → IsSound (spread admit rows fuel t))
          → (found frontier : List String) → All IsReached found
          → All IsSource frontier
          → IsSound (spread admit rows (suc fuel) (record { found = found; frontier = frontier }))
      pop ih found [] r f = record { reached = r; sources = f }
      pop ih found (current ∷ rest) r f =
          ih _ (sweep-IsSound current rows _ f.0 (λ x n. n) (record { reached = r; sources = f.1 }))

  -- Each id found was found at the start, or is downstream.
  pub spread-found :
      (fuel : ℕ) (s : Search) (x : String)
      → IsSound s
      → elem x (spread admit rows fuel s).found ≡ true
      → (elem x found₀ ≡ true) ⊎ Downstream admit rows start x
  spread-found fuel s x h = All-elem IsReached x _ (spread-IsSound fuel s h).reached
