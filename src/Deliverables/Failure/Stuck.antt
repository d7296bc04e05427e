-- ===== src/Deliverables/Failure/Stuck.antt =====
-- Which deliverables the end of the batch loop skips.
use auto_builder.Base.{
  ℕ, ◌≤◌, String, Bool, true, List, [], ◌∷◌, ◌≡◌, ◌↔◌, inl, inr, elem, map, select, any, not, ◌&&◌,
  ◌==◌, arith, Any, eq_iff, subst, sym, Bool-cases,
}
use auto_builder.Model.{DeliverableStatus, failed, is_waiting, same_deliverable_status}
use auto_builder.Model.Rows.{Deliverable}
use auto_builder.Deliverables.Ready.{satisfied}
use auto_builder.Deliverables.Ready.Contents.{IsMet, elem-satisfied}
use auto_builder.Deliverables.Failure.{permanently_failed, is_open, stuck_seeds, stuck_ids}
use auto_builder.Deliverables.Failure.Reached.{stuck_ids-Downstream}
use auto_builder.Deliverables.Failure.Reached.Found.{Needs, Downstream, direct, further}

-- A row with the id has failed, and no retry is left of the limit.
abbrev pub HasFailed : ℕ → List Deliverable → String → Type 0
HasFailed retry_limit rows dep =
    Any (λ (e : Deliverable). (e.id ≡ dep) × (e.status ≡ failed) × (retry_limit ≤ e.retry_count))
      rows

-- A planned or pending deliverable is stuck by a dependency that is not met and has failed for good, or by
-- one that is the id of a stuck deliverable.
pub data Stuck (retry_limit : ℕ) (rows : List Deliverable) : String → Type 0 where
  by_failure :
      (x dep : String)
      → Needs is_open x dep rows
      → (IsMet rows dep → ⊥)
      → HasFailed retry_limit rows dep
      → Stuck retry_limit rows x
  by_stuck :
      (x dep : String)
      → Needs is_open x dep rows
      → Stuck retry_limit rows dep
      → Stuck retry_limit rows x

is_failed : (s : DeliverableStatus) → (same_deliverable_status s failed ≡ true) ↔ (s ≡ failed)
is_failed s = ground arith

elem-permanently_failed :
    (retry_limit : ℕ) (dep : String) (rows : List Deliverable)
    → (elem dep (permanently_failed retry_limit rows) ≡ true) ↔ HasFailed retry_limit rows dep
unfolding permanently_failed elem select
elem-permanently_failed retry_limit dep [] = ground arith
elem-permanently_failed retry_limit dep (e ∷ rows) =
    ground
      (arith, elem-permanently_failed retry_limit dep rows, eq_iff e.id dep, is_failed e.status)

any_iff :
    (p : String → Bool) (xs : List String)
    → (any p xs ≡ true) ↔ ((x : String) × (elem x xs ≡ true) × (p x ≡ true))
unfolding any elem
any_iff p [] = (λ h. cc, λ (x, m, b). cc)
any_iff p (y ∷ xs) = (
  λ h. elim (Bool-cases (p y)) [
    | inl here ↦ (y, ground (arith, eq_iff y y), here)
    | inr other ↦ let (x, m, b) = (any_iff p xs).0 (ground arith) in (x, ground (arith, m), b)
  ],
  λ (x, m, b). elim (Bool-cases (y == x)) [
    | inl here ↦
        let found : p y ≡ true = subst (λ z. p z ≡ true) (sym ((eq_iff y x).0 here)) b in
        ground (arith, found)
    | inr other ↦
        let rest = (any_iff p xs).1 (x, ground (arith, other, m), b) in ground (arith, rest)
  ],
)

module _ (bad : String → Bool) (x : String) where
  abbrev is_hit : Deliverable → Bool
  is_hit d = is_waiting d.status && any bad d.depends_on

  elem-hits :
      (rows : List Deliverable)
      → (elem x (map (λ (d : Deliverable). d.id) (select is_hit rows)) ≡ true)
        ↔ ((dep : String) × Needs is_open x dep rows × (bad dep ≡ true))
  unfolding elem select
  elem-hits [] = (λ h. cc, λ (dep, n, b). absurd n)
  elem-hits (d ∷ rows) = (
    elim (Bool-cases (is_hit d)) [
      | inr e ↦ rw e (λ h. let (dep, n, b) = (elem-hits rows).0 h in (dep, inr n, b))
      | inl e ↦ rw e (λ h. elim (Bool-cases (d.id == x)) [
        | inl here ↦
            let (dep, m, b) = (any_iff bad d.depends_on).0 (ground (arith, e)) in
            (dep, inl ((eq_iff d.id x).0 here, ground (arith, e), m), b)
        | inr other ↦
            let (dep, n, b) = (elem-hits rows).0 (ground (arith, h, other)) in (dep, inr n, b)
      ])
    ],
    λ (dep, n, b). elim n [
      | inl here ↦
          let hit : is_hit d ≡ true =
            ground (arith, (any_iff bad d.depends_on).1 (dep, here.2, b), here.1) in
          rw hit (ground (arith, (eq_iff d.id x).1 here.0))
      | inr later ↦
          let rest = (elem-hits rows).1 (dep, later, b) in
          elim (Bool-cases (is_hit d)) [ inl e ↦ rw e (ground (arith, rest)) | inr e ↦ rw e rest ]
    ],
  )

module _ (retry_limit : ℕ) (rows : List Deliverable) where
  abbrev is_bad : String → Bool
  is_bad dep = not (elem dep (satisfied rows)) && elem dep (permanently_failed retry_limit rows)

  is_bad_iff :
      (dep : String) → (is_bad dep ≡ true) ↔ ((IsMet rows dep → ⊥) × HasFailed retry_limit rows dep)
  is_bad_iff dep =
      ground (arith, elem-satisfied dep rows, elem-permanently_failed retry_limit dep rows)

  seeds_iff :
      (x : String)
      → (elem x (stuck_seeds retry_limit rows) ≡ true)
        ↔ ((dep : String) × Needs is_open x dep rows × (is_bad dep ≡ true))
  unfolding stuck_seeds
  seeds_iff x = elem-hits is_bad x rows

  Stuck-seed :
      (x : String) → elem x (stuck_seeds retry_limit rows) ≡ true → Stuck retry_limit rows x
  Stuck-seed x h =
      let (dep, n, b) = (seeds_iff x).0 h in
      let failed_for_good = (is_bad_iff dep).0 b in
      by_failure x dep n failed_for_good.0 failed_for_good.1

  Stuck-Downstream :
      (x : String)
      → Downstream is_open rows (stuck_seeds retry_limit rows) x
      → Stuck retry_limit rows x
  Stuck-Downstream x (direct _ y seed n) = by_stuck x y n (Stuck-seed y seed)
  Stuck-Downstream x (further _ y below n) = by_stuck x y n (Stuck-Downstream y below)

  Stuck-found : (x : String) → Stuck retry_limit rows x → elem x (stuck_ids retry_limit rows) ≡ true
  Stuck-found x (by_failure _ dep n unmet bad) =
      (stuck_ids-Downstream retry_limit rows x).1
        (inl ((seeds_iff x).1 (dep, n, (is_bad_iff dep).1 (unmet, bad))))
  Stuck-found x (by_stuck _ dep n s) = (stuck_ids-Downstream retry_limit rows x).1 (
      inr (elim ((stuck_ids-Downstream retry_limit rows dep).0 (Stuck-found dep s)) [
        | inl seed ↦ direct x dep seed n
        | inr below ↦ further x dep below n
      ]))

  -- The ids that are skipped at the end of the batch loop are exactly those of planned and pending
  -- deliverables with a dependency that is not completed or skipped and has failed with no retry left, or
  -- with a dependency on such an id, through any number of steps.
  pub stuck_ids_iff :
      (x : String) → (elem x (stuck_ids retry_limit rows) ≡ true) ↔ Stuck retry_limit rows x
  stuck_ids_iff x = (
    λ h. elim ((stuck_ids-Downstream retry_limit rows x).0 h) [
      | inl seed ↦ Stuck-seed x seed
      | inr below ↦ Stuck-Downstream x below
    ],
    Stuck-found x,
  )
