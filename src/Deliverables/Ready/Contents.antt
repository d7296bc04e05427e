-- ===== src/Deliverables/Ready/Contents.antt =====
-- What a ready batch holds.
use auto_builder.Base.{
  ℕ, ◌≤◌, String, Bool, true, false, List, [], ◌∷◌, ◌≡◌, refl, ◌↔◌, inl, inr, select, nat_eq, elem,
  length, All, Any, IsIn, IsIn-select, eq_iff, arith, Bool-cases, not, length-select, IsIn-sort_by,
  length-sort_by, IsOrdered, sort_by-IsOrdered,
}
use auto_builder.Model.{is_satisfied}
use auto_builder.Model.Rows.{Deliverable}
use auto_builder.Deliverables.Ready.{
  is_actionable, in_degree, satisfied, order_of, before, sort, is_ready, select_ready,
  select_ready_batch, max_deliverable_retries,
}

-- Some completed or skipped deliverable of the project has the id `dep`.
abbrev pub IsMet : List Deliverable → String → Type 0
IsMet all dep = Any (λ (e : Deliverable). (e.id ≡ dep) × (is_satisfied e.status ≡ true)) all

pub elem-satisfied :
    (dep : String) (all : List Deliverable) → (elem dep (satisfied all) ≡ true) ↔ IsMet all dep
unfolding elem satisfied
elem-satisfied dep [] = (λ h. cc, λ h. absurd h)
elem-satisfied dep (e ∷ all) = (
  λ h. ground (arith, (elem-satisfied dep all).0, eq_iff e.id dep),
  λ h. elim h [
    | inl met ↦ ground (arith, eq_iff e.id dep)
    | inr rest ↦ ground (arith, (elem-satisfied dep all).1 rest)
  ],
)

in_degree-zero :
    (all : List Deliverable) (deps : List String)
    → (nat_eq (in_degree (satisfied all) deps) 0 ≡ true) ↔ All (IsMet all) deps
unfolding in_degree
in_degree-zero all [] = (λ h. tt, λ h. refl)
in_degree-zero all (dep ∷ deps) = elim (Bool-cases (elem dep (satisfied all))) [
  | inl e ↦ rw e (
    λ h. ((elem-satisfied dep all).0 e, (in_degree-zero all deps).0 h),
    λ h. (in_degree-zero all deps).1 h.1,
  )
  | inr e ↦ rw e (λ h. absurd (ground arith), λ h. let bad = (elem-satisfied dep all).1 h.0 in cc)
]

IsIn-sort : (a : Deliverable) (ds : List Deliverable) → IsIn a (sort ds) ↔ IsIn a ds
unfolding sort
IsIn-sort = IsIn-sort_by before

-- A deliverable is in the ready batch exactly when it is one of the project's, it is waiting or
-- failed with retries left, and each id that it depends on is a completed or skipped deliverable's.
pub select_ready_iff :
    (limit : ℕ) (all : List Deliverable) (d : Deliverable)
    → IsIn d (select_ready limit all)
      ↔ (IsIn d all × (is_actionable limit d ≡ true) × All (IsMet all) d.depends_on)
unfolding select_ready
select_ready_iff limit all d = (
  λ h.
      let ready = (IsIn-select (is_ready limit all) d _).0 ((IsIn-sort d _).0 h) in
      let acting = (IsIn-select (is_actionable limit) d all).0 ready.0 in
      (acting.0, acting.1, (in_degree-zero all d.depends_on).0 ready.1),
  λ h. (IsIn-sort d _).1 (
      (IsIn-select (is_ready limit all) d _).1 (
        (IsIn-select (is_actionable limit) d all).1 (h.0, h.1),
        (in_degree-zero all d.depends_on).1 h.2,
      )),
)

abbrev IsEarlier : Deliverable → Deliverable → Type 0
IsEarlier a b = order_of a ≤ order_of b

before-le : (a b : Deliverable) → before a b ≡ true → order_of a ≤ order_of b
before-le a b h = ground arith

before-ge : (a b : Deliverable) → before a b ≡ false → order_of b ≤ order_of a
before-ge a b h = ground arith

-- A ready batch runs by execution order, where a missing order counts as 0.
select_ready-IsOrdered :
    (limit : ℕ) (all : List Deliverable) → IsOrdered IsEarlier (select_ready limit all)
unfolding select_ready sort
select_ready-IsOrdered limit all =
    sort_by-IsOrdered IsEarlier before before-le before-ge
      (select (is_ready limit all) (select (is_actionable limit) all))

length-sort : (ds : List Deliverable) → length (sort ds) ≡ length ds
unfolding sort
length-sort = length-sort_by before

split :
    (limit : ℕ) (p : Deliverable → Bool) (all : List Deliverable)
    → length (select p (select (is_actionable limit) all))
      ≤ length (select (λ e. not (is_satisfied e.status)) all)
unfolding select
split limit p [] = omega arith
split limit p (d ∷ all) = ground (arith, split limit p all)

-- The reply of select_ready_batch counts its batch, and never reports more ready deliverables than
-- remaining ones, nor more remaining ones than there are.
select_ready_batch-counts :
    (all : List Deliverable)
    → let r = select_ready_batch all in
      (length r.batch ≡ r.total_ready)
      × (r.total_ready ≤ r.total_remaining)
      × (r.total_remaining ≤ length all)
unfolding select_ready_batch select_ready
select_ready_batch-counts [] = (refl, omega arith, omega arith)
select_ready_batch-counts (d ∷ ds) = (
  refl,
  rw length-sort (split max_deliverable_retries _ (d ∷ ds)),
  length-select (λ e. not (is_satisfied e.status)) (d ∷ ds),
)
