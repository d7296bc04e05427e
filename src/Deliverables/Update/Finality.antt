-- ===== src/Deliverables/Update/Finality.antt =====
-- Finished deliverables stay as they are, and a refused request changes nothing.
use auto_builder.Base.{
  ℕ, ◌+◌, String, Option, none, some, Bool, true, false, List, [], ◌∷◌, ◌≡◌, refl, inl, inr, any,
  ◌==◌, arith, eq_iff, Bool-cases, ◌∙◌, sym, subst, ap,
}
use auto_builder.Model.{
  DeliverableStatus, failed, in_progress, is_satisfied, planned, pending, blocked, completed,
  skipped,
}
use auto_builder.Model.Rows.{Deliverable}
use auto_builder.Deliverables.Update.{
  valid_transitions, parse_status, UpdateReply, ok, not_found, invalid_transition, find_row,
  write_row, is_allowed, updated, update_found, update_parsed, update_deliverable,
}

abbrev pub is_ok : UpdateReply → Bool
is_ok (ok _ _) = true
is_ok _ = false

pub find_row-id :
    (did : String) (rows : List Deliverable) (d : Deliverable)
    → find_row did rows ≡ some d
    → d.id ≡ did
unfolding find_row
find_row-id did [] d h = ground arith
find_row-id did (r ∷ rows) d h = ground (arith, find_row-id did rows d, eq_iff r.id did)

pub find_row-write_row :
    (did : String) (r : Deliverable) (rows : List Deliverable)
    → (r.id == did) ≡ false
    → find_row did (write_row r rows) ≡ find_row did rows
unfolding find_row write_row
find_row-write_row did r [] h = refl
find_row-write_row did r (d ∷ rows) h =
    ground
      (arith, find_row-write_row did r rows h, eq_iff d.id r.id, eq_iff r.id did, eq_iff d.id did)

final_not_allowed :
    (old new : DeliverableStatus) → is_satisfied old ≡ true → is_allowed old new ≡ false
unfolding valid_transitions any
final_not_allowed old new h = ground arith

module _ (did : String) (d : Deliverable) (final : is_satisfied d.status ≡ true) where
  update_found-final :
      (now : ℕ) (new : DeliverableStatus) (o : Option Deliverable) (other : String)
      (rows : List Deliverable)
      → find_row other rows ≡ o
      → find_row did rows ≡ some d
      → find_row did (update_found now new o rows).0 ≡ some d
  unfolding update_found
  update_found-final now new none other rows e h = h
  update_found-final now new (some r) other rows e h = elim (Bool-cases (is_allowed r.status new)) [
    | inr no_change ↦ rw no_change h
    | inl allowed ↦ rw allowed (elim (Bool-cases (r.id == did)) [
      | inr apart ↦ find_row-write_row did (updated now new r) rows apart ∙ h
      | inl same ↦
          let i : other ≡ did = sym (find_row-id other rows r e) ∙ (eq_iff r.id did).0 same in
          let here : some d ≡ some r = sym h ∙ (rw i at e) in
          let back : r ≡ d = cc in
          let bad : is_allowed d.status new ≡ true = rw back at allowed in
          cc (final_not_allowed d.status new final)
    ])
  ]

  update_parsed-final :
      (now : ℕ) (parsed : Option String) (new : Option DeliverableStatus) (rows : List Deliverable)
      → find_row did rows ≡ some d
      → find_row did (update_parsed now parsed new rows).0 ≡ some d
  update_parsed-final now none new rows h = h
  update_parsed-final now (some other) none rows h = h
  update_parsed-final now (some other) (some new) rows h =
      update_found-final now new (find_row other rows) other rows refl h

-- A call of the tool: the time, the deliverable's id and the status that it asks for.
pub record Request : Type 0 where
  pub now : ℕ
  pub deliverable_id : String
  pub status : String

module _ (parse_uuid : String → Option String) where
  unfoldable pub update_all : List Request → List Deliverable → List Deliverable
  update_all [] rows = rows
  update_all (r ∷ rs) rows =
      update_all rs (update_deliverable parse_uuid r.now r.deliverable_id r.status rows).0

  -- A completed or skipped deliverable keeps its row, whatever updates are asked for, of it or of
  -- others, by well-formed ids and statuses or not.
  pub update_all_final :
      (did : String) (d : Deliverable)
      → is_satisfied d.status ≡ true
      → (rs : List Request) (rows : List Deliverable) → find_row did rows ≡ some d
      → find_row did (update_all rs rows) ≡ some d
  unfolding update_all update_deliverable
  update_all_final did d final [] rows h = h
  update_all_final did d final (r ∷ rs) rows h = update_all_final did d final rs _ (
      update_parsed-final did d final r.now (parse_uuid r.deliverable_id) (parse_status r.status)
        rows h)

pub find_row-write_row_self :
    (r : Deliverable) (rows : List Deliverable) (d : Deliverable)
    → find_row r.id rows ≡ some d
    → find_row r.id (write_row r rows) ≡ some r
unfolding find_row write_row
find_row-write_row_self r [] d h = cc
find_row-write_row_self r (x ∷ rows) d h =
    ground (arith, find_row-write_row_self r rows d, eq_iff x.id r.id, eq_iff r.id r.id)

-- The status diagram.
unfoldable pub may_become : DeliverableStatus → DeliverableStatus → Bool
may_become planned pending = true
may_become planned in_progress = true
may_become pending in_progress = true
may_become pending blocked = true
may_become in_progress completed = true
may_become in_progress failed = true
may_become in_progress skipped = true
may_become in_progress blocked = true
may_become failed in_progress = true
may_become failed skipped = true
may_become blocked pending = true
may_become blocked in_progress = true
may_become _ _ = false

is_allowed_lem : (old new : DeliverableStatus) → is_allowed old new ≡ may_become old new
unfolding valid_transitions any may_become
is_allowed_lem old new = ground arith

-- From FAILED to IN_PROGRESS is a retry.
abbrev pub retries : DeliverableStatus → DeliverableStatus → ℕ → ℕ
retries failed in_progress n = n + 1
retries _ _ n = n

abbrev pub with_status : ℕ → DeliverableStatus → Deliverable → Deliverable
with_status now new d = record d {
  status = new;
  retry_count = retries d.status new d.retry_count;
  updated_at = now;
}

updated_lem :
    (now : ℕ) (new : DeliverableStatus) (d : Deliverable)
    → updated now new d ≡ with_status now new d
unfolding updated
updated_lem now new d = ground arith

-- What becomes of a request about `did`, by the row that it finds. Where the diagram leads from the
-- row's status to the new one, the row gets it, with one retry more if it is a retry, every other row is
-- as it was, and the reply says so; else no row changes.
abbrev pub Effect :
    ℕ
    → String
    → DeliverableStatus
    → List Deliverable
    → Option Deliverable
    → List Deliverable × UpdateReply
    → Type 0
Effect now did new rows none out = out ≡ (rows, not_found)
Effect now did new rows (some d) (rows', reply) =
    (may_become d.status new ≡ true
      → (reply ≡ ok new (retries d.status new d.retry_count))
        × (find_row did rows' ≡ some (with_status now new d))
        × ((other : String) → (did == other) ≡ false → find_row other rows' ≡ find_row other rows))
    × (may_become d.status new ≡ false → (reply ≡ invalid_transition d.status new) × (rows' ≡ rows))

update_found-Effect :
    (did : String) (now : ℕ) (new : DeliverableStatus) (o : Option Deliverable)
    (rows : List Deliverable)
    → find_row did rows ≡ o
    → Effect now did new rows o (update_found now new o rows)
unfolding update_found
update_found-Effect did now new none rows e = refl
update_found-Effect did now new (some d) rows e = elim (Bool-cases (is_allowed d.status new)) [
  | inr stays ↦
      let no = sym (is_allowed_lem d.status new) ∙ stays in
      rw stays (λ yes_too. cc, λ _. (refl, refl))
  | inl allowed ↦
      let so = sym (is_allowed_lem d.status new) ∙ allowed in
      let same : d.id ≡ did = find_row-id did rows d e in
      let written = with_status now new d in
      let found : find_row d.id rows ≡ some d =
        subst (λ i. find_row i rows ≡ some d) (sym same) e in
      rw (allowed, updated_lem now new d)
        (
          λ _. (
            ap (λ (x : Deliverable). ok new x.retry_count) (updated_lem now new d),
            subst (λ i. find_row i (write_row written rows) ≡ some written) same
                (find_row-write_row_self written rows d found),
            λ other apart.
                find_row-write_row other written rows
                  (subst (λ i. (i == other) ≡ false) (sym same) apart),
          ),
          λ not_so. cc,
        )
]

-- A request with a well-formed id and status is refused with not_found if no row has the id. Otherwise, if
-- the status diagram leads from the row's status to the new one, the row gets the new status and the time,
-- and one more retry exactly if it goes from FAILED to IN_PROGRESS; the reply is `ok` with the row's
-- retries, and every other row is as it was. If it does not, the reply names the two statuses, and no row
-- changes.
pub update_deliverable-Effect :
    (parse_uuid : String → Option String) (now : ℕ) (deliverable_id status did : String)
    (new : DeliverableStatus) (rows : List Deliverable)
    → parse_uuid deliverable_id ≡ some did
    → parse_status status ≡ some new
    → Effect now did new rows
        (find_row did rows)
        (update_deliverable parse_uuid now deliverable_id status rows)
unfolding update_deliverable
update_deliverable-Effect parse_uuid now deliverable_id status did new rows p q =
    rw (p, q) (update_found-Effect did now new (find_row did rows) rows refl)
