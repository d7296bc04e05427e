-- ===== src/Sessions/Persist/Agreement.antt =====
-- After the checkpoint of a deliverable, its row and the session agree.
use auto_builder.Base.{
  ℕ, String, Option, none, some, true, false, List, ◌≡◌, refl, sym, subst, ◌==◌, eq_iff,
}
use auto_builder.Model.{DeliverableStatus}
use auto_builder.Model.Rows.{Deliverable}
use auto_builder.Model.Values.{Value, text, State, get}
use auto_builder.Deliverables.Update.{find_row, write_row, parse_status}
use auto_builder.Deliverables.Update.Finality.{
  find_row-id, find_row-write_row, find_row-write_row_self,
}
use auto_builder.Sessions.State.{get-put, status_key}
use auto_builder.Sessions.Persist.{
  Checkpointed, raised, published, with_checkpoint, persist_status, persist_found, status_raw,
  checkpoint_deliverable,
}

-- What becomes of the row that has the id, by the status that its text stands for.
abbrev pub Outcome :
    ℕ
    → String
    → String
    → String
    → List Deliverable
    → Option Deliverable
    → Option DeliverableStatus
    → List Deliverable × Checkpointed
    → Type 0
Outcome now did id status rows none s out = out ≡ (rows, published did status false)
Outcome now did id status rows (some d) none out = out ≡ (rows, raised)
Outcome now did id status rows (some d) (some s) (rows', reply) =
    (reply ≡ published did status true)
    × (find_row id rows' ≡ some (record d { status = s; updated_at = now }))
    × ((other : String) → (id == other) ≡ false → find_row other rows' ≡ find_row other rows)

persist_status-Outcome :
    (now : ℕ) (did id status : String) (s : Option DeliverableStatus) (d : Deliverable)
    (rows : List Deliverable)
    → find_row id rows ≡ some d
    → Outcome now did id status rows (some d) s (persist_status now did status s d rows)
persist_status-Outcome now did id status none d rows here = refl
persist_status-Outcome now did id status (some s) d rows here =
    let id_of = find_row-id id rows d here in
    let written = with_checkpoint now s d in
    let found : find_row d.id rows ≡ some d =
      subst (λ i. find_row i rows ≡ some d) (sym id_of) here in
    (
      refl,
      subst (λ i. find_row i (write_row written rows) ≡ some written) id_of
          (find_row-write_row_self written rows d found),
      λ other apart.
          find_row-write_row other written rows
            (subst (λ i. (i == other) ≡ false) (sym id_of) apart),
    )

persist_found-Outcome :
    (now : ℕ) (did id status : String) (o : Option Deliverable) (rows : List Deliverable)
    → find_row id rows ≡ o
    → Outcome now did id status rows o (parse_status status) (persist_found now did status o rows)
persist_found-Outcome now did id status none rows here = refl
persist_found-Outcome now did id status (some d) rows here =
    persist_status-Outcome now did id status (parse_status status) d rows here

-- After the checkpoint of the session's deliverable, whose id is well-formed, the session has the status as
-- a text. If no row has the id, no row changes and the event says that nothing was persisted; if the text
-- is no status, the callback raises and no row changes; else the row has the status and the time and is
-- otherwise as it was, whatever its status was, every other row is as it was, and the event says so.
pub checkpoint_deliverable-Outcome :
    (parse_uuid : String → Option String) (show : Value → String) (now : ℕ) (did id : String)
    (state : State) (rows : List Deliverable)
    → get state "current_deliverable_id" ≡ text did
    → parse_uuid did ≡ some id
    → let (state', rows', reply) = checkpoint_deliverable parse_uuid show now state rows in
      let status = status_raw parse_uuid show did state in
      Outcome now did id status rows (find_row id rows) (parse_status status) (rows', reply)
      × (get state' (status_key did) ≡ text status)
unfolding checkpoint_deliverable
checkpoint_deliverable-Outcome parse_uuid show now did id state rows named parsed =
    let status = status_raw parse_uuid show did state in
    let same : (status_key did == status_key did) ≡ true = (eq_iff _ _).1 refl in
    rw (named, parsed)
      (
        persist_found-Outcome now did id status (find_row id rows) rows refl,
        rw (get-put (status_key did) (status_key did) (text status) state, same) refl,
      )
