-- ===== src/Deliverables/Failure/Reached.antt =====
-- The two searches find exactly the deliverables that depend on their start, directly or through
-- others, and their fuel is enough.
pub mod Found
mod Weight
mod Complete
use auto_builder.Base.{
  ℕ, ◌+◌, ◌≤◌, String, Bool, true, false, List, [], ◌∷◌, ◌≡◌, refl, ◌↔◌, ◌⊎◌, inl, inr, elem,
  length, map, select, not, ◌&&◌, ◌==◌, arith, All-map, elem-All, ap, IsIn, Any, eq_iff, Bool-cases,
  if◌then◌else◌, sym, IsIn-select,
}
use auto_builder.Model.{is_terminal_deliverable, is_waiting, skipped}
use auto_builder.Model.Rows.{Deliverable}
use auto_builder.Deliverables.Failure.{
  Search, is_other, enough, spread, blocked_ids, evaluate_failure_impact, is_open, is_stuck,
  stuck_seeds, stuck_ids, skip_row, skip_blocked,
}
use Found.{Needs, Downstream, direct, further, spread-found}
use Weight.{unfound-le-length, spread-grows}
use Complete.{spread_complete}

-- A deliverable is blocked by a failed one exactly when a chain of dependencies leads from it to
-- the failed one; the failed one itself is in none of the chain's other links.
pub blocked_ids_iff :
    (failed_id : String) (rows : List Deliverable) (x : String)
    → (elem x (blocked_ids failed_id rows) ≡ true)
      ↔ Downstream (is_other failed_id) rows (failed_id ∷ []) x
unfolding blocked_ids elem
blocked_ids_iff failed_id rows x =
    let begin : Search = record { found = []; frontier = failed_id ∷ [] } in
    (
      λ h.
          elim (spread-found (is_other failed_id) rows (failed_id ∷ []) []
            (enough rows (failed_id ∷ [])) begin x
            (record {
              reached = tt;
              sources = (inl (ground (arith, eq_iff failed_id failed_id)), tt);
            })
            h) [ inl none ↦ cc | inr below ↦ below ],
      spread_complete (is_other failed_id) rows (failed_id ∷ []) (enough rows (failed_id ∷ []))
          begin (omega (arith, unfound-le-length rows []))
          (λ y o. elim o [ inl begun ↦ inl begun | inr found ↦ cc ]) x,
    )

pub stuck_ids-Downstream :
    (retry_limit : ℕ) (rows : List Deliverable) (x : String)
    → (elem x (stuck_ids retry_limit rows) ≡ true) ↔ (
        (elem x (stuck_seeds retry_limit rows) ≡ true)
        ⊎ Downstream is_open rows (stuck_seeds retry_limit rows) x)
unfolding stuck_ids
stuck_ids-Downstream retry_limit rows x =
    let seeds = stuck_seeds retry_limit rows in
    let begin : Search = record { found = seeds; frontier = seeds } in
    (
      spread-found is_open rows seeds seeds (enough rows seeds) begin x (record {
        reached = All-map seeds (λ y h. inl h) (elem-All seeds);
        sources = All-map seeds (λ y h. inl h) (elem-All seeds);
      }),
      elim [
        | inl seed ↦ spread-grows is_open rows (enough rows seeds) begin x seed
        | inr below ↦
            spread_complete is_open rows seeds (enough rows seeds) begin
              (omega (arith, unfound-le-length rows seeds))
              (λ y o. elim o [ inl begun ↦ inl begun | inr found ↦ inl found ]) x below
      ],
    )

IsIn-skip_row :
    (now : ℕ) (stuck : List String) (rows : List Deliverable) (d : Deliverable)
    → IsIn d (map (skip_row now stuck) rows)
    → is_waiting d.status ≡ true
    → IsIn d rows × (elem d.id stuck ≡ false)
IsIn-skip_row now stuck [] d h w = absurd h
IsIn-skip_row now stuck (r ∷ rows) d (inr later) w =
    let rest = IsIn-skip_row now stuck rows d later w in (inr rest.0, rest.1)
IsIn-skip_row now stuck (r ∷ rows) d (inl here) w = elim (Bool-cases (elem r.id stuck)) [
  | inl e ↦
      let same = rw e at here in absurd (ground (arith, ap (λ (x : Deliverable). x.status) same))
  | inr e ↦ let same : r ≡ d = rw e at here in (inl same, rw same at e)
]

Needs-of :
    (admit : Deliverable → Bool) (y : String) (rows : List Deliverable) (d : Deliverable)
    → IsIn d rows
    → admit d ≡ true
    → elem y d.depends_on ≡ true
    → Needs admit d.id y rows
Needs-of admit y (r ∷ rows) d (inl here) a n =
    inl (ap (λ (x : Deliverable). x.id) here, rw (← here) at a, rw (← here) at n)
Needs-of admit y (r ∷ rows) d (inr later) a n = inr (Needs-of admit y rows d later a n)
Needs-of admit y [] d h a n = absurd h

seed-of :
    (retry_limit : ℕ) (rows : List Deliverable) (d : Deliverable) (from : List Deliverable)
    → IsIn d from
    → is_stuck retry_limit rows d ≡ true
    → elem d.id (map (λ (e : Deliverable). e.id) (select (is_stuck retry_limit rows) from)) ≡ true
unfolding elem select
seed-of retry_limit rows d [] h e = absurd h
seed-of retry_limit rows d (r ∷ from) (inl here) e =
    let stuck : is_stuck retry_limit rows r ≡ true = rw (← here) at e in
    rw (stuck, here) (ground (arith, eq_iff d.id d.id))
seed-of retry_limit rows d (r ∷ from) (inr later) e =
    let rest = seed-of retry_limit rows d from later e in
    elim (Bool-cases (is_stuck retry_limit rows r)) [
      | inl s ↦ rw s (ground (arith, rest))
      | inr s ↦ rw s rest
    ]

not_seed :
    (retry_limit : ℕ) (rows : List Deliverable) (d : Deliverable)
    → IsIn d rows
    → elem d.id (stuck_ids retry_limit rows) ≡ false
    → is_stuck retry_limit rows d ≡ false
unfolding stuck_seeds
not_seed retry_limit rows d h out = elim (Bool-cases (is_stuck retry_limit rows d)) [
  | inr no_seed ↦ no_seed
  | inl seed ↦ cc (
      (stuck_ids-Downstream retry_limit rows d.id).1 (inl (seed-of retry_limit rows d rows h seed)))
]

carries :
    (retry_limit : ℕ) (rows : List Deliverable) (d : Deliverable)
    → IsIn d rows
    → is_waiting d.status ≡ true
    → (y : String) → elem y d.depends_on ≡ true
    → elem y (stuck_ids retry_limit rows) ≡ true
    → elem d.id (stuck_ids retry_limit rows) ≡ true
carries retry_limit rows d h w y n bad =
    let need = Needs-of is_open y rows d h w n in
    (stuck_ids-Downstream retry_limit rows d.id).1 (
      inr (elim ((stuck_ids-Downstream retry_limit rows y).0 bad) [
        | inl seed ↦ direct d.id y seed need
        | inr below ↦ further d.id y below need
      ]))

-- After the marking, a deliverable that still waits was there before, had no unsatisfied dependency
-- that failed for good, and depends on no id that was skipped.
skip_blocked-waiting :
    (now retry_limit : ℕ) (rows : List Deliverable) (d : Deliverable)
    → IsIn d (skip_blocked now retry_limit rows)
    → is_waiting d.status ≡ true
    → IsIn d rows
      × (is_stuck retry_limit rows d ≡ false)
      × ((y : String) → elem y d.depends_on ≡ true → elem y (stuck_ids retry_limit rows) ≡ false)
unfolding skip_blocked
skip_blocked-waiting now retry_limit rows d h w =
    let kept = IsIn-skip_row now (stuck_ids retry_limit rows) rows d h w in
    (
      kept.0,
      not_seed retry_limit rows d kept.0 kept.1,
      λ y n. elim (Bool-cases (elem y (stuck_ids retry_limit rows))) [
        | inr out ↦ out
        | inl bad ↦ cc (carries retry_limit rows d kept.0 w y n bad)
      ],
    )
