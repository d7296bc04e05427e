-- ===== src/Deliverables/Failure/Budget.antt =====
-- Retry budgets: of a deliverable, and of consecutive failed batches.
use auto_builder.Base.{
  ℕ, zero, suc, ◌+◌, ◌≤◌, String, some, Bool, true, false, List, [], ◌∷◌, ◌++◌, ◌≡◌, refl, ltb, leb,
  if◌then◌else◌, arith, Bool-cases, inl, inr, ◌∙◌, subst,
}
use Prim.Native.Nat.{min}
use auto_builder.Model.{in_progress, failed}
use auto_builder.Model.Rows.{Deliverable}
use auto_builder.Deliverables.Update.{find_row, write_row}
use auto_builder.Deliverables.Update.Finality.{find_row-id, find_row-write_row_self}
use auto_builder.Deliverables.Failure.{
  retry, exhausted, handle_deliverable_failure, ok, threshold_exceeded, track_batch_result,
}

-- `n` failures of one deliverable, one after the other.
unfoldable pub failures : ℕ → ℕ → String → ℕ → List Deliverable → List Deliverable
failures zero now did limit rows = rows
failures (suc n) now did limit rows =
    failures n now did limit (handle_deliverable_failure now did limit rows).0

abbrev after_failure : ℕ → ℕ → Deliverable → Deliverable
after_failure now limit d =
    if ltb d.retry_count limit
    then record d { status = in_progress; retry_count = d.retry_count + 1; updated_at = now }
    else record d { status = failed; updated_at = now }

handle-found :
    (now : ℕ) (did : String) (limit : ℕ) (rows : List Deliverable) (d : Deliverable)
    → find_row did rows ≡ some d
    → (find_row did (handle_deliverable_failure now did limit rows).0
        ≡ some (after_failure now limit d))
      × ((handle_deliverable_failure now did limit rows).1
          ≡ (if ltb d.retry_count limit then retry else exhausted))
unfolding handle_deliverable_failure
handle-found now did limit rows d h =
    let same : d.id ≡ did = find_row-id did rows d h in
    let written : (r : Deliverable) → r.id ≡ d.id → find_row did (write_row r rows) ≡ some r =
      λ r e.
        subst (λ i. find_row i (write_row r rows) ≡ some r) (e ∙ same)
          (find_row-write_row_self r rows d (rw (e ∙ same) h)) in
    elim (Bool-cases (ltb d.retry_count limit)) [
      | inl e ↦ rw (h, e) (written _ refl, refl)
      | inr e ↦ rw (h, e) (written _ refl, refl)
    ]

-- However often a deliverable fails, it is retried only while its retry count is below the limit:
-- after `n` failures of a row with `c` retries, within the limit, the row has `min limit (c + n)`,
-- and the next failure is answered by a retry exactly if `c + n` is below the limit.
pub failures-retry_count :
    (n now limit : ℕ) (did : String) (rows : List Deliverable) (d : Deliverable)
    → find_row did rows ≡ some d
    → d.retry_count ≤ limit
    → (d' : Deliverable) × (find_row did (failures n now did limit rows) ≡ some d')
      × (d'.retry_count ≡ min limit (d.retry_count + n))
      × ((handle_deliverable_failure now did limit (failures n now did limit rows)).1
          ≡ (if ltb (d.retry_count + n) limit then retry else exhausted))
unfolding failures
failures-retry_count zero now limit did rows d h le =
    (d, h, omega arith, (handle-found now did limit rows d h).1 ∙ ground arith)
failures-retry_count (suc n) now limit did rows d h le =
    let next = handle-found now did limit rows d h in
    let (d', found, count, reply) =
      failures-retry_count n now limit did _ (after_failure now limit d) next.0 (ground arith) in
    (d', found, count ∙ ground arith, reply ∙ ground arith)

-- The results of batches, in order; the counter of the state after them.
unfoldable pub track_all : ℕ → List Bool → ℕ → ℕ
track_all threshold [] counter = counter
track_all threshold (b ∷ bs) counter =
    track_all threshold bs (track_batch_result b threshold counter).0

abbrev pub failing : ℕ → List Bool
failing zero = []
failing (suc n) = true ∷ failing n

track_all-failing :
    (threshold n counter : ℕ) → track_all threshold (failing n) counter ≡ counter + n
unfolding track_all track_batch_result
track_all-failing threshold zero counter = omega arith
track_all-failing threshold (suc n) counter =
    track_all-failing threshold n (counter + 1) ∙ omega arith

-- Only consecutive failures count: after any history that ends with a good batch and `n` failed
-- ones, one more failed batch exceeds the threshold exactly if `n + 1` reaches it.
track_batch_result-consecutive :
    (threshold n : ℕ) (history : List Bool) (counter : ℕ)
    → (track_batch_result true threshold
        (track_all threshold (history ++ false ∷ failing n) counter)).1
      ≡ (if leb threshold (n + 1) then threshold_exceeded else ok)
unfolding track_all track_batch_result
track_batch_result-consecutive threshold n [] counter =
    rw (track_all-failing threshold n 0) (ground arith)
track_batch_result-consecutive threshold n (b ∷ history) counter =
    track_batch_result-consecutive threshold n history (track_batch_result b threshold counter).0
