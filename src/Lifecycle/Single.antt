-- ===== src/Lifecycle/Single.antt =====
-- The operations on one project: workers/lifecycle.py, suspend_project of agents/supervision.py,
-- and delegate_to_pm of tools/management.py. `project_id` is the canonical text of a UUID.
use auto_builder.Base.{
  ℕ, String, Option, none, some, Bool, false, List, map, select, ◌==◌, ◌&&◌, if◌then◌else◌,
  is_truthy, or_default, insert, delete,
}
use auto_builder.Model.{
  pending, failed, ProjectStatus, shaping, active, paused, suspended, aborted, same_project_status,
  same_deliverable_status, is_terminal_project, World, Event, project_status_changed, Job,
  find_project, update_project, publish, enqueue,
}
use auto_builder.Model.Rows.{Project, Deliverable}

-- What an operation returns: its error messages, or its `"status": "ok"` reply.
pub data Reply : Type 0 where
  not_found : Reply
  refused : (status : ProjectStatus) → Reply
  ok : (new_status : ProjectStatus) → Reply

abbrev pub with_status : ProjectStatus → Project → Project
with_status s p = record p { status = s }

abbrev pub status_event : Project → ProjectStatus → String → String → Event
status_event p new actor scope =
    project_status_changed p.id p.status new (some actor) (some scope) (some p.workflow_type)

unfoldable pub pause_found : Option String → Option Project → World → World × Reply
pause_found reason none w = (w, not_found)
pause_found reason (some p) w =
    if same_project_status p.status active
    then (
      publish (status_event p paused "user" "project")
          (record (update_project p.id (with_status paused) w) {
            pause_flags = insert p.id (or_default reason "user_initiated") w.pause_flags;
          }),
      ok paused,
    )
    else (w, refused p.status)

unfoldable pub pause_project : String → Option String → World → World × Reply
unfolding pause_found
pause_project pid reason w = pause_found reason (find_project pid w) w

-- An empty resolution is no resolution.
abbrev resume_job : String → Option String → Job
resume_job pid resolution = record {
  project_id = pid;
  resume_resolution = if is_truthy resolution then resolution else none;
}

unfoldable pub resume_found : Option String → Option Project → World → World × Reply
resume_found resolution none w = (w, not_found)
resume_found resolution (some p) w =
    if same_project_status p.status paused
    then (
      publish (status_event p active "user" "project") (
          enqueue (resume_job p.id resolution)
            (record (update_project p.id (with_status active) w) {
              pause_flags = delete p.id w.pause_flags;
            })),
      ok active,
    )
    else (w, refused p.status)

unfoldable pub resume_project : String → Option String → World → World × Reply
unfolding resume_found
resume_project pid resolution w = resume_found resolution (find_project pid w) w

unfoldable pub abort_found : ℕ → String → Option Project → World → World × Reply
abort_found now reason none w = (w, not_found)
abort_found now reason (some p) w =
    if is_terminal_project p.status then (w, refused p.status) else (
      publish (status_event p aborted "user" "project") (
          update_project p.id
            (λ r. record r {
              status = aborted;
              error_message = some reason;
              completed_at = some now;
            })
            w),
      ok aborted,
    )

unfoldable pub abort_project : ℕ → String → String → World → World × Reply
unfolding abort_found
abort_project now pid reason w = abort_found now reason (find_project pid w) w

-- `with_publisher` is false where the caller passes no publisher.
unfoldable pub suspend_found : ℕ → String → Bool → Option Project → World → World
suspend_found now reason with_publisher none w = w
suspend_found now reason with_publisher (some p) w =
    if is_terminal_project p.status
    then w
    else let w' =
        update_project p.id
          (λ r. record r { status = suspended; error_message = some reason; updated_at = now }) w in
      if with_publisher
      then publish (project_status_changed p.id p.status suspended none none none) w'
      else w'

unfoldable pub suspend_project : ℕ → String → String → Bool → World → World
unfolding suspend_found
suspend_project now pid reason with_publisher w =
    suspend_found now reason with_publisher (find_project pid w) w

-- `Deliverable.project_id == project_id` and `status == FAILED`.
abbrev pub is_failed_of : String → Deliverable → Bool
is_failed_of pid d =
    elim d.project_id [ none ↦ false | some owner ↦ owner == pid ]
    && same_deliverable_status d.status failed

abbrev pub reset_failed : String → Deliverable → Deliverable
reset_failed pid d =
    if is_failed_of pid d then record d { status = pending; retry_count = 0 } else d

unfoldable pub resolution_found : Option Project → World → World × Option (List String)
resolution_found none w = (w, none)
resolution_found (some p) w =
    let was_suspended = same_project_status p.status suspended in
    let retried = map (λ (d : Deliverable). d.id) (select (is_failed_of p.id) w.deliverables) in
    let reset = record w { deliverables = map (reset_failed p.id) w.deliverables } in
    let revived =
      if was_suspended
      then publish (status_event p active "ceo" "project")
          (update_project p.id (λ r. record r { status = active; error_message = none }) reset)
      else reset in
    (enqueue (record { project_id = p.id; resume_resolution = none }) revived, some retried)

-- Returns the ids of the retried deliverables, or `none` where the project is not there. The text
-- of the resolution is not read.
unfoldable pub apply_resolution_to_project : String → String → World → World × Option (List String)
unfolding resolution_found
apply_resolution_to_project pid resolution w = resolution_found (find_project pid w) w

unfoldable pub delegate_found : ℕ → Option Project → World → World × Reply
delegate_found now none w = (w, not_found)
delegate_found now (some p) w =
    if same_project_status p.status shaping
    then (
      update_project p.id (λ r. record r { status = active; started_at = some now })
          (enqueue (record { project_id = p.id; resume_resolution = none }) w),
      ok active,
    )
    else (w, refused p.status)

unfoldable pub delegate_to_pm : ℕ → String → World → World × Reply
unfolding delegate_found
delegate_to_pm now pid w = delegate_found now (find_project pid w) w
