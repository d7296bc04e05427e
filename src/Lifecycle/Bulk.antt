-- ===== src/Lifecycle/Bulk.antt =====
-- The system-wide operations of workers/lifecycle.py, and the loops that they share with the
-- Director's.
use auto_builder.Base.{
  String, Option, none, Bool, List, [], ◌∷◌, ◌++◌, map, select, if◌then◌else◌, or_default, Dict,
  insert, delete,
}
use auto_builder.Model.{
  ProjectStatus, active, paused, same_project_status, World, Event, system_pause, system_resume,
  Job, publish,
}
use auto_builder.Model.Rows.{Project}
use auto_builder.Lifecycle.Single.{with_status, status_event}

abbrev pub ids_of : List Project → List String
ids_of = map (λ (p : Project). p.id)

-- `for project in projects: project.status = …`, at the rows that the query selects.
unfoldable pub restatus : (Project → Bool) → ProjectStatus → List Project → List Project
restatus sel s [] = []
restatus sel s (p ∷ ps) = (if sel p then with_status s p else p) ∷ restatus sel s ps

-- `for pid in ids: publish_project_status_changed(…)`, for the selected rows.
unfoldable pub status_events :
    (Project → Bool) → ProjectStatus → String → String → List Project → List Event
status_events sel s actor scope [] = []
status_events sel s actor scope (p ∷ ps) =
    let rest = status_events sel s actor scope ps in
    if sel p then status_event p s actor scope ∷ rest else rest

-- `for pid in ids: redis.set(f"project:pause_requested:{pid}", value)`
unfoldable pub set_flags : List String → String → Dict String → Dict String
set_flags [] value flags = flags
set_flags (i ∷ is) value flags = set_flags is value (insert i value flags)

-- `for pid in ids: redis.delete(f"project:pause_requested:{pid}")`
unfoldable pub clear_flags : List String → Dict String → Dict String
clear_flags [] flags = flags
clear_flags (i ∷ is) flags = clear_flags is (delete i flags)

abbrev pub work_sessions : List String → List Job
work_sessions = map (λ i. record { project_id = i; resume_resolution = none })

abbrev pub is_active : Project → Bool
is_active p = same_project_status p.status active

abbrev pub is_paused : Project → Bool
is_paused p = same_project_status p.status paused

unfoldable pub pause_all_projects : Option String → World → World × List String
pause_all_projects reason w =
    let paused_ids = ids_of (select is_active w.projects) in
    (
      publish (system_pause reason paused_ids) (record w {
        projects = restatus is_active paused w.projects;
        pause_flags = set_flags paused_ids (or_default reason "system_pause") w.pause_flags;
        events = w.events ++ status_events is_active paused "system" "system" w.projects;
      }),
      paused_ids,
    )

unfoldable pub resume_all_projects : World → World × List String
resume_all_projects w =
    let resumed_ids = ids_of (select is_paused w.projects) in
    (
      publish (system_resume resumed_ids) (record w {
        projects = restatus is_paused active w.projects;
        pause_flags = clear_flags resumed_ids w.pause_flags;
        jobs = w.jobs ++ work_sessions resumed_ids;
        events = w.events ++ status_events is_paused active "system" "system" w.projects;
      }),
      resumed_ids,
    )
