-- ===== src/Lifecycle/Director.antt =====
-- pause_director and resume_director of workers/lifecycle.py. Pausing only sets flags; the rows
-- stay as they are.
use auto_builder.Base.{
  String, Option, none, some, Bool, false, List, [], ◌∷◌, ◌++◌, select, ◌==◌, ◌&&◌, if◌then◌else◌,
  or_default, Dict, lookup, delete,
}
use auto_builder.Model.{active, World, director_paused, director_resumed, publish}
use auto_builder.Model.Rows.{Project}
use auto_builder.Lifecycle.Bulk.{
  ids_of, restatus, status_events, set_flags, clear_flags, work_sessions, is_active, is_paused,
}

unfoldable pub pause_director : Option String → World → World × List String
pause_director reason w =
    let flagged = ids_of (select is_active w.projects) in
    (
      publish (director_paused reason flagged) (record w {
        director_flag = some (or_default reason "user_initiated");
        pause_flags = set_flags flagged "director_pause" w.pause_flags;
      }),
      flagged,
    )

-- `flag == b"director_pause"`
abbrev pub is_director_flag : Option String → Bool
is_director_flag none = false
is_director_flag (some v) = v == "director_pause"

unfoldable pub is_cascaded : Dict String → Project → Bool
is_cascaded flags p = is_paused p && is_director_flag (lookup p.id flags)

-- Drops the flag of every listed project that the Director's cascade has set.
unfoldable pub drop_stale : List String → Dict String → Dict String
drop_stale [] flags = flags
drop_stale (i ∷ is) flags =
    drop_stale is (if is_director_flag (lookup i flags) then delete i flags else flags)

unfoldable pub resume_director : World → World × List String
resume_director w =
    let sel = is_cascaded w.pause_flags in
    let resumed = ids_of (select sel w.projects) in
    let rows = restatus sel active w.projects in
    (
      publish (director_resumed resumed) (record w {
        projects = rows;
        director_flag = none;
        pause_flags =
            drop_stale (ids_of (select is_active rows)) (clear_flags resumed w.pause_flags);
        jobs = w.jobs ++ work_sessions resumed;
        events = w.events ++ status_events sel active "director" "system" w.projects;
      }),
      resumed,
    )
