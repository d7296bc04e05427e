-- ===== src/Samples/Projects.antt =====
-- Sample runs of the lifecycle operations.
use auto_builder.Base.{
  String, Option, none, some, true, List, [], ◌∷◌, ◌≡◌, refl, lookup, elem, select,
}
use auto_builder.Model.{World, ProjectStatus, active, paused, aborted}
use auto_builder.Model.Rows.{Project}
use auto_builder.Lifecycle.Bulk.{ids_of, is_active}
use auto_builder.Lifecycle.Director.{is_cascaded, pause_director, resume_director}
use auto_builder.Lifecycle.Audit.{IsAudited}
use auto_builder.Lifecycle.Audit.Runs.{
  Operation, pause, abort, resume, director_pause, director_resume, run_all, run_all-IsAudited,
}
use auto_builder.Lifecycle.Override.{PmOverrideAction, Override}
use auto_builder.Lifecycle.Stalls.{resume_director-pause_director}

abbrev project : String → ProjectStatus → Project
project id status = record {
  id = id;
  workflow_type = "auto-code";
  status = status;
  accumulated_cost = 0;
  started_at = none;
  completed_at = none;
  error_message = none;
  updated_at = 0;
}

abbrev three : World
three = record {
  projects = project "a" active ∷ project "b" paused ∷ project "c" aborted ∷ [];
  deliverables = [];
  director_flag = none;
  pause_flags = [];
  jobs = [];
  events = [];
  director_queue = [];
}

abbrev ops : List Operation
ops =
    pause "a" none
    ∷ resume "c" none
    ∷ abort 5 "b" "no longer needed"
    ∷ director_pause none
    ∷ director_resume
    ∷ []

run_all-IsAudited_example : IsAudited three (run_all ops three)
unfolding elem
run_all-IsAudited_example = run_all-IsAudited ops three (refl, (refl, (refl, tt)))

resume_director-pause_director_example :
    ((resume_director (pause_director none three).0).0.projects ≡ three.projects)
    × ((resume_director (pause_director none three).0).0.jobs ≡ three.jobs)
    × ((resume_director (pause_director none three).0).1 ≡ [])
    × ((pid : String)
        → elem pid (ids_of (select is_active three.projects)) ≡ true
        → lookup pid (resume_director (pause_director none three).0).0.pause_flags ≡ none)
unfolding elem lookup is_cascaded
resume_director-pause_director_example =
    resume_director-pause_director none three (refl, (refl, (refl, tt))) (refl, (refl, (refl, tt)))

abbrev stop_a : Override
stop_a = record {
  now = 3;
  item_id = "d9";
  project_id = "a";
  action = PmOverrideAction.pause;
  reason = "off course";
}

abbrev as_given : String → Option String
as_given s = some s

abbrev no_text : PmOverrideAction → String → String
no_text action project_id = "{}"
