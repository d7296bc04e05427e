-- ===== src/Lifecycle/Audit/Runs.antt =====
-- Any sequence of lifecycle operations: its events account for every status, and no operation
-- brings a finished project back.
use auto_builder.Base.{
  ℕ, String, Option, some, true, List, [], ◌∷◌, ◌++◌, ◌≡◌, refl, ◌∙◌, arith, inl, inr, ◌⊎◌,
}
use mathlib.Core.List.{append_assoc}
use auto_builder.Model.{ProjectStatus, World, Event, is_terminal_project}
use auto_builder.Lifecycle.Single.{
  pause_project, resume_project, abort_project, suspend_project, apply_resolution_to_project,
}
use auto_builder.Lifecycle.Bulk.{pause_all_projects, resume_all_projects}
use auto_builder.Lifecycle.Director.{pause_director, resume_director}
use auto_builder.Lifecycle.Audit.{broken, at, status_in, replay, follow, IsAudited, IsKeyed}
use auto_builder.Lifecycle.Audit.Rows.{IsKeyed-ids_of}
use auto_builder.Lifecycle.Audit.Singles.{
  IsAudited-same, pause_project-IsAudited, resume_project-IsAudited, abort_project-IsAudited,
  suspend_project-IsAudited, apply_resolution_to_project-IsAudited,
}
use auto_builder.Lifecycle.Audit.Bulks.{
  replay-append, pause_all_projects-IsAudited, resume_all_projects-IsAudited,
  resume_director-IsAudited, pause_director-IsAudited,
}

-- The jobs that change a project's status and publish events. `suspend` is given a publisher.
pub data Operation : Type 0 where
  pause : (pid : String) (reason : Option String) → Operation
  resume : (pid : String) (resolution : Option String) → Operation
  abort : (now : ℕ) (pid reason : String) → Operation
  suspend : (now : ℕ) (pid reason : String) → Operation
  resolve : (pid resolution : String) → Operation
  pause_all : (reason : Option String) → Operation
  resume_all : Operation
  director_pause : (reason : Option String) → Operation
  director_resume : Operation

unfoldable pub run : Operation → World → World
run (pause pid reason) w = (pause_project pid reason w).0
run (resume pid resolution) w = (resume_project pid resolution w).0
run (abort now pid reason) w = (abort_project now pid reason w).0
run (suspend now pid reason) w = suspend_project now pid reason true w
run (resolve pid resolution) w = (apply_resolution_to_project pid resolution w).0
run (pause_all reason) w = (pause_all_projects reason w).0
run resume_all w = (resume_all_projects w).0
run (director_pause reason) w = (pause_director reason w).0
run director_resume w = (resume_director w).0

run-IsAudited : (op : Operation) (w : World) → IsKeyed w.projects → IsAudited w (run op w)
unfolding run
run-IsAudited (pause pid reason) w k = pause_project-IsAudited pid w reason
run-IsAudited (resume pid resolution) w k = resume_project-IsAudited pid w resolution
run-IsAudited (abort now pid reason) w k = abort_project-IsAudited pid w now reason
run-IsAudited (suspend now pid reason) w k = suspend_project-IsAudited pid w now reason
run-IsAudited (resolve pid resolution) w k = apply_resolution_to_project-IsAudited pid w resolution
run-IsAudited (pause_all reason) w k = pause_all_projects-IsAudited w k reason
run-IsAudited resume_all w k = resume_all_projects-IsAudited w k
run-IsAudited (director_pause reason) w k = pause_director-IsAudited reason w
run-IsAudited director_resume w k = resume_director-IsAudited w k

unfoldable pub run_all : List Operation → World → World
run_all [] w = w
run_all (op ∷ ops) w = run_all ops (run op w)

IsAudited-trans : (u v w : World) → IsAudited u v → IsAudited v w → IsAudited u w
IsAudited-trans u v w a b = record {
  published = a.published ++ b.published;
  extends = rw (b.extends, a.extends) (append_assoc u.events a.published b.published);
  same_ids = b.same_ids ∙ a.same_ids;
  explains = λ pid. rw (replay-append, a.explains pid) (b.explains pid);
}

-- Whatever of these operations run, in whatever order: the events that they publish lead each project along
-- the status diagram from its status before to its status after. The ids are a primary key.
pub run_all-IsAudited :
    (ops : List Operation) (w : World) → IsKeyed w.projects → IsAudited w (run_all ops w)
unfolding run_all
run_all-IsAudited [] w k = IsAudited-same w w refl refl
run_all-IsAudited (op ∷ ops) w k =
    let one = run-IsAudited op w k in
    IsAudited-trans w (run op w) _ one
      (run_all-IsAudited ops (run op w) (IsKeyed-ids_of _ _ one.same_ids k))

replay-broken : (pid : String) (es : List Event) → replay pid es broken ≡ broken
unfolding replay
replay-broken pid [] = refl
replay-broken pid (e ∷ es) = replay-broken pid es

follow_final :
    (pid : String) (e : Event) (s : ProjectStatus)
    → is_terminal_project s ≡ true
    → (follow pid e (at (some s)) ≡ at (some s)) ⊎ (follow pid e (at (some s)) ≡ broken)
follow_final pid e s h = ground arith

replay_final :
    (pid : String) (es : List Event) (s : ProjectStatus) (o : Option ProjectStatus)
    → is_terminal_project s ≡ true
    → replay pid es (at (some s)) ≡ at o
    → o ≡ some s
unfolding replay
replay_final pid [] s o h e = cc
replay_final pid (x ∷ es) s o h e = elim (follow_final pid x s h) [
  | inl stays ↦ replay_final pid es s o h (rw stays at e)
  | inr breaks ↦ cc (replay-broken pid es, breaks)
]

-- A project that is COMPLETED or ABORTED keeps that status, whatever of these operations run.
run_all_final :
    (ops : List Operation) (w : World) (pid : String) (s : ProjectStatus)
    → IsKeyed w.projects
    → is_terminal_project s ≡ true
    → status_in pid w.projects ≡ some s
    → status_in pid (run_all ops w).projects ≡ some s
run_all_final ops w pid s k h e =
    let a = run_all-IsAudited ops w k in
    replay_final pid a.published s _ h (rw e at (a.explains pid))
