-- ===== src/Lifecycle/Override/Silence.antt =====
-- An override changes a status behind the back of the event stream, the flags and the job queue.
use auto_builder.Base.{
  String, Option, some, Bool, true, false, List, [], ◌∷◌, ◌++◌, ◌≡◌, refl, sym, ◌∙◌, if◌then◌else◌,
  length, ◌+◌, arith, eq_iff, Bool-cases, inl, inr,
}
use auto_builder.Model.{
  ProjectStatus, active, paused, same_project_status, World, Event, find_project, update_rows,
}
use auto_builder.Model.Rows.{Project, DirectorQueueItem}
use auto_builder.Lifecycle.Single.{with_status}
use auto_builder.Lifecycle.Audit.{status_in, replay, IsAudited}
use auto_builder.Lifecycle.Audit.Rows.{find_project-status, status_in-update_rows}
use auto_builder.Lifecycle.Override.{
  PmOverrideAction, pause, resume, reorder, correct, OverrideReply, ok, invalid_state, Override,
  override_as, override_pm,
}

-- The status that an override leads to; REORDER and CORRECT only take note.
abbrev pub status_after : PmOverrideAction → ProjectStatus → ProjectStatus
status_after pause s = if same_project_status s active then paused else s
status_after resume s = if same_project_status s paused then active else s
status_after _ s = s

-- The action does not fit the status.
abbrev pub is_unfit : PmOverrideAction → ProjectStatus → Bool
is_unfit pause s = if same_project_status s active then false else true
is_unfit resume s = if same_project_status s paused then false else true
is_unfit _ s = false

-- What an override of a project with status `s` does to the world.
pub record IsSilent (pid : String) (o : Override) (s : ProjectStatus) (w w' : World)
    (r : OverrideReply) : Type 0 where
  pub same_events : w'.events ≡ w.events
  pub same_jobs : w'.jobs ≡ w.jobs
  pub same_flags : w'.pause_flags ≡ w.pause_flags
  pub moved : status_in pid w'.projects ≡ some (status_after o.action s)
  pub replied : r ≡ (if is_unfit o.action s then invalid_state s else ok o.item_id)
  pub audited :
      length w'.director_queue
      ≡ (if is_unfit o.action s then length w.director_queue else length w.director_queue + 1)

length-append_one :
    (items : List DirectorQueueItem) (i : DirectorQueueItem)
    → length (items ++ i ∷ []) ≡ length items + 1
length-append_one [] i = refl
length-append_one (x ∷ items) i = ground (arith, length-append_one items i)

module _ (dumps : PmOverrideAction → String → String) (pid : String) (o : Override) (w : World)
    (p : Project) (here : find_project pid w ≡ some p) where
  row_moved :
      (to : ProjectStatus) → status_in pid (update_rows p.id (with_status to) w.projects) ≡ some to
  row_moved to =
      rw (status_in-update_rows (with_status to) (λ _. refl) to (λ _. refl) p.id pid w.projects)
        (ground (arith, eq_iff p.id pid, find_project-status pid w here))

  override_as-IsSilent :
      (action : PmOverrideAction)
      → o.action ≡ action
      → let out = override_as dumps action o p w in IsSilent pid o p.status w out.0 out.1
  override_as-IsSilent pause e = elim (Bool-cases (same_project_status p.status active)) [
    | inl fits ↦ rw fits (record {
      same_events = refl;
      same_jobs = refl;
      same_flags = refl;
      moved = rw (e, fits) (row_moved paused);
      replied = rw (e, fits) refl;
      audited = rw (e, fits) (length-append_one w.director_queue _);
    })
    | inr unfit ↦ rw unfit (record {
      same_events = refl;
      same_jobs = refl;
      same_flags = refl;
      moved = rw (e, unfit) (find_project-status pid w here).1;
      replied = rw (e, unfit) refl;
      audited = rw (e, unfit) refl;
    })
  ]
  override_as-IsSilent resume e = elim (Bool-cases (same_project_status p.status paused)) [
    | inl fits ↦ rw fits (record {
      same_events = refl;
      same_jobs = refl;
      same_flags = refl;
      moved = rw (e, fits) (row_moved active);
      replied = rw (e, fits) refl;
      audited = rw (e, fits) (length-append_one w.director_queue _);
    })
    | inr unfit ↦ rw unfit (record {
      same_events = refl;
      same_jobs = refl;
      same_flags = refl;
      moved = rw (e, unfit) (find_project-status pid w here).1;
      replied = rw (e, unfit) refl;
      audited = rw (e, unfit) refl;
    })
  ]
  override_as-IsSilent reorder e = record {
    same_events = refl;
    same_jobs = refl;
    same_flags = refl;
    moved = rw e (find_project-status pid w here).1;
    replied = rw e refl;
    audited = rw e (length-append_one w.director_queue _);
  }
  override_as-IsSilent correct e = record {
    same_events = refl;
    same_jobs = refl;
    same_flags = refl;
    moved = rw e (find_project-status pid w here).1;
    replied = rw e refl;
    audited = rw e (length-append_one w.director_queue _);
  }

-- An override of a project that is there moves it from ACTIVE to PAUSED or back where the action
-- asks for that, and adds one item to the Director's queue, unless the status does not fit the
-- action; the event stream, the pause flags and the job queue stay as they were.
override_pm-IsSilent :
    (parse_uuid : String → Option String) (dumps : PmOverrideAction → String → String)
    (o : Override) (pid : String) (w : World) (p : Project)
    → parse_uuid o.project_id ≡ some pid
    → find_project pid w ≡ some p
    → let out = override_pm parse_uuid dumps o w in IsSilent pid o p.status w out.0 out.1
unfolding override_pm
override_pm-IsSilent parse_uuid dumps o pid w p parsed here =
    rw (parsed, here) (override_as-IsSilent dumps pid o w p here o.action refl)

nothing_new : (es fs : List Event) → es ≡ es ++ fs → fs ≡ []
nothing_new [] fs h = sym h
nothing_new (e ∷ es) fs h = nothing_new es fs cc

-- Pausing an active project by an override breaks the audit: no events that the stream has gained
-- account for the project's new status.
override_pm_unaudited :
    (parse_uuid : String → Option String) (dumps : PmOverrideAction → String → String)
    (o : Override) (pid : String) (w : World) (p : Project)
    → parse_uuid o.project_id ≡ some pid
    → find_project pid w ≡ some p
    → o.action ≡ pause
    → p.status ≡ active
    → ¬ IsAudited w (override_pm parse_uuid dumps o w).0
unfolding replay
override_pm_unaudited parse_uuid dumps o pid w p parsed here action status audit =
    let silent = override_pm-IsSilent parse_uuid dumps o pid w p parsed here in
    let none_new = nothing_new w.events audit.published (sym silent.same_events ∙ audit.extends) in
    let told = rw none_new at (audit.explains pid) in
    let before = rw status at (find_project-status pid w here).1 in cc (told, before)
