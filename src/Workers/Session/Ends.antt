-- ===== src/Workers/Session/Ends.antt =====
-- How a work session ends.
use auto_builder.Base.{
  String, Option, none, some, false, List, [], ◌∷◌, ◌++◌, ◌≡◌, ◌≢◌, refl, ◌⊎◌, inl, inr, ◌==◌,
  if◌then◌else◌, lookup, lookup-delete, lookup-insert, is_nil, Bool-cases, eq_iff,
}
use auto_builder.Model.Rows.{CeoQueueItem}
use auto_builder.Workers.State.{Run}
use auto_builder.Workers.Session.{
  SessionEvent, workflow_started, workflow_completed, workflow_failed, Office, Agents, finished,
  recreated, Attempt, SessionReply, completed, OneRow, no_row, one, many, find_config, with_limits,
  session_of, failure_item, fail, end_session, after_loop, conclude, after_agents, opened,
  after_setup, configured, run_work_session,
}

module _ (a : Attempt) where
  -- The project's key is set, and the session's start is the last event.
  pub record IsOpen (s : Office) : Type 0 where
    pub key : lookup a.project_id s.sessions ≡ some (session_of a)
    pub started :
        (before : List (String × SessionEvent)) × (s.lifecycle
          ≡ before ++ (session_of a, workflow_started) ∷ [])

  -- The session that is current after the agents' run.
  abbrev pub IsCurrent : String → Agents → Type 0
  IsCurrent session finished = session ≡ session_of a
  IsCurrent session (recreated fresh) = session ≡ fresh
  IsCurrent session (Agents.raised error) = ⊥

  -- The agents of an open session have run to an end that leaves the office and the session so.
  pub record HasWorked (r : Run) (session : String) (after : Office) : Type 0 where
    pub begun : Office
    pub open_office : IsOpen begun
    pub last : Agents
    pub ran : a.agents r begun ≡ (after, last)
    pub current : IsCurrent session last

  abbrev pub HasLoop : Run → Type 0
  HasLoop r = (a.project_uuid ≢ none) × (is_nil r.manifest.stages ≡ false)

  -- Everything is done: the agents' run, and the stage loop if there is one to run.
  pub data IsDone (session : String) : Office → Type 0 where
    alone : (r : Run) (s : Office) → HasWorked r session s → (HasLoop r → ⊥) → IsDone session s
    looped :
        (r : Run) (s t : Office)
        → HasWorked r session s
        → HasLoop r
        → a.loop r s ≡ (t, none)
        → IsDone session t

  -- What has raised an error, in which session, and what it has left.
  pub data Cause (o : Office) : String → String → Office → Type 0 where
    by_config : find_config a o.configs ≡ many → Cause o (session_of a) a.many_rows o
    by_setup :
        (before after : Office) (error : String)
        → a.setup before ≡ (after, some error)
        → Cause o (session_of a) error after
    by_agents :
        (r : Run) (before after : Office) (error : String)
        → IsOpen before
        → a.agents r before ≡ (after, Agents.raised error)
        → Cause o (session_of a) error after
    by_loop :
        (r : Run) (session error : String) (before after : Office)
        → HasWorked r session before
        → HasLoop r
        → a.loop r before ≡ (after, some error)
        → Cause o session error after

  -- The end adds an event, deletes the project's key, and leaves the CEO's queue so; nothing else changes.
  pub record IsLeft (before : Office) (event : String × SessionEvent) (ceo : List CeoQueueItem)
      (after : Office) : Type 0 where
    pub keys :
        (other : String)
        → lookup other after.sessions
          ≡ (if a.project_id == other then none else lookup other before.sessions)
    pub queue : after.ceo ≡ ceo
    pub events : after.lifecycle ≡ before.lifecycle ++ event ∷ []
    pub same : after.engine ≡ before.engine

  abbrev pub HasEnded : Office → Office × SessionReply → Type 0
  HasEnded o (after, reply) =
      ((s : Office) × (session : String) × IsDone session s
        × (reply ≡ completed a.project_id)
        × IsLeft s (session, workflow_completed) s.ceo after)
      ⊎ ((s : Office) × (session : String) × (error : String) × Cause o session error s
          × (reply ≡ SessionReply.raised error)
          × IsLeft s (session, workflow_failed error) (s.ceo ++ failure_item a ∷ []) after)

  fail-HasEnded :
      (o s : Office) (session error : String)
      → Cause o session error s
      → HasEnded o (fail a session error s)
  unfolding fail
  fail-HasEnded o s session error cause = inr (
    s,
    session,
    error,
    cause,
    refl,
    record {
      keys = λ other. lookup-delete a.project_id other s.sessions;
      queue = refl;
      events = refl;
      same = refl;
    },
  )

  end_session-HasEnded :
      (o s : Office) (session : String) → IsDone session s → HasEnded o (end_session a session s)
  end_session-HasEnded o s session finished_all = inl (
    s,
    session,
    finished_all,
    refl,
    record {
      keys = λ other. lookup-delete a.project_id other s.sessions;
      queue = refl;
      events = refl;
      same = refl;
    },
  )

  module _ (o : Office) (r : Run) where
    after_loop-HasEnded :
        (session : String) (s : Office) (out : Office × Option String)
        → HasWorked r session s
        → HasLoop r
        → a.loop r s ≡ out
        → HasEnded o (after_loop a session out)
    unfolding after_loop
    after_loop-HasEnded session s (t, none) worked has e =
        end_session-HasEnded o t session (looped r s t worked has e)
    after_loop-HasEnded session s (t, some error) worked has e =
        fail-HasEnded o t session error (by_loop r session error s t worked has e)

    conclude-HasEnded :
        (session : String) (s : Office)
        → HasWorked r session s
        → HasEnded o (conclude a session r s)
    unfolding conclude
    conclude-HasEnded session s worked = concluded a.project_uuid refl
      where
        concluded :
            (pid : Option String)
            → a.project_uuid ≡ pid
            → HasEnded o (elim pid [
              | none ↦ end_session a session s
              | some _ ↦
                  if is_nil r.manifest.stages
                  then end_session a session s
                  else after_loop a session (a.loop r s)
            ])
        concluded none e = end_session-HasEnded o s session (alone r s worked (λ has. has.0 e))
        concluded (some pid) e = elim (Bool-cases (is_nil r.manifest.stages)) [
          | inl empty ↦ rw empty (
              end_session-HasEnded o s session (alone r s worked (λ has. let stages = has.1 in cc)))
          | inr some_stages ↦ rw some_stages (
              after_loop-HasEnded session s (a.loop r s) worked
                ((λ absent. let there = e in cc), some_stages) refl)
        ]

    after_agents-HasEnded :
        (before : Office) (out : Office × Agents)
        → IsOpen before
        → a.agents r before ≡ out
        → HasEnded o (after_agents a r out)
    unfolding after_agents
    after_agents-HasEnded before (s, finished) opened_so e =
        conclude-HasEnded (session_of a) s (record {
          begun = before;
          open_office = opened_so;
          last = finished;
          ran = e;
          current = refl;
        })
    after_agents-HasEnded before (s, recreated session) opened_so e =
        conclude-HasEnded session s (record {
          begun = before;
          open_office = opened_so;
          last = recreated session;
          ran = e;
          current = refl;
        })
    after_agents-HasEnded before (s, Agents.raised error) opened_so e =
        fail-HasEnded o s (session_of a) error (by_agents r before s error opened_so e)

    opened-IsOpen : (s : Office) → IsOpen (opened a s)
    opened-IsOpen s = record {
      key =
          rw
            (
              lookup-insert a.project_id a.project_id (session_of a) s.sessions,
              (eq_iff a.project_id a.project_id).1 refl,
            )
            refl;
      started = (s.lifecycle, refl);
    }

    after_setup-HasEnded :
        (before : Office) (out : Office × Option String)
        → a.setup before ≡ out
        → HasEnded o (after_setup a r out)
    unfolding after_setup
    after_setup-HasEnded before (s, some error) e =
        fail-HasEnded o s (session_of a) error (by_setup before s error e)
    after_setup-HasEnded before (s, none) e =
        after_agents-HasEnded (opened a s) (a.agents r (opened a s)) (opened-IsOpen s) refl

  configured-HasEnded :
      (o : Office) (found : OneRow)
      → find_config a o.configs ≡ found
      → HasEnded o (configured a found o)
  unfolding configured
  configured-HasEnded o many e = fail-HasEnded o o (session_of a) a.many_rows (by_config e)
  configured-HasEnded o no_row e = after_setup-HasEnded o a.run _ _ refl
  configured-HasEnded o (one c) e = after_setup-HasEnded o (with_limits a c) _ _ refl

-- Whatever the setup, the agents, the stage loop and others do meanwhile, if each of the three comes to an
-- end: a work session replies that it is completed only after the agents' run of an opened session and, for
-- a project with a UUID and stages, the stage loop have ended without an error; then the CEO's queue is as
-- they have left it, and the end is told under the session that is then current. Else it raises the error
-- of the configuration, the setup, the agents or the stage loop; then one escalation of the project joins
-- the CEO's queue, and the failure is told. In both cases the project's key is deleted, also where the
-- session has not set it, and the other keys and the tables are as they were left.
pub run_work_session-HasEnded : (a : Attempt) (o : Office) → HasEnded a o (run_work_session a o)
unfolding run_work_session
run_work_session-HasEnded a o = configured-HasEnded a o (find_config a o.configs) refl
