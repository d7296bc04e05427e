-- ===== src/Lib.antt =====
-- AutoBuilder: the projects' lifecycle, the deliverables' dependency graph and failure handling,
-- the workflow engine's stages, validators and gates, the worker's loops over them, the escalation
-- queues, the skill index, the task tools, and an agent session's state: who may write it, and what
-- survives a fresh session.
--
-- A project holds deliverables, which depend on each other. A worker runs a project's stages; in a
-- stage it selects ready deliverables batch by batch, and a gate decides whether the stage is done.
-- People and the Director pause, resume and abort projects, and resolve what agents escalate.
--
-- The files and the code that they model:
--   Base: names that all files share, lists, and dictionaries as association lists.
--   Model: app/models/enums.py, the rows of app/db/models.py, and the world that operations act
--     on. A row is found by its primary key, an operation returns the next world, and a publisher,
--     the job queue and Redis are lists and a dictionary in it.
--   Lifecycle: app/workers/lifecycle.py (Single, Bulk, Director), suspend_project of
--     app/agents/supervision.py, delegate_to_pm and override_pm (Override) of
--     app/tools/management.py. Audit reads the event stream back against the status diagram; Stalls
--     is a Director's pause and resume.
--   Deliverables: Ready and Update are tools of app/tools/management.py; Failure is the failure
--     handling of app/agents/supervision.py and the end of the batch loop of app/workers/tasks.py;
--     Graph is _detect_cycle and manage_dependencies.
--   Workflows: Manifest is app/workflows/manifest.py, Stages app/workflows/stages.py, Validators,
--     Dependencies, Gates and a part of Reports app/workflows/validators.py, the rest
--     app/workflows/completion.py; Registry is app/workflows/registry.py.
--   Workers: _execute_batch_loop (Batch) and _execute_stage_loop (Stages) of app/workers/tasks.py,
--     on the tables of State. They use Deliverables for a ready batch, a failure's count and the
--     skipped rows, Workflows for validators and gates, and Lifecycle for a suspension. What others
--     do meanwhile (agents and their tools, the gateway, other jobs) is a function of the tables,
--     `outside`, that is applied before a stage, before a round and before each deliverable of a
--     batch, while its agents work, and before a task group's gate. Batch.Scheduler is an
--     abstract scheduler and Batch.Schedule compares the batch loop with it. Session is run_work_session, which takes
--     the setup, the agents' run and the stage loop as functions of all that it reads and writes; Cron is process_director_queue, and Edits create_edit_taskgroup and its batch.
--   Queues: app/gateway/routes/ceo_queue.py and director_queue.py, and the two escalation tools.
--   Access: determine_agent_tier and validate_state_delta of app/events/publisher.py.
--   Sessions: a session's state as a dictionary (State), callbacks of app/agents/supervision.py on it
--     (Supervision, Persist), its checkpoint_taskgroup (Checkpoint), and
--     app/agents/context_recreation.py (Recreation), which uses what the checkpoint has stored.
--   Agents: _topological_sort of app/agents/custom/dependency_resolver.py (Resolver), and the loop of
--     app/agents/custom/review_cycle.py (Review).
--   Skills: app/skills/library.py (the matching in Skills itself, Scanning and Cascades) with
--     app/skills/matchers.py, and the validation of app/skills/parser.py (Frontmatter).
--   Tools: app/tools/task.py, the todo list of a session (Todos) and the shared tasks (Tasks).
--   Samples: concrete runs.
--
-- Errors are constructors of a reply type. The loops that work off a queue run on fuel: a
-- breadth-first search over rows gets one unit for each row and each start, since an id enters the
-- frontier once, and the cycle search two units more than there are dependencies; that this is
-- enough is part of what is proved of them. Kahn's algorithm in dependency_validation gets one unit
-- for each node, since a node enters its queue once; no result rests on that. The sort of the
-- dependency resolver gets one for each name, for the same reason, and the cascades of skills one for
-- each pending name and for each cascade of an indexed skill. The batch loop gets fuel for its
-- rounds: one for each attempt that is left, which is a first attempt and the retries of a waiting
-- deliverable and the retries of any other, and one more. Numbers are unbounded, as they are in
-- Python; a time is a number that the caller passes, and the numbers of a session's state are natural
-- numbers.
--
-- Parameters stand for code outside the repository: `uuid.UUID`, `json.dumps`, `str.lower`,
-- `str.split`, `str.join`, `str.strip`, `fnmatch`, the slice that cuts a title, the listing of
-- files and their times, the parser of YAML, and pydantic's parsing of a stage and of a manifest.
-- The Redis flags and keys do not expire in the model. A database transaction is one step; its
-- failures, log lines, and the texts of messages are left out. Not modelled are agents, prompts
-- and models, a Director's turn and the job of a single workflow, the import of a workflow's
-- Python module, the checkpoints, reports and artifacts that the stage loop stores, the gateway's
-- other routes, and the tools that touch files, git, processes or the network.
pub mod Base
pub mod Model
pub mod Lifecycle
pub mod Deliverables
pub mod Workflows
pub mod Queues
pub mod Access
pub mod Workers
pub mod Sessions
pub mod Agents
pub mod Skills
pub mod Tools
pub mod Samples
