-- ===== src/Model/Status.antt =====
-- Status words of models/enums.py, and the tests that the code makes on them.
use auto_builder.Base.{ℕ, Bool, true, false, nat_eq}

pub data DeliverableStatus : Type 0 where
  pending in_progress completed failed blocked planned skipped : DeliverableStatus

pub data ProjectStatus : Type 0 where
  shaping active paused suspended completed aborted : ProjectStatus

pub DeliverableStatus-discrete : Discrete DeliverableStatus
DeliverableStatus-discrete = hlevel

pub ProjectStatus-discrete : Discrete ProjectStatus
ProjectStatus-discrete = hlevel

abbrev deliverable_tag : DeliverableStatus → ℕ
deliverable_tag pending = 0
deliverable_tag in_progress = 1
deliverable_tag completed = 2
deliverable_tag failed = 3
deliverable_tag blocked = 4
deliverable_tag planned = 5
deliverable_tag skipped = 6

abbrev project_tag : ProjectStatus → ℕ
project_tag shaping = 0
project_tag active = 1
project_tag paused = 2
project_tag suspended = 3
project_tag completed = 4
project_tag aborted = 5

-- `a == b` between two members.
abbrev pub same_deliverable_status : DeliverableStatus → DeliverableStatus → Bool
same_deliverable_status a b = nat_eq (deliverable_tag a) (deliverable_tag b)

abbrev pub same_project_status : ProjectStatus → ProjectStatus → Bool
same_project_status a b = nat_eq (project_tag a) (project_tag b)

-- `{ProjectStatus.COMPLETED, ProjectStatus.ABORTED}`
abbrev pub is_terminal_project : ProjectStatus → Bool
is_terminal_project completed = true
is_terminal_project aborted = true
is_terminal_project _ = false

-- `{COMPLETED, SKIPPED}`, which count as satisfied dependencies.
abbrev pub is_satisfied : DeliverableStatus → Bool
is_satisfied completed = true
is_satisfied skipped = true
is_satisfied _ = false

-- `{COMPLETED, FAILED, SKIPPED}`
abbrev pub is_terminal_deliverable : DeliverableStatus → Bool
is_terminal_deliverable completed = true
is_terminal_deliverable failed = true
is_terminal_deliverable skipped = true
is_terminal_deliverable _ = false

-- `{PLANNED, PENDING}`
abbrev pub is_waiting : DeliverableStatus → Bool
is_waiting planned = true
is_waiting pending = true
is_waiting _ = false
