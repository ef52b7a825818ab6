-- ===== src/Tasks/Data.antt =====
-- A task file, its steps and its evidence, the engine's directory of such files, and the errors
-- (`TaskEngineError`, one constructor for each message) of app/core/task_engine.py.
use agenelf.Base.{ℕ, Bool, Option, Text, List}
use agenelf.Tasks.States.{TaskState, StepState, Risk, Priority, EvidenceKind}

pub record Step : Type 0 where
  pub id : Text
  pub title : Text
  pub capability : Text
  pub operation : Text
  pub target : Text
  pub parameters_ref : Text
  pub risk : Risk
  pub depends_on : List ℕ
  pub status : StepState
  pub approval_request_id : Option Text
  pub started_at : Option ℕ
  pub finished_at : Option ℕ
  pub note : Text
  pub evidence_refs : List Text

pub record Evidence : Type 0 where
  pub kind : EvidenceKind
  pub reference : Text
  pub summary : Text
  pub trusted : Bool
  pub step_index : Option ℕ
  pub at : ℕ

-- The name of an event with what the source formats into its name or its detail.
pub data EventKind : Type 0 where
  created : EventKind
  evidence_added : EvidenceKind → Text → EventKind
  task_entered : TaskState → EventKind
  step_transition : ℕ → StepState → StepState → EventKind

pub record Event : Type 0 where
  pub at : ℕ
  pub event : EventKind
  pub detail : Text

pub record Task : Type 0 where
  pub schema_version : ℕ
  pub id : Text
  pub title : Text
  pub owner_goal : Text
  pub priority : Priority
  pub source_channel : Text
  pub status : TaskState
  pub revision : ℕ
  pub steps : List Step
  pub acceptance_criteria : List Text
  pub evidence_plan : List Text
  pub rollback_plan : Text
  pub evidence : List Evidence
  pub created_at : ℕ
  pub updated_at : ℕ
  pub started_at : Option ℕ
  pub finished_at : Option ℕ
  pub cancel_reason : Text
  pub failure_reason : Text
  pub events : List Event
  pub definition_hash : Text

-- The fields that `definition_hash` covers.
pub record Definition : Type 0 where
  pub owner_goal : Text
  pub steps : List Step
  pub acceptance_criteria : List Text
  pub evidence_plan : List Text
  pub rollback_plan : Text

pub data TaskError : Type 0 where
  illegal_task_id unreadable_file missing_task malformed_file : TaskError
  revision_conflict : TaskError
  no_steps too_many_steps : TaskError
  step_not_object step_without_title step_risk_unknown step_dependency_not_integer : ℕ → TaskError
  step_dependency_not_earlier : ℕ → TaskError
  title_or_goal_empty no_acceptance_criteria no_evidence_plan priority_unknown : TaskError
  rollback_plan_missing : TaskError
  evidence_kind_unknown reference_malformed step_index_out_of_range : TaskError
  task_state_unknown reason_missing not_verifying steps_incomplete : TaskError
  no_trusted_evidence terminal_task dependencies_unfinished read_step_needs_no_approval : TaskError
  approval_id_malformed evidence_reference_missing : TaskError
  illegal_transition : TaskState → TaskState → TaskError
  illegal_step_transition : StepState → TaskError

-- The content of a file under data/tasks: what does not parse, a parsed value that is no task, or
-- a task.
pub data File : Type 0 where
  unreadable malformed : File
  stored : Task → File

-- One line of logs/task-engine.log.
pub data AuditLine : Type 0 where
  create : Text → Priority → ℕ → AuditLine
  evidence : Text → EvidenceKind → Text → AuditLine
  transition : Text → TaskState → TaskState → Text → AuditLine
  step : Text → ℕ → StepState → StepState → AuditLine

-- The files by their names without `.json`, and the audit log.
pub record Engine : Type 0 where
  pub files : List (Text × File)
  pub audit : List AuditLine
