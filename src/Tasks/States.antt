-- ===== src/Tasks/States.antt =====
-- The states of tasks and steps, their transition tables, risks, priorities and kinds of evidence
-- (the constants at the top of app/core/task_engine.py).
use agenelf.Base.{Bool, true, false, Option, none, some, Text, codes, text_eq, if◌then◌else◌}

pub data TaskState : Type 0 where
  proposed planned running waiting_approval paused verifying completed failed cancelled : TaskState

pub data StepState : Type 0 where
  pending running waiting_approval succeeded failed skipped cancelled : StepState

pub data Risk : Type 0 where
  read change privileged irreversible : Risk

pub data Priority : Type 0 where
  p0 p1 p2 p3 : Priority

pub data EvidenceKind : Type 0 where
  operation validation test artifact approval log promotion note : EvidenceKind

-- `TASK_STATES`, by the names under which the states are written.
unfoldable pub parse_task_state : Text → Option TaskState
parse_task_state s =
    if text_eq s (codes "proposed")
    then some TaskState.proposed
    else if text_eq s (codes "planned")
    then some TaskState.planned
    else if text_eq s (codes "running")
    then some TaskState.running
    else if text_eq s (codes "waiting_approval")
    then some TaskState.waiting_approval
    else if text_eq s (codes "paused")
    then some TaskState.paused
    else if text_eq s (codes "verifying")
    then some TaskState.verifying
    else if text_eq s (codes "completed")
    then some TaskState.completed
    else if text_eq s (codes "failed")
    then some TaskState.failed
    else if text_eq s (codes "cancelled")
    then some TaskState.cancelled
    else none

-- `STEP_STATES`.
unfoldable pub parse_step_state : Text → Option StepState
parse_step_state s =
    if text_eq s (codes "pending")
    then some StepState.pending
    else if text_eq s (codes "running")
    then some StepState.running
    else if text_eq s (codes "waiting_approval")
    then some StepState.waiting_approval
    else if text_eq s (codes "succeeded")
    then some StepState.succeeded
    else if text_eq s (codes "failed")
    then some StepState.failed
    else if text_eq s (codes "skipped")
    then some StepState.skipped
    else if text_eq s (codes "cancelled")
    then some StepState.cancelled
    else none

-- `RISK_LEVELS`.
unfoldable pub parse_risk : Text → Option Risk
parse_risk s =
    if text_eq s (codes "read")
    then some read
    else if text_eq s (codes "change")
    then some change
    else if text_eq s (codes "privileged")
    then some privileged
    else if text_eq s (codes "irreversible")
    then some irreversible
    else none

-- `PRIORITIES`.
unfoldable pub parse_priority : Text → Option Priority
parse_priority s =
    if text_eq s (codes "P0")
    then some p0
    else if text_eq s (codes "P1")
    then some p1
    else if text_eq s (codes "P2")
    then some p2
    else if text_eq s (codes "P3")
    then some p3
    else none

-- `EVIDENCE_KINDS`.
unfoldable pub parse_evidence_kind : Text → Option EvidenceKind
parse_evidence_kind s =
    if text_eq s (codes "operation")
    then some operation
    else if text_eq s (codes "validation")
    then some validation
    else if text_eq s (codes "test")
    then some test
    else if text_eq s (codes "artifact")
    then some artifact
    else if text_eq s (codes "approval")
    then some approval
    else if text_eq s (codes "log")
    then some log
    else if text_eq s (codes "promotion")
    then some promotion
    else if text_eq s (codes "note")
    then some note
    else none

-- `TERMINAL_TASK_STATES`.
unfoldable pub is_terminal : TaskState → Bool
is_terminal TaskState.completed = true
is_terminal TaskState.cancelled = true
is_terminal _ = false

-- `STEP_TERMINAL_SUCCESS`.
unfoldable pub is_success : StepState → Bool
is_success StepState.succeeded = true
is_success StepState.skipped = true
is_success _ = false

-- `TASK_TRANSITIONS`.
unfoldable pub can_transition : TaskState → TaskState → Bool
can_transition TaskState.proposed TaskState.planned = true
can_transition TaskState.proposed TaskState.cancelled = true
can_transition TaskState.planned TaskState.running = true
can_transition TaskState.planned TaskState.paused = true
can_transition TaskState.planned TaskState.cancelled = true
can_transition TaskState.running TaskState.waiting_approval = true
can_transition TaskState.running TaskState.paused = true
can_transition TaskState.running TaskState.verifying = true
can_transition TaskState.running TaskState.failed = true
can_transition TaskState.running TaskState.cancelled = true
can_transition TaskState.waiting_approval TaskState.running = true
can_transition TaskState.waiting_approval TaskState.paused = true
can_transition TaskState.waiting_approval TaskState.failed = true
can_transition TaskState.waiting_approval TaskState.cancelled = true
can_transition TaskState.paused TaskState.running = true
can_transition TaskState.paused TaskState.cancelled = true
can_transition TaskState.verifying TaskState.completed = true
can_transition TaskState.verifying TaskState.running = true
can_transition TaskState.verifying TaskState.failed = true
can_transition TaskState.verifying TaskState.cancelled = true
can_transition TaskState.failed TaskState.planned = true
can_transition TaskState.failed TaskState.cancelled = true
can_transition _ _ = false

-- `STEP_TRANSITIONS`.
unfoldable pub can_step : StepState → StepState → Bool
can_step StepState.pending StepState.running = true
can_step StepState.pending StepState.waiting_approval = true
can_step StepState.pending StepState.skipped = true
can_step StepState.pending StepState.cancelled = true
can_step StepState.running StepState.waiting_approval = true
can_step StepState.running StepState.succeeded = true
can_step StepState.running StepState.failed = true
can_step StepState.running StepState.cancelled = true
can_step StepState.waiting_approval StepState.running = true
can_step StepState.waiting_approval StepState.succeeded = true
can_step StepState.waiting_approval StepState.failed = true
can_step StepState.waiting_approval StepState.cancelled = true
can_step StepState.failed StepState.pending = true
can_step StepState.failed StepState.running = true
can_step StepState.failed StepState.cancelled = true
can_step _ _ = false
