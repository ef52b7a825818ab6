-- ===== src/Tasks/Transition.antt =====
-- `TaskEngine.transition` of app/core/task_engine.py.
use agenelf.Base.{
  ℕ, Bool, true, false, not, ◌&&◌, Option, none, some, Text, map, all, any, if◌then◌else◌, strip,
  is_empty, Result, ok, err, Exec, lift, reject, ◌>>=◌, ◌>>◌,
}
use agenelf.Storage.{collapsed_text}
use agenelf.Tasks.States.{TaskState, StepState, is_success, can_transition, parse_task_state}
use agenelf.Tasks.Data.{
  Task, Step, task_entered, TaskError, task_state_unknown, revision_conflict, illegal_transition,
  reason_missing, not_verifying, steps_incomplete, no_trusted_evidence, AuditLine, Engine,
}
use agenelf.Tasks.Files.{get, write, note_audit, revision_differs, record_event}

unfoldable pub task_state : Text → Result TaskError TaskState
task_state to_status = elim (parse_task_state (strip to_status)) [
  | none ↦ err task_state_unknown
  | some state ↦ ok state
]

-- `to_status in {"failed", "cancelled"}`.
unfoldable pub needs_reason : TaskState → Bool
needs_reason TaskState.failed = true
needs_reason TaskState.cancelled = true
needs_reason _ = false

unfoldable pub is_verifying : TaskState → Bool
is_verifying TaskState.verifying = true
is_verifying _ = false

unfoldable pub all_succeeded : Task → Bool
unfolding is_success
all_succeeded task = all (λ s. is_success s.status) task.steps

unfoldable pub has_trusted_evidence : Task → Bool
has_trusted_evidence task = any (λ e. e.trusted) task.evidence

-- The checks under `if to_status == "completed"`.
unfoldable pub check_completion : TaskState → Task → Result TaskError (Unit {0})
unfolding is_verifying all_succeeded has_trusted_evidence
check_completion TaskState.completed task =
    if not (is_verifying task.status)
    then err not_verifying
    else if not (all_succeeded task)
    then err steps_incomplete
    else if not (has_trusted_evidence task)
    then err no_trusted_evidence
    else ok tt
check_completion _ task = ok tt

-- A step of a cancelled task: what is neither done nor failed is cancelled too.
unfoldable pub cancel_step : ℕ → Step → Step
cancel_step now step = elim step.status [
  | StepState.succeeded ↦ step
  | StepState.skipped ↦ step
  | StepState.failed ↦ step
  | StepState.cancelled ↦ step
  | _ ↦ record step { status = StepState.cancelled; finished_at = some now }
]

unfoldable pub first_time : Option ℕ → ℕ → Option ℕ
first_time none now = some now
first_time (some before) now = some before

-- The assignments that depend on the state that is entered.
unfoldable pub enter : TaskState → ℕ → Text → Task → Task
unfolding cancel_step first_time
enter TaskState.running now reason task = record task {
  status = TaskState.running;
  started_at = first_time task.started_at now;
}
enter TaskState.completed now reason task = record task {
  status = TaskState.completed;
  finished_at = some now;
}
enter TaskState.failed now reason task = record task {
  status = TaskState.failed;
  failure_reason = reason;
}
enter TaskState.cancelled now reason task = record task {
  status = TaskState.cancelled;
  finished_at = some now;
  cancel_reason = reason;
  steps = map (cancel_step now) task.steps;
}
enter state now reason task = record task { status = state }

unfoldable pub transition :
    (now : ℕ) (task_id to_status reason : Text) → Option ℕ → Exec Engine TaskError Task
transition now task_id to_status reason expected_revision = do
  to ← lift (task_state to_status)
  task ← get task_id
  reject (revision_differs expected_revision task) revision_conflict
  reject (not (can_transition task.status to)) (illegal_transition task.status to)
  let safe_reason = collapsed_text reason 1500
  reject (needs_reason to && is_empty safe_reason) reason_missing
  lift (check_completion to task)
  written ←
      write now (record_event now (task_entered to) safe_reason (enter to now safe_reason task))
  note_audit (AuditLine.transition task_id task.status to safe_reason)
  λ s. (ok written, s)
