-- ===== src/Tasks/Steps.antt =====
-- `TaskEngine.update_step` of app/core/task_engine.py. The source changes its copy of the task
-- first; with an evidence reference it then goes on with the task that `add_evidence` has read
-- again from the file.
use agenelf.Base.{
  ℕ, Bool, true, false, not, ◌||◌, Option, none, some, Text, List, [], ◌++◌, codes, all,
  if◌then◌else◌, strip, is_empty, after_prefix, length, get_elem?, set, ℤ, pos, index_below, Result,
  ok, err, Exec, lift, reject, ◌>>=◌, ◌>>◌,
}
use agenelf.Storage.{collapsed_text}
use agenelf.Tasks.States.{
  TaskState, StepState, Risk, read, is_terminal, is_success, can_step, parse_step_state,
}
use agenelf.Tasks.Data.{
  Task, Step, step_transition, TaskError, revision_conflict, terminal_task, step_index_out_of_range,
  illegal_step_transition, dependencies_unfinished, read_step_needs_no_approval,
  approval_id_malformed, evidence_reference_missing, AuditLine, Engine,
}
use agenelf.Tasks.Files.{get, write, note_audit, revision_differs, record_event}
use agenelf.Tasks.Evidence.{add_evidence, is_id_char, some_chars}
use agenelf.Tasks.Transition.{first_time, all_succeeded}

-- The texts of one call.
pub record StepUpdate : Type 0 where
  pub to_status : Text
  pub note : Text
  pub evidence_reference : Text
  pub evidence_kind : Text
  pub approval_request_id : Text

-- `0 <= index < len(steps) and steps[index].status in STEP_TERMINAL_SUCCESS`.
unfoldable pub is_done : List Step → ℕ → Bool
unfolding is_success
is_done steps i = elim (get_elem? steps i) [ none ↦ false | some s ↦ is_success s.status ]

-- `_dependencies_satisfied`.
unfoldable pub dependencies_satisfied : List Step → Step → Bool
unfolding is_done
dependencies_satisfied steps step = all (is_done steps) step.depends_on

unfoldable pub step_at : List Step → ℤ → Result TaskError (ℕ × Step)
step_at steps index = elim (index_below (length steps) index) [
  | none ↦ err step_index_out_of_range
  | some i ↦ elim (get_elem? steps i) [ none ↦ err step_index_out_of_range | some s ↦ ok (i, s) ]
]

-- `to_status in {"running", "succeeded"}`.
unfoldable pub needs_dependencies : StepState → Bool
needs_dependencies StepState.running = true
needs_dependencies StepState.succeeded = true
needs_dependencies _ = false

-- `STEP_TERMINAL_SUCCESS | {"failed", "cancelled"}`.
unfoldable pub is_finished : StepState → Bool
is_finished StepState.succeeded = true
is_finished StepState.skipped = true
is_finished StepState.failed = true
is_finished StepState.cancelled = true
is_finished _ = false

unfoldable pub is_read : Risk → Bool
is_read read = true
is_read _ = false

unfoldable pub is_approval_id : Text → Bool
is_approval_id id =
    after_prefix (codes "op-") (some_chars is_id_char) id
    || after_prefix (codes "auth-") (some_chars is_id_char) id

unfoldable pub step_target : StepState → Text → Result TaskError StepState
unfolding can_step
step_target current to_status = elim (parse_step_state (strip to_status)) [
  | none ↦ err (illegal_step_transition current)
  | some to ↦ if can_step current to then ok to else err (illegal_step_transition current)
]

-- The checks between the transition table and the first assignment, and the one on evidence.
unfoldable pub check_update :
    List Step → Step → StepState → StepUpdate → Result TaskError (Unit {0})
unfolding dependencies_satisfied is_read is_approval_id
check_update steps step StepState.running u =
    if dependencies_satisfied steps step then ok tt else err dependencies_unfinished
check_update steps step StepState.succeeded u =
    if not (dependencies_satisfied steps step)
    then err dependencies_unfinished
    else if is_empty u.evidence_reference
    then err evidence_reference_missing
    else ok tt
check_update steps step StepState.waiting_approval u =
    if is_read step.risk
    then err read_step_needs_no_approval
    else if is_approval_id u.approval_request_id
    then ok tt
    else err approval_id_malformed
check_update steps step _ u = ok tt

unfoldable pub finish_time : StepState → ℕ → Option ℕ → Option ℕ
unfolding is_finished
finish_time to now before = if is_finished to then some now else before

-- The step as the first assignments leave it.
unfoldable pub move_step : ℕ → StepState → StepUpdate → Step → Step
unfolding finish_time first_time
move_step now to u step = record step {
  status = to;
  note = collapsed_text u.note 1000;
  approval_request_id = elim to [
    | StepState.waiting_approval ↦ some u.approval_request_id
    | _ ↦ step.approval_request_id
  ];
  started_at = elim to [ StepState.running ↦ first_time step.started_at now | _ ↦ step.started_at ];
  finished_at = finish_time to now step.finished_at;
}

-- The task's status after the first assignments.
unfoldable pub moved_status : StepState → Step → TaskState → TaskState
moved_status StepState.waiting_approval step status = TaskState.waiting_approval
moved_status StepState.running step status = elim step.started_at [
  | none ↦ TaskState.running
  | some t ↦ status
]
moved_status _ step status = status

unfoldable pub move_task : ℕ → StepState → StepUpdate → ℕ → Step → Task → Task
unfolding move_step moved_status
move_task now to u i step task = record task {
  steps = set task.steps i (move_step now to u step);
  status = moved_status to step task.status;
}

-- What is assigned again to the step of the task that `add_evidence` returned.
unfoldable pub restore_step : ℕ → StepState → StepUpdate → ℕ → Option Step → Task → Task
unfolding finish_time
restore_step now to u i none task = task
restore_step now to u i (some step) task = record task {
  steps = set task.steps i (record step {
    status = to;
    note = collapsed_text u.note 1000;
    finished_at = finish_time to now step.finished_at;
  });
}

-- `if evidence_reference`: the task to go on with.
unfoldable pub with_evidence :
    ℕ → Text → StepState → StepUpdate → ℕ → Step → Task → Exec Engine TaskError Task
with_evidence now task_id to u i step task =
    if is_empty u.evidence_reference then (λ s. (ok (move_task now to u i step task), s)) else do
      reread ←
          add_evidence now task_id u.evidence_kind u.evidence_reference u.note (some (pos i))
            (some task.revision)
      λ s. (ok (restore_step now to u i (get_elem? reread.steps i) reread), s)

-- `step["note"] or f"步骤 {step['id']} 失败"`.
unfoldable pub failure_text : StepUpdate → Step → Text
failure_text u step =
    let note = collapsed_text u.note 1000 in
    if is_empty note then codes "步骤 " ++ (step.id ++ codes " 失败") else note

-- The status of the task in the end.
unfoldable pub settle : StepState → StepUpdate → Step → Task → Task
unfolding all_succeeded failure_text
settle StepState.failed u step task = record task {
  status = TaskState.failed;
  failure_reason = failure_text u step;
}
settle to u step task =
    if all_succeeded task then record task { status = TaskState.verifying } else elim to [
      | StepState.waiting_approval ↦ task
      | _ ↦ record task { status = TaskState.running }
    ]

unfoldable pub update_step :
    (now : ℕ) (task_id : Text) → ℤ → StepUpdate → Option ℕ → Exec Engine TaskError Task
update_step now task_id step_index u expected_revision = do
  task ← get task_id
  reject (revision_differs expected_revision task) revision_conflict
  reject (is_terminal task.status) terminal_task
  (i, step) ← lift (step_at task.steps step_index)
  to ← lift (step_target step.status u.to_status)
  lift (check_update task.steps step to u)
  moved ← with_evidence now task_id to u i step task
  written ←
      write now (record_event now (step_transition i step.status to) [] (settle to u step moved))
  note_audit (AuditLine.step task_id i step.status to)
  λ s. (ok written, s)
