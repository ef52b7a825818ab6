-- ===== src/Tasks/Next.antt =====
-- `TaskEngine.next_action` and `TaskEngine.summary` of app/core/task_engine.py.
use agenelf.Base.{
  ℕ, suc, ◌+◌, Bool, true, false, ◌&&◌, Option, none, some, Text, List, [], ◌∷◌, length,
  if◌then◌else◌, ok, Exec, ◌>>=◌,
}
use agenelf.Tasks.States.{TaskState, StepState, Priority, is_terminal, is_success}
use agenelf.Tasks.Data.{Task, Step, Evidence, TaskError, Engine}
use agenelf.Tasks.Files.{get}
use agenelf.Tasks.Transition.{all_succeeded, has_trusted_evidence}
use agenelf.Tasks.Steps.{dependencies_satisfied}

pub data Action : Type 0 where
  stop : Action
  wait_for_approval review_failure execute_step : ℕ → Action
  complete collect_validation_evidence wait : Action

-- The `for` loop that returns at the first step with a property, from `index` on.
unfoldable pub first_step : (Step → Bool) → ℕ → List Step → Option ℕ
first_step p index [] = none
first_step p index (s ∷ ss) =
    let rest = first_step p (suc index) ss in if p s then some index else rest

unfoldable pub is_waiting : Step → Bool
is_waiting s = elim s.status [ StepState.waiting_approval ↦ true | _ ↦ false ]

unfoldable pub is_failed : Step → Bool
is_failed s = elim s.status [ StepState.failed ↦ true | _ ↦ false ]

unfoldable pub is_pending : Step → Bool
is_pending s = elim s.status [ StepState.pending ↦ true | _ ↦ false ]

unfoldable pub is_ready : List Step → Step → Bool
unfolding is_pending dependencies_satisfied
is_ready steps s = is_pending s && dependencies_satisfied steps s

-- After the three loops.
unfoldable pub closing_action : Task → Action
unfolding all_succeeded has_trusted_evidence
closing_action task =
    if all_succeeded task
    then (if has_trusted_evidence task then complete else collect_validation_evidence)
    else wait

unfoldable pub action_of : Task → Action
action_of task =
    if is_terminal task.status then stop else elim (first_step is_waiting 0 task.steps) [
      | some i ↦ wait_for_approval i
      | none ↦ elim (first_step is_failed 0 task.steps) [
        | some i ↦ review_failure i
        | none ↦ elim (first_step (is_ready task.steps) 0 task.steps) [
          | some i ↦ execute_step i
          | none ↦ closing_action task
        ]
      ]
    ]

unfoldable pub next_action : Text → Exec Engine TaskError Action
next_action task_id = do task ← get task_id; λ s. (ok (action_of task), s)

unfoldable pub count_if {ℓ} : {A : Type ℓ} → (A → Bool) → List A → ℕ
count_if p [] = 0
count_if p (x ∷ xs) = (if p x then 1 else 0) + count_if p xs

-- `progress` is the pair that the source formats as `succeeded/total`.
pub record Summary : Type 0 where
  pub id : Text
  pub title : Text
  pub priority : Priority
  pub status : TaskState
  pub revision : ℕ
  pub progress : ℕ × ℕ
  pub trusted_evidence : ℕ
  pub updated_at : ℕ
  pub source_channel : Text

unfoldable pub summary : Task → Summary
unfolding count_if is_success
summary task = record {
  id = task.id;
  title = task.title;
  priority = task.priority;
  status = task.status;
  revision = task.revision;
  progress = (count_if (λ (s : Step). is_success s.status) task.steps, length task.steps);
  trusted_evidence = count_if (λ (e : Evidence). e.trusted) task.evidence;
  updated_at = task.updated_at;
  source_channel = task.source_channel;
}
