-- ===== src/Tasks/Tests.antt =====
-- A small plan as the program runs it, and the theorems at that plan.
use agenelf.Base.{
  ℕ, ◌≡◌, ◌≢◌, refl, true, none, some, Text, List, [], ◌∷◌, codes, arith, Result, ok, err, pos,
  get_elem?, length, ◌≤◌, ◌<◌,
}
use agenelf.Storage.{collapsed_text, safe_string_list}
use agenelf.Tasks.States
use agenelf.Tasks.States.{TaskState, StepState, Risk, read, change, p2, operation}
use agenelf.Tasks.Data.{Task, Step, Evidence, Definition, TaskError, Engine, stored}
use agenelf.Tasks.Normalize.{RawStep, only_title, object, absent, listed, integer, normalize_steps}
use agenelf.Tasks.Normalize.Order.{IsPlan, normalize_steps-IsPlan}
use agenelf.Tasks.Files.{get, write, note_audit, is_task_id, revision_differs, record_event}
use agenelf.Tasks.Evidence.{
  add_evidence, evidence_kind, is_reference, trusted_evidence, attach_reference, append_evidence,
  evidence_index,
}
use agenelf.Tasks.Transition.{
  transition, task_state, needs_reason, check_completion, enter, all_succeeded,
  has_trusted_evidence,
}
use agenelf.Tasks.Steps.{
  StepUpdate, update_step, step_at, step_target, check_update, with_evidence, move_task,
  restore_step, settle, needs_dependencies,
}
use agenelf.Tasks.Next.{
  action_of, closing_action, wait, execute_step, first_step, is_waiting, is_failed, is_ready,
}
use agenelf.Tasks.Create.{NewTask, create, priority_of, has_change, build_task}
use agenelf.Tasks.Dependencies.{IsSound, IsPlan-IsSound}
use agenelf.Tasks.Reach.{AllSound, here, next, creating, moving, Reach-IsSound, Ended, Reach-Ended}
use agenelf.Tasks.Guards.{transition-completed}
use agenelf.Tasks.Progress.{action_of-ne-wait}
use agenelf.Tasks.Approval.{Waits, update_step-forgets_request}

program : Unit {0}
unfolding agenelf.Tasks.Normalize.dependencies collapsed_text safe_string_list
    States.parse_task_state States.parse_step_state States.parse_risk States.parse_priority
    States.parse_evidence_kind States.is_terminal States.is_success States.can_transition
    States.can_step normalize_steps get write note_audit is_task_id revision_differs record_event
    add_evidence evidence_kind is_reference trusted_evidence attach_reference append_evidence
    evidence_index transition task_state needs_reason check_completion enter update_step step_at
    step_target check_update with_evidence move_task restore_step settle needs_dependencies
    action_of closing_action first_step is_waiting is_failed is_ready create priority_of has_change
    build_task
program = tt

abbrev id : Text
id = codes "task-0123456789abcdef"

abbrev look : Step
look = record {
  id = codes "step-01";
  title = codes "look";
  capability = [];
  operation = [];
  target = [];
  parameters_ref = [];
  risk = read;
  depends_on = [];
  status = StepState.pending;
  approval_request_id = none;
  started_at = none;
  finished_at = none;
  note = [];
  evidence_refs = [];
}

abbrev deploy : Step
deploy = record look {
  id = codes "step-02";
  title = codes "deploy";
  risk = change;
  depends_on = 0 ∷ [];
}

abbrev sample : Task
sample = record {
  schema_version = 2;
  id = id;
  title = codes "release";
  owner_goal = codes "ship it";
  priority = p2;
  source_channel = codes "chat";
  status = TaskState.planned;
  revision = 1;
  steps = look ∷ deploy ∷ [];
  acceptance_criteria = codes "it runs" ∷ [];
  evidence_plan = codes "log" ∷ [];
  rollback_plan = codes "undo";
  evidence = [];
  created_at = 1;
  updated_at = 1;
  started_at = none;
  finished_at = none;
  cancel_reason = [];
  failure_reason = [];
  events = [];
  definition_hash = [];
}

abbrev one : Task → Engine
one task = record { files = (id, stored task) ∷ []; audit = [] }

abbrev from_ok : Result TaskError Task → Task
from_ok (ok task) = task
from_ok (err e) = sample

abbrev start : Result TaskError Task × Engine
start = transition 5 id (codes " running ") [] none (one sample)

abbrev digest : Definition → Text
digest d = d.owner_goal

abbrev done : Step
done = record look { status = StepState.succeeded }

abbrev proof_of : Evidence
proof_of = record {
  kind = operation;
  reference = codes "op-0123456789abcdef";
  summary = [];
  trusted = true;
  step_index = some 0;
  at = 3;
}

abbrev verified : Task
verified = record sample {
  status = TaskState.verifying;
  steps = done ∷ record deploy { status = StepState.skipped } ∷ [];
  evidence = proof_of ∷ [];
}

abbrev completion : Result TaskError Task × Engine
completion = transition 9 id (codes "completed") [] (some 1) (one verified)

transition-completed_example :
    (old : Task) × ((get id (one verified)).0 ≡ ok old)
    × (old.status ≡ TaskState.verifying)
    × (all_succeeded (from_ok completion.0) ≡ true)
    × (has_trusted_evidence (from_ok completion.0) ≡ true)
unfolding program
transition-completed_example =
    transition-completed 9 id (codes "completed") [] (some 1) (one verified) completion.1
      (from_ok completion.0) refl refl

-- A second client moves the task on, and a third asks for a move that is refused.
abbrev moved_on : Result TaskError Task × Engine
moved_on = transition 6 id (codes "verifying") [] none start.1

abbrev plan : List RawStep
plan =
    only_title (codes " look  around ")
    ∷ object (record {
      title = codes "deploy";
      capability = [];
      operation = [];
      target = [];
      parameters_ref = [];
      risk = codes "Change";
      depends_on = listed (integer (pos 0) ∷ integer (pos 0) ∷ []);
    })
    ∷ []

abbrev from_plan : Result TaskError (List Step) → List Step
from_plan (ok steps) = steps
from_plan (err e) = []

normalize_steps-IsPlan_example :
    IsPlan 0 (from_plan (normalize_steps plan))
    × (length (from_plan (normalize_steps plan)) ≡ length plan)
    × (0 < length (from_plan (normalize_steps plan)))
    × (length (from_plan (normalize_steps plan)) ≤ 50)
unfolding program
normalize_steps-IsPlan_example = normalize_steps-IsPlan plan (from_plan (normalize_steps plan)) refl

abbrev order : NewTask
order = record {
  title = codes "release";
  owner_goal = codes "ship it";
  steps = plan;
  acceptance_criteria = codes "it runs" ∷ [];
  evidence_plan = codes "the log" ∷ [];
  priority = [];
  source_channel = [];
  rollback_plan = codes "undo";
}

abbrev empty : Engine
empty = record { files = []; audit = [] }

abbrev creation : Result TaskError Task × Engine
creation = create digest 3 (codes "0123456789abcdef") order empty

empty-AllSound : AllSound empty
unfolding program
empty-AllSound id' task h = ground arith

Reach-IsSound_example : IsSound (from_ok creation.0).steps
unfolding program
Reach-IsSound_example =
    Reach-IsSound digest empty creation.1 empty-AllSound
      (next here (creating 3 (codes "0123456789abcdef") order (ok (from_ok creation.0)) refl refl))
      id (from_ok creation.0) refl

Reach-Ended_example :
    Ended id TaskState.completed (transition 11 id (codes "running") [] none completion.1).1
unfolding program
Reach-Ended_example =
    Reach-Ended digest completion.1 (transition 11 id (codes "running") [] none completion.1).1 id
      TaskState.completed refl (record { task = from_ok completion.0; read = refl; status = refl })
      (next here (
        moving 11 id (codes "running") [] none
          (transition 11 id (codes "running") [] none completion.1).0 refl))

sample-IsSound : IsSound sample.steps
sample-IsSound = IsPlan-IsSound sample.steps (tt, refl, ((omega arith, tt), refl, tt))

action_of-ne-wait_example : action_of sample ≢ wait
unfolding program
action_of-ne-wait_example = action_of-ne-wait sample sample-IsSound refl refl

action_of-sample : action_of sample ≡ execute_step 0
unfolding program
action_of-sample = refl

abbrev asking : StepUpdate
asking = record {
  to_status = codes "waiting_approval";
  note = codes "may I?";
  evidence_reference = [];
  evidence_kind = codes "note";
  approval_request_id = codes "auth-0123456789ab";
}

abbrev asking_with_evidence : StepUpdate
asking_with_evidence = record asking { evidence_reference = codes "plan.md" }

abbrev asked : StepUpdate → Result TaskError Task × Engine
asked u = update_step 7 id (pos 1) u none (one sample)

update_step-forgets_request_example :
    (task : Task) × (i : ℕ) × (step : Step) × ((get id (one sample)).0 ≡ ok task)
    × (get_elem? task.steps i ≡ some step)
    × Waits (from_ok (asked asking_with_evidence).0) i step.approval_request_id task.status
unfolding program
update_step-forgets_request_example =
    update_step-forgets_request 7 id (pos 1) asking_with_evidence none (one sample)
      (asked asking_with_evidence).1 (from_ok (asked asking_with_evidence).0) refl refl refl
