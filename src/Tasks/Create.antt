-- ===== src/Tasks/Create.antt =====
-- `TaskEngine.create` of app/core/task_engine.py. The new identifier and the hash of the
-- definition are arguments: they come from `uuid` and `hashlib`.
use agenelf.Base.{
  ℕ, ◌-◌, Bool, not, ◌&&◌, ◌||◌, none, some, Text, List, [], ◌∷◌, ◌++◌, codes, map, any, leb,
  length, if◌then◌else◌, is_empty, Result, ok, err, Exec, lift, reject, ◌>>=◌, ◌>>◌,
}
use agenelf.Storage.{collapsed_text, safe_string_list}
use agenelf.Tasks.States.{TaskState, Priority, parse_priority}
use agenelf.Tasks.Data.{
  Task, Step, Definition, created, TaskError, title_or_goal_empty, no_acceptance_criteria,
  no_evidence_plan, priority_unknown, rollback_plan_missing, AuditLine, Engine,
}
use agenelf.Tasks.Normalize.{RawStep, normalize_steps}
use agenelf.Tasks.Files.{write, note_audit}
use agenelf.Tasks.Steps.{is_read}

pub record NewTask : Type 0 where
  pub title : Text
  pub owner_goal : Text
  pub steps : List RawStep
  pub acceptance_criteria : List Text
  pub evidence_plan : List Text
  pub priority : Text
  pub source_channel : Text
  pub rollback_plan : Text

-- `str.upper` as far as a comparison with the names of priorities can see.
abbrev upper_char : ℕ → ℕ
upper_char c = if leb b'a' c && leb c b'z' then c - 32 else c

-- `x or default`.
abbrev or_default : Text → Text → Text
or_default s default = if is_empty s then default else s

unfoldable pub priority_of : Text → Result TaskError Priority
priority_of priority = elim (parse_priority (map upper_char (or_default priority (codes "P2")))) [
  | none ↦ err priority_unknown
  | some p ↦ ok p
]

-- `any(step["risk"] != "read" ...)`.
unfoldable pub has_change : List Step → Bool
unfolding is_read
has_change steps = any (λ s. not (is_read s.risk)) steps

module _ (digest : Definition → Text) where
  unfoldable pub build_task : ℕ → Text → NewTask → Priority → List Step → Task
  build_task now hex new priority steps =
      let owner_goal = collapsed_text new.owner_goal 2000 in
      let acceptance = safe_string_list new.acceptance_criteria 20 1000 in
      let evidence = safe_string_list new.evidence_plan 20 1000 in
      let rollback = collapsed_text new.rollback_plan 2000 in
      record {
        schema_version = 2;
        id = codes "task-" ++ hex;
        title = collapsed_text new.title 300;
        owner_goal = owner_goal;
        priority = priority;
        source_channel = or_default (collapsed_text new.source_channel 50) (codes "chat");
        status = TaskState.planned;
        revision = 1;
        steps = steps;
        acceptance_criteria = acceptance;
        evidence_plan = evidence;
        rollback_plan = rollback;
        evidence = [];
        created_at = now;
        updated_at = now;
        started_at = none;
        finished_at = none;
        cancel_reason = [];
        failure_reason = [];
        events = record { at = now; event = created; detail = codes "任务已建立并进入 planned" } ∷ [];
        definition_hash = digest (record {
          owner_goal = owner_goal;
          steps = steps;
          acceptance_criteria = acceptance;
          evidence_plan = evidence;
          rollback_plan = rollback;
        });
      }

  unfoldable pub create : ℕ → Text → NewTask → Exec Engine TaskError Task
  create now hex new = do
    reject
        (is_empty (collapsed_text new.title 300) || is_empty (collapsed_text new.owner_goal 2000))
        title_or_goal_empty
    reject (is_empty (safe_string_list new.acceptance_criteria 20 1000)) no_acceptance_criteria
    reject (is_empty (safe_string_list new.evidence_plan 20 1000)) no_evidence_plan
    priority ← lift (priority_of new.priority)
    steps ← lift (normalize_steps new.steps)
    reject (has_change steps && is_empty (collapsed_text new.rollback_plan 2000))
        rollback_plan_missing
    written ← write now (build_task now hex new priority steps)
    note_audit (AuditLine.create written.id priority (length steps))
    λ s. (ok written, s)
