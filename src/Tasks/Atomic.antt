-- ===== src/Tasks/Atomic.antt =====
-- Operations of the task engine that raise, and the files (app/core/task_engine.py).
use agenelf.Base.{pos, ℕ, ◌≡◌, Option, some, Text, arith, ℤ, err, Exec}
use agenelf.Tasks.Create.{NewTask, create}
use agenelf.Tasks.States.{StepState}
use agenelf.Tasks.Data.{Step, Definition, Task, TaskError, Engine}
use agenelf.Tasks.Files.{get, write, note_audit}
use agenelf.Tasks.Evidence.{add_evidence}
use agenelf.Tasks.Transition.{transition}
use agenelf.Tasks.Steps.{StepUpdate, with_evidence}

-- An action that raises leaves the state as it was.
abbrev pub IsAtomic : {A : Type 0} → Exec Engine TaskError A → Type 0
IsAtomic m = (s : Engine) (e : TaskError) → (m s).0 ≡ err e → (m s).1 ≡ s

pub get-state : (task_id : Text) (s : Engine) → (get task_id s).1 ≡ s
unfolding get
get-state task_id s = ground arith

pub write-IsAtomic : (now : ℕ) (task : Task) → IsAtomic (write now task)
unfolding write
write-IsAtomic now task s e h = ground arith

-- A transition that raises leaves the files and the audit log as they were.
pub transition-IsAtomic :
    (now : ℕ) (task_id to_status reason : Text) (expected : Option ℕ)
    → IsAtomic (transition now task_id to_status reason expected)
unfolding transition note_audit
transition-IsAtomic now task_id to_status reason expected s e h =
    grind (arith, get-state, write-IsAtomic)

-- Evidence that is refused leaves the files and the audit log as they were.
pub add_evidence-IsAtomic :
    (now : ℕ) (task_id kind reference summary : Text) (index : Option ℤ) (expected : Option ℕ)
    → IsAtomic (add_evidence now task_id kind reference summary index expected)
unfolding add_evidence note_audit
add_evidence-IsAtomic now task_id kind reference summary index expected s e h =
    grind (arith, get-state, write-IsAtomic)

module _ (digest : Definition → Text) where
  -- A task that is refused leaves the files and the audit log as they were.
  pub create-IsAtomic :
      (now : ℕ) (hex : Text) (new : NewTask) → IsAtomic (create digest now hex new)
  unfolding create note_audit
  create-IsAtomic now hex new s e h = grind (arith, write-IsAtomic)

pub with_evidence-IsAtomic :
    (now : ℕ) (task_id : Text) (to : StepState) (u : StepUpdate) (i : ℕ) (step : Step) (task : Task)
    → IsAtomic (with_evidence now task_id to u i step task)
unfolding with_evidence
with_evidence-IsAtomic now task_id to u i step task s e h = ground (
  arith,
  add_evidence-IsAtomic now task_id u.evidence_kind u.evidence_reference u.note (some (pos i))
      (some task.revision) s e,
)
