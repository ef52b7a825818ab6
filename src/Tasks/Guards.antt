-- ===== src/Tasks/Guards.antt =====
-- What a successful transition guarantees, the completion gate, and optimistic locking.
use agenelf.Base.{
  ℕ, ◌+◌, ◌<◌, ◌≡◌, ◌≢◌, refl, sym, ◌∙◌, ap, true, Option, some, Text, arith, strip, ok,
  Option-cases, inl, inr, ℤ, all, any,
}
use agenelf.Tasks.States.{TaskState, is_success, can_transition, parse_task_state}
use agenelf.Tasks.Data.{Task, Engine}
use agenelf.Tasks.Files.{get, revision_differs, record_event}
use agenelf.Tasks.Evidence.{add_evidence}
use agenelf.Tasks.Transition.{
  transition, task_state, enter, check_completion, all_succeeded, has_trusted_evidence,
  is_verifying,
}
use agenelf.Tasks.Steps.{StepUpdate, update_step}
use agenelf.Tasks.Inversion.{transition-ok, add_evidence-ok, update_step-ok}
use agenelf.Tasks.Frame.{get-of_Found}
use agenelf.Tasks.Changes.{
  status-enter, enter-keeps, Changed, transition-Changed, add_evidence-Changed, update_step-Changed,
}
use agenelf.Tasks.Reach.{status-transition}

task_state-ok :
    (to_status : Text) {to : TaskState}
    → task_state to_status ≡ ok to
    → parse_task_state (strip to_status) ≡ some to
unfolding task_state
task_state-ok to_status h = elim (Option-cases (parse_task_state (strip to_status))) [
  | inl e ↦ ground arith
  | inr (k, e) ↦ ground arith
]

-- A successful transition moves the stored task along the table to the state that was asked for,
-- counts one revision, and what it returns is what is read back.
transition-legal :
    (now : ℕ) (id to_status reason : Text) (expected : Option ℕ) (s s' : Engine) (result : Task)
    → transition now id to_status reason expected s ≡ (ok result, s')
    → (old : Task) × ((get id s).0 ≡ ok old)
      × (can_transition old.status result.status ≡ true)
      × (parse_task_state (strip to_status) ≡ some result.status)
      × (result.revision ≡ old.revision + 1)
      × ((get id s').0 ≡ ok result)
unfolding record_event
transition-legal now id to_status reason expected s s' result h =
    let t = transition-ok now id to_status reason expected s h in
    let (old, c) = transition-Changed now id to_status reason expected s s' result h in
    let entered : result.status ≡ t.to =
      ap (λ (k : Task). k.status) t.wrote.touched ∙ status-enter t.to now _ t.task in
    (
      t.task,
      t.found,
      status-transition now id to_status reason expected s s' t.task result h t.found,
      task_state-ok to_status t.target ∙ ap some (sym entered),
      ap (λ (k : Task). k.revision) t.wrote.touched
          ∙ ap (λ (n : ℕ). n + 1) (enter-keeps t.to now _ t.task).1,
      get-of_Found id s' c.kept,
    )

check_completion-ok :
    (to : TaskState) (task : Task)
    → check_completion to task ≡ ok tt
    → to ≡ TaskState.completed
    → (task.status ≡ TaskState.verifying)
      × (all_succeeded task ≡ true)
      × (has_trusted_evidence task ≡ true)
unfolding check_completion is_verifying
check_completion-ok TaskState.completed task h e = ground arith
check_completion-ok _ task h e = ground arith

steps-enter :
    (to : TaskState) (now : ℕ) (reason : Text) (task : Task)
    → to ≡ TaskState.completed
    → (enter to now reason task).steps ≡ task.steps
unfolding enter
steps-enter TaskState.cancelled now reason task h = cc
steps-enter TaskState.running now reason task h = refl
steps-enter _ now reason task h = refl

-- A task is completed only from `verifying`, with every step succeeded or skipped and with at
-- least one piece of trusted evidence, and the completed task still has those steps and that
-- evidence.
pub transition-completed :
    (now : ℕ) (id to_status reason : Text) (expected : Option ℕ) (s s' : Engine) (result : Task)
    → transition now id to_status reason expected s ≡ (ok result, s')
    → result.status ≡ TaskState.completed
    → (old : Task) × ((get id s).0 ≡ ok old)
      × (old.status ≡ TaskState.verifying)
      × (all_succeeded result ≡ true)
      × (has_trusted_evidence result ≡ true)
unfolding record_event all_succeeded has_trusted_evidence
transition-completed now id to_status reason expected s s' result h done =
    let t = transition-ok now id to_status reason expected s h in
    let entered : result.status ≡ t.to =
      ap (λ (k : Task). k.status) t.wrote.touched ∙ status-enter t.to now _ t.task in
    let goal : t.to ≡ TaskState.completed = sym entered ∙ done in
    let (from, steps, trusted) = check_completion-ok t.to t.task t.complete goal in
    let steps_kept : result.steps ≡ t.task.steps =
      ap (λ (k : Task). k.steps) t.wrote.touched ∙ steps-enter t.to now _ t.task goal in
    let evidence_kept : result.evidence ≡ t.task.evidence =
      ap (λ (k : Task). k.evidence) t.wrote.touched ∙ (enter-keeps t.to now _ t.task).2 in
    (
      t.task,
      t.found,
      from,
      ap (all (λ s. is_success s.status)) steps_kept ∙ steps,
      ap (any (λ e. e.trusted)) evidence_kept ∙ trusted,
    )

-- One of the three calls succeeded on a task that was `old` before.
pub data Succeeded (s s' : Engine) (id : Text) (old : Task) : Type 0 where
  moved :
      (now : ℕ) (to_status reason : Text) (expected : Option ℕ) (result : Task)
      → transition now id to_status reason expected s ≡ (ok result, s')
      → Succeeded s s' id old
  stepped :
      (now : ℕ) (index : ℤ) (u : StepUpdate) (expected : Option ℕ) (result : Task)
      → update_step now id index u expected s ≡ (ok result, s')
      → Succeeded s s' id old
  added :
      (now : ℕ) (kind reference summary : Text) (index : Option ℤ) (expected : Option ℕ)
      (result : Task)
      → add_evidence now id kind reference summary index expected s ≡ (ok result, s')
      → Succeeded s s' id old

-- No call that expects the revision `r` succeeds.
pub record IsStale (s : Engine) (id : Text) (r : ℕ) : Type 0 where
  pub moves :
      (now : ℕ) (to_status reason : Text) (result : Task)
      → (transition now id to_status reason (some r) s).0 ≢ ok result
  pub steps :
      (now : ℕ) (index : ℤ) (u : StepUpdate) (result : Task)
      → (update_step now id index u (some r) s).0 ≢ ok result
  pub adds :
      (now : ℕ) (kind reference summary : Text) (index : Option ℤ) (result : Task)
      → (add_evidence now id kind reference summary index (some r) s).0 ≢ ok result

pub newer-IsStale :
    {s : Engine} {id : Text} {task : Task} {r : ℕ}
    → (get id s).0 ≡ ok task
    → r < task.revision
    → IsStale s id r
unfolding revision_differs
newer-IsStale {s} {id} {task} {r} read lt = record {
  moves = λ now to_status reason result h.
      let t =
        transition-ok now id to_status reason (some r) s
          (λ i. (h i, (transition now id to_status reason (some r) s).1)) in
      ground (arith, t.found, t.current);
  steps = λ now index u result h.
      let t =
        update_step-ok now id index u (some r) s
          (λ i. (h i, (update_step now id index u (some r) s).1)) in
      ground (arith, t.found, t.current);
  adds = λ now kind reference summary index result h.
      let t =
        add_evidence-ok now id kind reference summary index (some r) s
          (λ i. (h i, (add_evidence now id kind reference summary index (some r) s).1)) in
      ground (arith, t.found, t.current);
}

Changed-newer :
    {s s' : Engine} {id : Text} {old task result : Task}
    → (get id s).0 ≡ ok old
    → Changed s s' id task result
    → (new : Task) × ((get id s').0 ≡ ok new) × (old.revision < new.revision)
Changed-newer {s} {s'} {id} {old} {task} {result} read c =
    let same : ok old ≡ ok task = sym read ∙ get-of_Found id s c.found in
    (result, get-of_Found id s' c.kept, ground (arith, c.newer))

-- A call that has succeeded on a task leaves it with a later revision.
pub Succeeded-newer :
    (s s' : Engine) (id : Text) (old : Task)
    → (get id s).0 ≡ ok old
    → Succeeded s s' id old
    → (new : Task) × ((get id s').0 ≡ ok new) × (old.revision < new.revision)
Succeeded-newer s s' id old read (moved now to_status reason expected result h) =
    let (task, c) = transition-Changed now id to_status reason expected s s' result h in
    Changed-newer read c
Succeeded-newer s s' id old read (stepped now index u expected result h) =
    let (task, c, live) = update_step-Changed now id index u expected s s' result h in
    Changed-newer read c
Succeeded-newer s s' id old read (added now kind reference summary index expected result h) =
    let (task, c, status, revision) =
      add_evidence-Changed now id kind reference summary index expected s s' result h in
    Changed-newer read c
