-- ===== src/Tasks/Approval.antt =====
-- How `update_step` links a step that waits for approval to its request, with and without evidence
-- in the same call.
use agenelf.Base.{
  ℕ, ◌≡◌, refl, sym, ◌∙◌, ap, true, false, Option, none, some, Text, arith, strip, ok, inl, inr,
  Bool-cases, ℤ, pos, is_empty, get_elem?, get_elem?-lt, get_elem?-set_self, set, all, all-get,
}
use agenelf.Tasks.States.{TaskState, StepState, is_success, parse_step_state}
use agenelf.Tasks.Data.{Task, Step, Engine}
use agenelf.Tasks.Files.{get, record_event}
use agenelf.Tasks.Transition.{all_succeeded}
use agenelf.Tasks.Steps.{
  StepUpdate, update_step, settle, restore_step, move_task, move_step, moved_status,
}
use agenelf.Tasks.Inversion.{update_step-ok, UpdatedStep}
use agenelf.Tasks.Frame.{get-of_Found}
use agenelf.Tasks.Changes.{
  Moved, in_place, after_evidence, with_evidence-Moved, settle-keeps, add_evidence-Changed,
}
use agenelf.Tasks.Preserve.{step_at-ok, step_target-ok, with_reference}
use agenelf.Tasks.StepUpdates.{StepsMoved, moved, moved_with_evidence, steps-update_step, restored}

-- The step at `i`, which was `before`, waits for approval under the request `request`, and the
-- task has the status `status`.
pub record Waits (task : Task) (i : ℕ) (request : Option Text) (status : TaskState) : Type 0 where
  pub step : Step
  pub at : get_elem? task.steps i ≡ some step
  pub waiting : step.status ≡ StepState.waiting_approval
  pub linked : step.approval_request_id ≡ request
  pub state : task.status ≡ status

clash : true ≡ false → ⊥
clash e = cc

not_success : (st : Step) → st.status ≡ StepState.waiting_approval → is_success st.status ≡ true → ⊥
unfolding is_success
not_success st w h = ground arith

status-restore_step :
    (now : ℕ) (to : StepState) (u : StepUpdate) (i : ℕ) (o : Option Step) (t : Task)
    → (restore_step now to u i o t).status ≡ t.status
unfolding restore_step
status-restore_step now to u i none t = refl
status-restore_step now to u i (some step) t = refl

settle-waiting :
    (u : StepUpdate) (step : Step) (t : Task) (i : ℕ) {st : Step}
    → get_elem? t.steps i ≡ some st
    → st.status ≡ StepState.waiting_approval
    → settle StepState.waiting_approval u step t ≡ t
unfolding settle all_succeeded
settle-waiting u step t i {st = st} at waiting =
    elim (Bool-cases (all (λ s. is_success s.status) t.steps)) [
      | inl every ↦
          absurd (not_success st waiting (all-get (λ s. is_success s.status) t.steps i every at))
      | inr some' ↦ rw some'
    ]

module _ (now : ℕ) (task_id : Text) (index : ℤ) (u : StepUpdate) (expected : Option ℕ)
    (s s' : Engine) (result : Task)
    (h : update_step now task_id index u expected s ≡ (ok result, s'))
    (waits : parse_step_state (strip u.to_status) ≡ some StepState.waiting_approval) where
  abbrev call : UpdatedStep s now task_id index u expected result s'
  call = update_step-ok now task_id index u expected s h

  to_waiting : call.to ≡ StepState.waiting_approval
  to_waiting = ground (arith, (step_target-ok call.step.status u.to_status call.target).1, waits)

  -- Without evidence the step is linked to the request that was handed in, and the task waits too.
  update_step-links :
      is_empty u.evidence_reference ≡ true
      → (i : ℕ) × Waits result i (some u.approval_request_id) TaskState.waiting_approval
  unfolding move_task move_step moved_status record_event
  update_step-links plain = (
    call.i,
    through (with_evidence-Moved now task_id call.to u call.i call.step call.task s call.moves),
  )
    where
      at : get_elem? call.task.steps call.i ≡ some call.step
      at = (step_at-ok call.task.steps index call.at).0

      through :
          Moved now task_id call.to u call.i call.step call.task s call.moved call.between
          → Waits result call.i (some u.approval_request_id) TaskState.waiting_approval
      through (in_place _ e same) =
          let next = move_task now StepState.waiting_approval u call.i call.step call.task in
          let is_next : call.moved ≡ next = rw to_waiting at e in
          let here : get_elem? next.steps call.i
              ≡ some (move_step now StepState.waiting_approval u call.step) =
            get_elem?-set_self call.task.steps call.i _ (get_elem?-lt call.task.steps call.i at) in
          let settled : settle call.to u call.step call.moved ≡ next =
            ap (λ t. settle t u call.step call.moved) to_waiting
            ∙ ap (settle StepState.waiting_approval u call.step) is_next
            ∙ settle-waiting u call.step next call.i here refl in
          record {
            step = move_step now StepState.waiting_approval u call.step;
            at =
                ap (λ (t : Task). get_elem? t.steps call.i) (call.wrote.touched)
                ∙ ap (λ (t : Task). get_elem? t.steps call.i) settled
                ∙ here;
            waiting = refl;
            linked = refl;
            state =
                ap (λ (t : Task). t.status) call.wrote.touched
                ∙ ap (λ (t : Task). t.status) settled;
          }
      through (after_evidence reread given added e) = absurd (clash (sym plain ∙ given))

  -- With evidence in the same call the request that was handed in is lost: the step waits under
  -- the request that it had before, and the status of the task is not changed.
  pub update_step-forgets_request :
      is_empty u.evidence_reference ≡ false
      → (task : Task) × (i : ℕ) × (step : Step) × ((get task_id s).0 ≡ ok task)
        × (get_elem? task.steps i ≡ some step)
        × Waits result i step.approval_request_id task.status
  unfolding record_event
  update_step-forgets_request given = (
    call.task,
    call.i,
    call.step,
    call.found,
    at,
    through (steps-update_step now task_id index u expected s s' result h)
        (with_evidence-Moved now task_id call.to u call.i call.step call.task s call.moves),
  )
    where
      at : get_elem? call.task.steps call.i ≡ some call.step
      at = (step_at-ok call.task.steps index call.at).0

      through :
          StepsMoved now u call.to call.i call.step call.task.steps result.steps
          → Moved now task_id call.to u call.i call.step call.task s call.moved call.between
          → Waits result call.i call.step.approval_request_id call.task.status
      through (moved plain _) m = absurd (clash (sym plain ∙ given))
      through (moved_with_evidence _ after) (in_place plain _ _) =
          absurd (clash (sym plain ∙ given))
      through (moved_with_evidence _ after) (after_evidence reread _ added e) =
          let linked = with_reference (strip u.evidence_reference) call.step in
          let first =
            get_elem?-set_self call.task.steps call.i linked
              (get_elem?-lt call.task.steps call.i at) in
          let here : get_elem? result.steps call.i ≡ some (restored now call.to u linked) =
            ap (λ l. get_elem? l call.i) after
            ∙ get_elem?-set_self (set call.task.steps call.i linked) call.i _
                (get_elem?-lt _ call.i first) in
          let kept =
            ap (λ (t : Task). t.steps) call.wrote.touched
            ∙ (settle-keeps call.to u call.step call.moved).2 in
          let inside = ap (λ l. get_elem? l call.i) (sym kept) ∙ here in
          let settled : settle call.to u call.step call.moved ≡ call.moved =
            ap (λ t. settle t u call.step call.moved) to_waiting
            ∙ settle-waiting u call.step call.moved call.i inside to_waiting in
          let (old, c, status, revision) =
            add_evidence-Changed now task_id u.evidence_kind u.evidence_reference u.note
              (some (pos call.i)) (some call.task.revision) s call.between reread added in
          let same : ok old ≡ ok call.task = sym (get-of_Found task_id s c.found) ∙ call.found in
          record {
            step = restored now call.to u linked;
            at = here;
            waiting = to_waiting;
            linked = refl;
            state =
                ap (λ (t : Task). t.status) call.wrote.touched
                ∙ ap (λ (t : Task). t.status) settled
                ∙ ap (λ (t : Task). t.status) e
                ∙ status-restore_step now call.to u call.i (get_elem? reread.steps call.i) reread
                ∙ status
                ∙ (ground arith);
          }
