-- ===== src/Tasks/Preserve.antt =====
-- Each operation keeps the soundness of the steps of the task that it changes.
use agenelf.Base.{
  ℕ, ◌≡◌, refl, sym, subst, ap, true, false, Option, none, some, Text, List, [], ◌∷◌, ◌++◌, arith,
  strip, ok, Option-cases, inl, inr, ◌⊎◌, ℤ, get_elem?, set, length, index_below,
}
use agenelf.Tasks.States.{TaskState, StepState, is_success, can_step, parse_step_state}
use agenelf.Tasks.Data.{Task, Step, Engine}
use agenelf.Tasks.Files.{get, record_event}
use agenelf.Tasks.Evidence.{add_evidence, attach_reference, add_reference, append_evidence}
use agenelf.Tasks.Transition.{transition, enter, cancel_step}
use agenelf.Tasks.Steps.{
  StepUpdate, step_at, step_target, check_update, dependencies_satisfied, needs_dependencies,
}
use agenelf.Tasks.Inversion.{transition-ok, add_evidence-ok}
use agenelf.Tasks.Dependencies.{IsSound, Replaces, set-IsSound, Demotes, map-IsSound}

pub step_at-ok :
    (steps : List Step) (index : ℤ) {i : ℕ} {step : Step}
    → step_at steps index ≡ ok (i, step)
    → (get_elem? steps i ≡ some step) × (index_below (length steps) index ≡ some i)
unfolding step_at
step_at-ok steps index h = elim (Option-cases (index_below (length steps) index)) [
  | inl e ↦ ground arith
  | inr (k, e) ↦ ground arith
]

pub step_target-ok :
    (current : StepState) (to_status : Text) {to : StepState}
    → step_target current to_status ≡ ok to
    → (can_step current to ≡ true) × (parse_step_state (strip to_status) ≡ some to)
unfolding step_target
step_target-ok current to_status h = elim (Option-cases (parse_step_state (strip to_status))) [
  | inl e ↦ ground arith
  | inr (k, e) ↦ ground arith
]

pub can_step-fresh :
    (current to : StepState) → can_step current to ≡ true → is_success current ≡ false
unfolding can_step is_success
can_step-fresh StepState.succeeded to h = ground arith
can_step-fresh StepState.skipped to h = ground arith
can_step-fresh _ to h = refl

pub check_update-ready :
    (steps : List Step) (step : Step) (to : StepState) (u : StepUpdate)
    → check_update steps step to u ≡ ok tt
    → needs_dependencies to ≡ true
    → dependencies_satisfied steps step ≡ true
unfolding check_update needs_dependencies
check_update-ready steps step StepState.running u h n = ground arith
check_update-ready steps step StepState.succeeded u h n = ground arith
check_update-ready steps step _ u h n = ground arith

cancel_step-Demotes : (now : ℕ) → Demotes (cancel_step now)
unfolding cancel_step is_success needs_dependencies
cancel_step-Demotes now = record {
  same = λ st. ground arith;
  success = λ st h. ground arith;
  starts = λ st h. ground arith;
}

pub enter-IsSound :
    (to : TaskState) (now : ℕ) (reason : Text) (task : Task)
    → IsSound task.steps
    → IsSound (enter to now reason task).steps
unfolding enter
enter-IsSound TaskState.cancelled now reason task sound =
    map-IsSound (cancel_step now) (cancel_step-Demotes now) task.steps sound
enter-IsSound TaskState.running now reason task sound = sound
enter-IsSound _ now reason task sound = sound

abbrev pub with_reference : Text → Step → Step
with_reference reference step = record step { evidence_refs = step.evidence_refs ++ reference ∷ [] }

pub with_reference-Replaces :
    (steps : List Step) (i : ℕ) (reference : Text) (step : Step)
    → IsSound steps
    → get_elem? steps i ≡ some step
    → Replaces steps step (with_reference reference step)
with_reference-Replaces steps i reference step sound at = record {
  same = refl;
  success = λ h. h;
  ready = λ need. sound.started i step at need;
}

-- The steps after `attach_reference`: as before, or one of them with one more reference.
attach-steps :
    (index : Option ℤ) (reference : Text) (t : Task) {u : Task}
    → attach_reference index reference t ≡ ok u
    → (u.steps ≡ t.steps)
      ⊎ ((i : ℕ) × (step : Step) × (get_elem? t.steps i ≡ some step)
          × (u.steps ≡ set t.steps i (with_reference reference step)))
unfolding attach_reference add_reference
attach-steps none reference t h = inl (ground arith)
attach-steps (some index) reference t h = elim (Option-cases (index_below (length t.steps) index)) [
  | inl e ↦ ground arith
  | inr (i, e) ↦ elim (Option-cases (get_elem? t.steps i)) [
    | inl e' ↦ inl (ground arith)
    | inr (step, e') ↦ inr (i, step, e', ground arith)
  ]
]

attach-IsSound :
    (index : Option ℤ) (reference : Text) (t : Task) {u : Task}
    → attach_reference index reference t ≡ ok u
    → IsSound t.steps
    → IsSound u.steps
attach-IsSound index reference t h sound = elim (attach-steps index reference t h) [
  | inl e ↦ subst IsSound (sym e) sound
  | inr (i, step, at, e) ↦
      subst IsSound (sym e)
        (set-IsSound t.steps i at (with_reference-Replaces t.steps i reference step sound at) sound)
]

pub transition-IsSound :
    (now : ℕ) (task_id to_status reason : Text) (expected : Option ℕ) (s s' : Engine)
    (task result : Task)
    → transition now task_id to_status reason expected s ≡ (ok result, s')
    → (get task_id s).0 ≡ ok task
    → IsSound task.steps
    → IsSound result.steps
unfolding record_event
transition-IsSound now task_id to_status reason expected s s' task result h read sound =
    let t = transition-ok now task_id to_status reason expected s h in
    let same : task ≡ t.task = ground (arith, t.found) in
    subst IsSound (sym (ap (λ (k : Task). k.steps) t.wrote.touched))
      (enter-IsSound t.to now _ t.task (subst (λ k. IsSound k.steps) same sound))

pub add_evidence-IsSound :
    (now : ℕ) (task_id kind reference summary : Text) (index : Option ℤ) (expected : Option ℕ)
    (s s' : Engine) (task result : Task)
    → add_evidence now task_id kind reference summary index expected s ≡ (ok result, s')
    → (get task_id s).0 ≡ ok task
    → IsSound task.steps
    → IsSound result.steps
unfolding record_event append_evidence
add_evidence-IsSound now task_id kind reference summary index expected s s' task result h read
      sound =
    let a = add_evidence-ok now task_id kind reference summary index expected s h in
    let same : task ≡ a.task = ground (arith, a.found) in
    subst IsSound (sym (ap (λ (k : Task). k.steps) a.wrote.touched))
      (attach-IsSound index (strip reference) _ a.added (subst (λ k. IsSound k.steps) same sound))
