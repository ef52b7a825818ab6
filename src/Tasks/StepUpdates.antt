-- ===== src/Tasks/StepUpdates.antt =====
-- `update_step` keeps the soundness of the steps.
use agenelf.Base.{
  ℕ, ◌≡◌, refl, sym, subst, ◌∙◌, ap, true, false, Option, some, Text, List, arith, strip, Result,
  ok, err, ℤ, pos, is_empty, get_elem?, get_elem?-lt, get_elem?-set_self, set, length, lt→ltb,
}
use agenelf.Tasks.States.{StepState, is_success}
use agenelf.Tasks.Data.{Task, Step, TaskError, Engine}
use agenelf.Tasks.Files.{get, record_event}
use agenelf.Tasks.Evidence.{attach_reference, add_reference, append_evidence}
use agenelf.Tasks.Steps.{
  StepUpdate, update_step, move_task, move_step, restore_step, dependencies_satisfied,
  needs_dependencies, finish_time,
}
use agenelf.Storage.{collapsed_text}
use agenelf.Tasks.Inversion.{add_evidence-ok, update_step-ok, UpdatedStep}
use agenelf.Tasks.Changes.{Moved, in_place, after_evidence, with_evidence-Moved, settle-keeps}
use agenelf.Tasks.Dependencies.{IsSound, set-IsSound, satisfied-set}
use agenelf.Tasks.Preserve.{
  with_reference, with_reference-Replaces, step_at-ok, step_target-ok, can_step-fresh,
  check_update-ready,
}

clash : true ≡ false → ⊥
clash e = cc

-- The step as the assignments after `add_evidence` leave it.
abbrev pub restored : ℕ → StepState → StepUpdate → Step → Step
restored now to u step = record step {
  status = to;
  note = collapsed_text u.note 1000;
  finished_at = finish_time to now step.finished_at;
}

-- What `update_step` wrote to the steps: the moved step, in place of the step that it moved or of
-- the same step with the evidence's reference added.
pub data StepsMoved (now : ℕ) (u : StepUpdate) (to : StepState) (i : ℕ) (step : Step)
    (steps : List Step) (after : List Step) : Type 0 where
  moved :
      is_empty u.evidence_reference ≡ true
      → after ≡ set steps i (move_step now to u step)
      → StepsMoved now u to i step steps after
  moved_with_evidence :
      is_empty u.evidence_reference ≡ false
      → after
        ≡ set
            (set steps i (with_reference (strip u.evidence_reference) step))
            i
            (restored now to u (with_reference (strip u.evidence_reference) step))
      → StepsMoved now u to i step steps after

attach_at :
    (i : ℕ) (reference : Text) (t : Task) {step : Step} {w : Task}
    → get_elem? t.steps i ≡ some step
    → attach_reference (some (pos i)) reference t ≡ ok w
    → w.steps ≡ set t.steps i (with_reference reference step)
unfolding attach_reference add_reference
attach_at i reference t at h = ground (arith, lt→ltb i (length t.steps) (get_elem?-lt t.steps i at))

restore_at :
    (now : ℕ) (to : StepState) (u : StepUpdate) (i : ℕ) (t : Task) {step : Step}
    → get_elem? t.steps i ≡ some step
    → (restore_step now to u i (get_elem? t.steps i) t).steps
      ≡ set t.steps i (restored now to u step)
unfolding restore_step
restore_at now to u i t here = rw here

abbrev Holds : Result TaskError Task → Type 0
Holds (ok t) = IsSound t.steps
Holds (err e) = Unit

module _ (now : ℕ) (task_id : Text) (index : ℤ) (u : StepUpdate) (expected : Option ℕ)
    (s s' : Engine) (result : Task)
    (h : update_step now task_id index u expected s ≡ (ok result, s')) where
  abbrev call : UpdatedStep s now task_id index u expected result s'
  call = update_step-ok now task_id index u expected s h

  pub steps-update_step : StepsMoved now u call.to call.i call.step call.task.steps result.steps
  unfolding record_event move_task restore_step append_evidence
  steps-update_step =
      through (with_evidence-Moved now task_id call.to u call.i call.step call.task s call.moves)
    where
      at : get_elem? call.task.steps call.i ≡ some call.step
      at = (step_at-ok call.task.steps index call.at).0

      kept : result.steps ≡ call.moved.steps
      kept =
          ap (λ (t : Task). t.steps) call.wrote.touched
          ∙ (settle-keeps call.to u call.step call.moved).2

      through :
          Moved now task_id call.to u call.i call.step call.task s call.moved call.between
          → StepsMoved now u call.to call.i call.step call.task.steps result.steps
      through (in_place plain e same) = moved plain (kept ∙ ap (λ (t : Task). t.steps) e)
      through (after_evidence reread given added e) =
          let a =
            add_evidence-ok now task_id u.evidence_kind u.evidence_reference u.note
              (some (pos call.i)) (some call.task.revision) s added in
          let same : a.task ≡ call.task = ground (arith, a.found, call.found) in
          let at' : get_elem? a.task.steps call.i ≡ some call.step = rw same at in
          let steps : reread.steps
              ≡ set call.task.steps call.i (with_reference (strip u.evidence_reference) call.step) =
            ap (λ (t : Task). t.steps) a.wrote.touched
            ∙ attach_at call.i (strip u.evidence_reference) _ at' a.added
            ∙ ap
                (λ (t : Task).
                  set t.steps call.i (with_reference (strip u.evidence_reference) call.step))
                same in
          let here : get_elem? reread.steps call.i
              ≡ some (with_reference (strip u.evidence_reference) call.step) =
            ap (λ l. get_elem? l call.i) steps
            ∙ get_elem?-set_self call.task.steps call.i _
                (get_elem?-lt call.task.steps call.i at) in
          moved_with_evidence given (
            kept
            ∙ ap (λ (t : Task). t.steps) e
            ∙ restore_at now call.to u call.i reread here
            ∙ ap
                (λ l.
                  set l call.i (
                    restored now call.to u (with_reference (strip u.evidence_reference) call.step)))
                steps)

  pub update_step-IsSound :
      (task : Task) → (get task_id s).0 ≡ ok task → IsSound task.steps → IsSound result.steps
  unfolding move_step dependencies_satisfied
  update_step-IsSound task read sound = through steps-update_step
    where
      at : get_elem? call.task.steps call.i ≡ some call.step
      at = (step_at-ok call.task.steps index call.at).0

      was_sound : IsSound call.task.steps
      was_sound = subst (λ r. Holds r) (sym read ∙ call.found) sound

      fresh : is_success call.step.status ≡ false
      fresh =
          can_step-fresh call.step.status call.to
            (step_target-ok call.step.status u.to_status call.target).0

      ready :
          needs_dependencies call.to ≡ true
          → dependencies_satisfied call.task.steps call.step ≡ true
      ready = check_update-ready call.task.steps call.step call.to u call.allowed

      through :
          StepsMoved now u call.to call.i call.step call.task.steps result.steps
          → IsSound result.steps
      through (moved plain e) = subst IsSound (sym e) (
          set-IsSound call.task.steps call.i at
            (record {
              same = refl;
              success = λ was. absurd (clash (sym was ∙ fresh));
              ready = ready;
            })
            was_sound)
      through (moved_with_evidence given e) =
          let r =
            with_reference-Replaces call.task.steps call.i (strip u.evidence_reference) call.step
              was_sound at in
          let first = set-IsSound call.task.steps call.i at r was_sound in
          let here =
            get_elem?-set_self call.task.steps call.i
              (with_reference (strip u.evidence_reference) call.step)
              (get_elem?-lt call.task.steps call.i at) in
          subst IsSound (sym e) (
            set-IsSound _ call.i here
              (record {
                same = refl;
                success = λ was. absurd (clash (sym was ∙ fresh));
                ready = λ need. satisfied-set call.task.steps call.i at r call.step (ready need);
              })
              first)
