-- ===== src/Revocation/Late.antt =====
-- Executions of the runner (scripts/ops_runner.py) at a time when there is a result.
use agenelf.Base.{
  ℕ, zero, suc, ◌≡◌, refl, Bool, true, false, Option, none, some, Text, List, [], ◌∷◌, codes, arith,
  all, Bool-cases, Option-cases, inl, inr, ap, ◌∙◌,
}
use agenelf.Revocation.World.{World, Moment, approved, write_result}
use agenelf.Revocation.Runner.{
  RunnerAt, runner_step, take_lock, after_arrival, after_decision, after_execution, after_writing,
  after_closing,
}
use agenelf.Revocation.Owner.{
  OwnerAt, cancelled, owner_step, after_asking, after_rechecking, after_cancelling,
}
use agenelf.Revocation.Schedule.{Process, runner, owner, advance, move, run}
use agenelf.Revocation.Answers.{move-result, write_result-kept, take_lock-result}

-- Is this no runner between its check of the result and the end of its execution?
unfoldable pub is_outside : Process → Bool
is_outside (runner RunnerAt.claiming) = false
is_outside (runner RunnerAt.deciding) = false
is_outside (runner RunnerAt.starting) = false
is_outside _ = true

after_arrival-outside : (m : Moment) (w : World) → is_outside (runner (after_arrival m w)) ≡ true
unfolding after_arrival is_outside
after_arrival-outside m w = ground arith

after_writing-outside :
    (status : Text) (w : World) → is_outside (runner (after_writing status w)) ≡ true
unfolding after_writing is_outside
after_writing-outside status w = ground arith

after_closing-outside : (w : World) → is_outside (runner (after_closing w)) ≡ true
unfolding after_closing is_outside
after_closing-outside w = ground arith

expiring-outside :
    (w : World)
    → is_outside (runner (take_lock RunnerAt.closing (RunnerAt.finished (codes "locked")) w).0)
      ≡ true
unfolding take_lock is_outside
expiring-outside w = elim (Bool-cases w.locked) [ inl e ↦ rw e refl | inr e ↦ rw e refl ]

runner_step-outside :
    (m : Moment) (at : RunnerAt) (w : World) {status : Text}
    → w.result ≡ some status
    → is_outside (runner at) ≡ true
    → let (next, w') = runner_step m at w in
      (is_outside (runner next) ≡ true) × (w'.executions ≡ w.executions)
unfolding runner_step is_outside
runner_step-outside m RunnerAt.arriving w there out = (after_arrival-outside m w, refl)
runner_step-outside m RunnerAt.expiring w there out =
    (expiring-outside w, (take_lock-result _ _ w).1)
runner_step-outside m RunnerAt.closing w there out =
    (after_closing-outside w, ap (λ (v : World). v.executions) (write_result-kept _ w there))
runner_step-outside m RunnerAt.looking w there out = (rw there refl, refl)
runner_step-outside m (RunnerAt.writing status) w there out =
    (after_writing-outside status w, ap (λ (v : World). v.executions) (write_result-kept _ w there))
runner_step-outside m RunnerAt.failing w there out =
    (refl, ap (λ (v : World). v.executions) (write_result-kept _ w there))
runner_step-outside m (RunnerAt.unlocking answer) w there out = (refl, refl)
runner_step-outside m (RunnerAt.finished answer) w there out = (refl, refl)
runner_step-outside m RunnerAt.claiming w there out = ground arith
runner_step-outside m RunnerAt.deciding w there out = ground arith
runner_step-outside m RunnerAt.starting w there out = ground arith

owner_step-executions :
    (m : Moment) (at : OwnerAt) (w : World) → (owner_step m at w).1.executions ≡ w.executions
unfolding owner_step write_result
owner_step-executions m OwnerAt.asking w = refl
owner_step-executions m OwnerAt.claiming w = (take_lock-result _ _ w).1
owner_step-executions m OwnerAt.rechecking w = refl
owner_step-executions m OwnerAt.cancelling w = elim (Option-cases w.result) [
  | inl e ↦ rw e refl
  | inr (r, e) ↦ rw e refl
]
owner_step-executions m (OwnerAt.releasing answer) w = refl
owner_step-executions m (OwnerAt.answered answer) w = refl

advance-outside :
    (m : Moment) (p : Process) (w : World) {status : Text}
    → w.result ≡ some status
    → is_outside p ≡ true
    → let (next, w') = advance m p w in (is_outside next ≡ true) × (w'.executions ≡ w.executions)
unfolding advance is_outside
advance-outside m (runner at) w there out = runner_step-outside m at w there out
advance-outside m (owner at) w there out = (refl, owner_step-executions m at w)

move-outside :
    (i : ℕ) (m : Moment) (ps : List Process) (w : World) {status : Text}
    → w.result ≡ some status
    → all is_outside ps ≡ true
    → let (ps', w') = move i m ps w in (all is_outside ps' ≡ true) × (w'.executions ≡ w.executions)
unfolding move
move-outside i m [] w there out = (refl, refl)
move-outside zero m (p ∷ ps) w there out =
    let (next, same) = advance-outside m p w there (ground arith) in (ground arith, same)
move-outside (suc i) m (p ∷ ps) w there out =
    let (next, same) = move-outside i m ps w there (ground arith) in (ground arith, same)

-- Once there is a result, no runner executes anything, unless it had seen no result before and was
-- on its way to an execution.
run-executions :
    (schedule : List (ℕ × Moment)) (ps : List Process) (w : World) (status : Text)
    → w.result ≡ some status
    → all is_outside ps ≡ true
    → (run schedule ps w).1.executions ≡ w.executions
unfolding run
run-executions [] ps w status there out = refl
run-executions ((i, m) ∷ schedule) ps w status there out =
    let (ps', w') = move i m ps w in
    let (outside, same) = move-outside i m ps w there out in
    run-executions schedule ps' w' status (move-result i m ps w there) outside ∙ same

-- A runner finds no result, a revocation runs to its end, and the runner goes on.
abbrev overtaking : Moment → List (ℕ × Moment)
overtaking m =
    (0, m) ∷ (0, m) ∷ (1, m) ∷ (1, m) ∷ (1, m) ∷ (1, m) ∷ (1, m) ∷ (0, m) ∷ (0, m) ∷ (0, m) ∷ []

-- A request that the runner accepts, that is valid, approved and not expired.
abbrev pub ready : Option Text → Moment
ready execution = record {
  accepted = true;
  expired = false;
  valid = true;
  authorization = approved;
  vetoed = false;
  execution = execution;
}

-- While a valid and approved request has not expired and has no result, there is an order of steps
-- in which the owner is told that it was cancelled before it started, and the runner executes it
-- afterwards, with "cancelled" in the result file.
pub run-overtaken :
    (execution : Option Text) (executions : List (Option Text)) (ps : List Process)
    → (schedule : List (ℕ × Moment)) × (at : RunnerAt) × (let (ps', w') =
          run schedule
            (runner RunnerAt.arriving ∷ owner OwnerAt.asking ∷ ps)
            (record { result = none; locked = false; executions = executions }) in
        (ps' ≡ runner at ∷ owner (OwnerAt.answered (cancelled false)) ∷ ps)
        × (w'.executions ≡ some (codes "cancelled") ∷ executions))
unfolding run move advance runner_step owner_step take_lock after_arrival after_decision
    after_execution after_asking after_rechecking after_cancelling
run-overtaken execution executions ps =
    (overtaking (ready execution), after_execution (ready execution), (refl, refl))
