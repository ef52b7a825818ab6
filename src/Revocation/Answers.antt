-- ===== src/Revocation/Answers.antt =====
-- The result file and the answers of `revoke_operation` (app/core/operation_revocation.py), through
-- every schedule.
use agenelf.Base.{
  ℕ, zero, suc, ◌≡◌, refl, Bool, true, false, Option, none, some, Text, List, [], ◌∷◌, codes, arith,
  any, text_eq_iff, Bool-cases, Option-cases, inl, inr, ap, ◌∙◌,
}
use agenelf.Revocation.World.{World, Moment, write_result}
use agenelf.Revocation.Runner.{RunnerAt, runner_step, take_lock}
use agenelf.Revocation.Owner.{
  OwnerAt, Answer, cancelled, refused, owner_step, after_asking, after_rechecking, after_cancelling,
  existing_answer,
}
use agenelf.Revocation.Schedule.{Process, runner, owner, advance, move, run}

pub write_result-kept :
    (status : Text) (w : World) {r : Text} → w.result ≡ some r → write_result status w ≡ w
unfolding write_result
write_result-kept status w there = rw there refl

pub take_lock-result :
    {A : Type 0} (holding away : A) (w : World)
    → ((take_lock holding away w).1.result ≡ w.result)
      × ((take_lock holding away w).1.executions ≡ w.executions)
unfolding take_lock
take_lock-result holding away w = elim (Bool-cases w.locked) [
  | inl e ↦ (rw e refl, rw e refl)
  | inr e ↦ (rw e refl, rw e refl)
]

runner_step-result :
    (m : Moment) (at : RunnerAt) (w : World) {r : Text}
    → w.result ≡ some r
    → (runner_step m at w).1.result ≡ some r
unfolding runner_step
runner_step-result m RunnerAt.arriving w there = there
runner_step-result m RunnerAt.expiring w there = (take_lock-result _ _ w).0 ∙ there
runner_step-result m RunnerAt.closing w there =
    ap (λ (v : World). v.result) (write_result-kept _ w there) ∙ there
runner_step-result m RunnerAt.looking w there = there
runner_step-result m RunnerAt.claiming w there = (take_lock-result _ _ w).0 ∙ there
runner_step-result m RunnerAt.deciding w there = there
runner_step-result m RunnerAt.starting w there = there
runner_step-result m (RunnerAt.writing status) w there =
    ap (λ (v : World). v.result) (write_result-kept _ w there) ∙ there
runner_step-result m RunnerAt.failing w there =
    ap (λ (v : World). v.result) (write_result-kept _ w there) ∙ there
runner_step-result m (RunnerAt.unlocking answer) w there = there
runner_step-result m (RunnerAt.finished answer) w there = there

owner_step-result :
    (m : Moment) (at : OwnerAt) (w : World) {r : Text}
    → w.result ≡ some r
    → (owner_step m at w).1.result ≡ some r
unfolding owner_step
owner_step-result m OwnerAt.asking w there = there
owner_step-result m OwnerAt.claiming w there = (take_lock-result _ _ w).0 ∙ there
owner_step-result m OwnerAt.rechecking w there = there
owner_step-result m OwnerAt.cancelling w there =
    ap (λ (v : World). v.result) (write_result-kept _ w there) ∙ there
owner_step-result m (OwnerAt.releasing answer) w there = there
owner_step-result m (OwnerAt.answered answer) w there = there

advance-result :
    (m : Moment) (p : Process) (w : World) {r : Text}
    → w.result ≡ some r
    → (advance m p w).1.result ≡ some r
unfolding advance
advance-result m (runner at) w there = runner_step-result m at w there
advance-result m (owner at) w there = owner_step-result m at w there

pub move-result :
    (i : ℕ) (m : Moment) (ps : List Process) (w : World) {r : Text}
    → w.result ≡ some r
    → (move i m ps w).1.result ≡ some r
unfolding move
move-result i m [] w there = there
move-result zero m (p ∷ ps) w there = advance-result m p w there
move-result (suc i) m (p ∷ ps) w there = move-result i m ps w there

-- A result is final: no schedule of runners and revocations changes or removes it.
pub run-result :
    (schedule : List (ℕ × Moment)) (ps : List Process) (w : World) (status : Text)
    → w.result ≡ some status
    → (run schedule ps w).1.result ≡ some status
unfolding run
run-result [] ps w status there = there
run-result ((i, m) ∷ schedule) ps w status there =
    let (ps', w') = move i m ps w in run-result schedule ps' w' status (move-result i m ps w there)

-- The answer of `revoke_operation` at the point `answered`, and the one it is about to give.
unfoldable pub answer_of : Process → Option Answer
answer_of (owner (OwnerAt.releasing answer)) = some answer
answer_of (owner (OwnerAt.answered answer)) = some answer
answer_of _ = none

unfoldable pub is_cancelled : Option Answer → Bool
is_cancelled (some (cancelled again)) = true
is_cancelled _ = false

unfoldable pub confirms : Process → Bool
unfolding answer_of is_cancelled
confirms p = is_cancelled (answer_of p)

existing_answer-cancelled :
    (status : Text)
    → is_cancelled (some (existing_answer status)) ≡ true
    → some status ≡ some (codes "cancelled")
unfolding existing_answer is_cancelled
existing_answer-cancelled status h =
    ap some (ground (arith, text_eq_iff status (codes "cancelled")))

after_asking-confirms :
    (m : Moment) (w : World)
    → confirms (owner (after_asking m w)) ≡ true
    → w.result ≡ some (codes "cancelled")
unfolding after_asking confirms
after_asking-confirms m w h = elim (Option-cases w.result) [
  | inl nothing ↦ ground arith
  | inr (status, there) ↦ there ∙ existing_answer-cancelled status (ground arith)
]

after_rechecking-confirms :
    (m : Moment) (w : World)
    → confirms (owner (after_rechecking m w)) ≡ true
    → w.result ≡ some (codes "cancelled")
unfolding after_rechecking confirms
after_rechecking-confirms m w h = elim (Option-cases w.result) [
  | inl nothing ↦ ground arith
  | inr (status, there) ↦ there ∙ existing_answer-cancelled status (ground arith)
]

after_cancelling-confirms :
    (w : World)
    → confirms (owner (after_cancelling w)) ≡ true
    → (write_result (codes "cancelled") w).result ≡ some (codes "cancelled")
unfolding after_cancelling confirms write_result
after_cancelling-confirms w h = elim (Option-cases w.result) [
  | inl nothing ↦ rw nothing refl
  | inr (status, there) ↦ ground arith
]

claiming-silent :
    (w : World)
    → confirms (owner (take_lock OwnerAt.rechecking (OwnerAt.answered refused) w).0) ≡ false
unfolding take_lock confirms
claiming-silent w = elim (Bool-cases w.locked) [ inl e ↦ rw e refl | inr e ↦ rw e refl ]

owner_step-confirms :
    (m : Moment) (at : OwnerAt) (w : World)
    → (confirms (owner at) ≡ true → w.result ≡ some (codes "cancelled"))
    → let (next, w') = owner_step m at w in
      confirms (owner next) ≡ true → w'.result ≡ some (codes "cancelled")
unfolding owner_step confirms
owner_step-confirms m OwnerAt.asking w true_so_far h = after_asking-confirms m w h
owner_step-confirms m OwnerAt.claiming w true_so_far h = ground (arith, claiming-silent w)
owner_step-confirms m OwnerAt.rechecking w true_so_far h = after_rechecking-confirms m w h
owner_step-confirms m OwnerAt.cancelling w true_so_far h = after_cancelling-confirms w h
owner_step-confirms m (OwnerAt.releasing answer) w true_so_far h = true_so_far h
owner_step-confirms m (OwnerAt.answered answer) w true_so_far h = true_so_far h

advance-confirms :
    (m : Moment) (p : Process) (w : World)
    → (confirms p ≡ true → w.result ≡ some (codes "cancelled"))
    → let (next, w') = advance m p w in confirms next ≡ true → w'.result ≡ some (codes "cancelled")
unfolding advance confirms
advance-confirms m (runner at) w true_so_far h = ground arith
advance-confirms m (owner at) w true_so_far h = owner_step-confirms m at w true_so_far h

-- After a step, a list in which one process was true to the result stays so.
move-confirms :
    (i : ℕ) (m : Moment) (ps : List Process) (w : World)
    → (any confirms ps ≡ true → w.result ≡ some (codes "cancelled"))
    → let (ps', w') = move i m ps w in
      any confirms ps' ≡ true → w'.result ≡ some (codes "cancelled")
unfolding move
move-confirms i m [] w true_so_far h = true_so_far h
move-confirms zero m (p ∷ ps) w true_so_far h = elim (Bool-cases (any confirms ps)) [
  | inl others ↦ advance-result m p w (true_so_far (ground arith))
  | inr none_else ↦ advance-confirms m p w (λ e. true_so_far (ground arith)) (ground arith)
]
move-confirms (suc i) m (p ∷ ps) w true_so_far h = elim (Bool-cases (confirms p)) [
  | inl first ↦ move-result i m ps w (true_so_far (ground arith))
  | inr not_first ↦ move-confirms i m ps w (λ e. true_so_far (ground arith)) (ground arith)
]

run-confirms :
    (schedule : List (ℕ × Moment)) (ps : List Process) (w : World)
    → (any confirms ps ≡ true → w.result ≡ some (codes "cancelled"))
    → let (ps', w') = run schedule ps w in
      any confirms ps' ≡ true → w'.result ≡ some (codes "cancelled")
unfolding run
run-confirms [] ps w true_so_far h = true_so_far h
run-confirms ((i, m) ∷ schedule) ps w true_so_far h =
    let (ps', w') = move i m ps w in
    run-confirms schedule ps' w' (move-confirms i m ps w true_so_far) h

-- Among runners and revocations that have given no answer yet, a revocation that is confirmed at
-- some later time has the status "cancelled" in the result file then.
pub run-cancelled :
    (schedule : List (ℕ × Moment)) (ps : List Process) (w : World)
    → any confirms ps ≡ false
    → any confirms (run schedule ps w).0 ≡ true
    → (run schedule ps w).1.result ≡ some (codes "cancelled")
run-cancelled schedule ps w silent confirmed =
    run-confirms schedule ps w (λ e. ground arith) confirmed
