-- ===== src/Revocation/Exclusion.antt =====
-- The lock file of a request and the processes between their lock and their unlock
-- (scripts/ops_runner.py, app/core/operation_revocation.py).
use agenelf.Base.{
  ℕ, zero, suc, ◌+◌, ◌≤◌, ◌≡◌, refl, Bool, true, false, Text, List, [], ◌∷◌, arith, Bool-cases,
  Option-cases, inl, inr, sym,
}
use agenelf.Revocation.World.{World, Moment, pending, denied, invalid, approved, write_result}
use agenelf.Revocation.Runner.{
  RunnerAt, runner_step, take_lock, after_arrival, after_decision, after_execution,
}
use agenelf.Revocation.Owner.{OwnerAt, owner_step, after_asking, after_rechecking}
use agenelf.Revocation.Schedule.{
  Process, runner, owner, advance, move, run, runner_holds, owner_holds, holds, as_number, holders,
}

-- Where a check sends a process, it holds the lock as it did.
after_arrival_free : (m : Moment) (w : World) → runner_holds (after_arrival m w) ≡ false
unfolding after_arrival runner_holds
after_arrival_free m w = ground arith

after_decision_holds : (m : Moment) → runner_holds (after_decision m) ≡ true
unfolding after_decision runner_holds
after_decision_holds m = elim (Bool-cases m.valid) [
  | inl valid ↦ elim m.authorization [
    | pending ↦ ground arith
    | denied ↦ ground arith
    | invalid ↦ ground arith
    | approved ↦ ground arith
  ]
  | inr broken ↦ ground arith
]

after_execution_holds : (m : Moment) → runner_holds (after_execution m) ≡ true
unfolding after_execution runner_holds
after_execution_holds m = ground arith

after_asking_free : (m : Moment) (w : World) → owner_holds (after_asking m w) ≡ false
unfolding after_asking owner_holds
after_asking_free m w = ground arith

after_rechecking_holds : (m : Moment) (w : World) → owner_holds (after_rechecking m w) ≡ true
unfolding after_rechecking owner_holds
after_rechecking_holds m w = ground arith

write_result-locked : (status : Text) (w : World) → (write_result status w).locked ≡ w.locked
unfolding write_result
write_result-locked status w = elim (Option-cases w.result) [
  | inl e ↦ rw e refl
  | inr (r, e) ↦ rw e refl
]

-- A step under the lock that ends under it, and a step outside it.
keeps :
    (others : ℕ) (before after : Bool) (locked locked' : Bool)
    → others + as_number before ≤ as_number locked
    → before ≡ after
    → locked' ≡ locked
    → others + as_number after ≤ as_number locked'
keeps others before after locked locked' h same unchanged = rw (sym same) (rw unchanged h)

-- An attempt to take the lock: it is free, or the process goes away without it.
take_lock-keeps :
    {A : Type 0} (inside : A → Bool) (holding refused : A) (w : World) (others : ℕ)
    → inside refused ≡ false
    → others ≤ as_number w.locked
    → let (next, w') = take_lock holding refused w in
      others + as_number (inside next) ≤ as_number w'.locked
unfolding take_lock
take_lock-keeps inside holding refused w others away h = elim (Bool-cases w.locked) [
  | inl taken ↦ ground (arith, away)
  | inr vacant ↦ elim (Bool-cases (inside holding)) [ inl e ↦ ground arith | inr e ↦ ground arith ]
]

runner_step-lock :
    (m : Moment) (at : RunnerAt) (w : World) (others : ℕ)
    → others + as_number (runner_holds at) ≤ as_number w.locked
    → let (next, w') = runner_step m at w in
      others + as_number (runner_holds next) ≤ as_number w'.locked
unfolding runner_step runner_holds
runner_step-lock m RunnerAt.arriving w others h =
    keeps others false _ _ _ h (sym (after_arrival_free m w)) refl
runner_step-lock m RunnerAt.expiring w others h =
    take_lock-keeps runner_holds _ _ w others refl (omega (arith, h))
runner_step-lock m RunnerAt.closing w others h =
    keeps others true _ _ _ h (ground arith) (write_result-locked _ w)
runner_step-lock m RunnerAt.looking w others h = ground arith
runner_step-lock m RunnerAt.claiming w others h =
    take_lock-keeps runner_holds _ _ w others refl (omega (arith, h))
runner_step-lock m RunnerAt.deciding w others h =
    keeps others true _ _ _ h (sym (after_decision_holds m)) refl
runner_step-lock m RunnerAt.starting w others h =
    keeps others true _ _ _ h (sym (after_execution_holds m)) refl
runner_step-lock m (RunnerAt.writing status) w others h =
    keeps others true _ _ _ h (ground arith) (write_result-locked status w)
runner_step-lock m RunnerAt.failing w others h =
    keeps others true _ _ _ h refl (write_result-locked _ w)
runner_step-lock m (RunnerAt.unlocking answer) w others h = ground arith
runner_step-lock m (RunnerAt.finished answer) w others h = h

owner_step-lock :
    (m : Moment) (at : OwnerAt) (w : World) (others : ℕ)
    → others + as_number (owner_holds at) ≤ as_number w.locked
    → let (next, w') = owner_step m at w in
      others + as_number (owner_holds next) ≤ as_number w'.locked
unfolding owner_step owner_holds
owner_step-lock m OwnerAt.asking w others h =
    keeps others false _ _ _ h (sym (after_asking_free m w)) refl
owner_step-lock m OwnerAt.claiming w others h =
    take_lock-keeps owner_holds _ _ w others refl (omega (arith, h))
owner_step-lock m OwnerAt.rechecking w others h =
    keeps others true _ _ _ h (sym (after_rechecking_holds m w)) refl
owner_step-lock m OwnerAt.cancelling w others h =
    keeps others true _ _ _ h (ground arith) (write_result-locked _ w)
owner_step-lock m (OwnerAt.releasing answer) w others h = ground arith
owner_step-lock m (OwnerAt.answered answer) w others h = h

advance-lock :
    (m : Moment) (p : Process) (w : World) (others : ℕ)
    → others + as_number (holds p) ≤ as_number w.locked
    → let (next, w') = advance m p w in others + as_number (holds next) ≤ as_number w'.locked
unfolding advance holds
advance-lock m (runner at) w others h = runner_step-lock m at w others h
advance-lock m (owner at) w others h = owner_step-lock m at w others h

move-lock :
    (i : ℕ) (m : Moment) (ps : List Process) (w : World) (others : ℕ)
    → others + holders ps ≤ as_number w.locked
    → let (ps', w') = move i m ps w in others + holders ps' ≤ as_number w'.locked
unfolding move holders
move-lock i m [] w others h = h
move-lock zero m (p ∷ ps) w others h =
    omega (arith, advance-lock m p w (others + holders ps) (omega (arith, h)))
move-lock (suc i) m (p ∷ ps) w others h =
    omega (arith, move-lock i m ps w (others + as_number (holds p)) (omega (arith, h)))

-- If at first at most one runner or revocation is between its lock and its unlock, and none where
-- there is no lock file, then this is so after any schedule of any number of them.
pub run-holders :
    (schedule : List (ℕ × Moment)) (ps : List Process) (w : World)
    → holders ps ≤ as_number w.locked
    → let (ps', w') = run schedule ps w in holders ps' ≤ as_number w'.locked
unfolding run
run-holders [] ps w h = h
run-holders ((i, m) ∷ schedule) ps w h =
    let (ps', w') = move i m ps w in
    run-holders schedule ps' w' (omega (arith, move-lock i m ps w 0 (omega (arith, h))))
