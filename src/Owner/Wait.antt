-- ===== src/Owner/Wait.antt =====
-- `wait_for_command_result` of app/core/owner_approval.py: the answer to a command, or a timeout.
-- Times are in microseconds. What the file holds and what the clock says at each turn of the loop
-- are given; the loop runs on fuel.
use agenelf.Base.{
  ℕ, zero, suc, ◌+◌, ◌*◌, ◌/◌, ◌≤◌, ◌≡◌, refl, ap, ◌∙◌, max, Bool, true, false, Option, none, some,
  Text, leb, arith, ℤ, pos, negsuc, inl, inr, Bool-cases, Option-cases, if◌then◌else◌, Result, ok,
  err,
}
use agenelf.Owner.Commands.{CommandError, illegal_command_id, is_command_id}
use agenelf.Owner.Broker.{CommandResult}

-- The answer, or the object with the status "timeout".
pub data Waited : Type 0 where
  answered : CommandResult → Waited
  timed_out : Waited

-- `max(0.0, timeout)` and `max(0.02, interval)`.
unfoldable pub not_negative : ℤ → ℕ
not_negative (pos n) = n
not_negative (negsuc n) = 0

unfoldable pub pause : ℤ → ℕ
unfolding not_negative
pause interval = max 20000 (not_negative interval)

-- More turns than a wait of this length can take.
unfoldable pub turns_for : ℤ → ℕ
unfolding not_negative
turns_for timeout = not_negative timeout / 20000 + 2

-- One turn: the answer if it is there, then the deadline, then the rest of the loop.
unfoldable pub after_look : Option CommandResult → Bool → Option Waited → Option Waited
after_look (some r) late rest = some (answered r)
after_look none true rest = some timed_out
after_look none false rest = rest

module _ (look : ℕ → Option CommandResult) (clock : ℕ → ℕ) where
  -- The loop from a turn on; `none` is fuel that has run out.
  unfoldable pub wait_until : ℕ → ℕ → ℕ → Option Waited
  unfolding after_look
  wait_until zero deadline i = none
  wait_until (suc fuel) deadline i =
      after_look (look i) (leb deadline (clock i)) (wait_until fuel deadline (suc i))

  unfoldable pub wait_for_command_result : ℕ → Text → ℕ → ℤ → Result CommandError (Option Waited)
  unfolding wait_until is_command_id not_negative
  wait_for_command_result fuel command_id start timeout =
      if is_command_id command_id
      then ok (wait_until fuel (start + not_negative timeout) 0)
      else err illegal_command_id

  -- An answer that was read at some turn, or a timeout after the deadline.
  pub data IsOutcome (deadline : ℕ) : Waited → Type 0 where
    was_answered : {r : CommandResult} (i : ℕ) → look i ≡ some r → IsOutcome deadline (answered r)
    was_late : (i : ℕ) → deadline ≤ clock i → IsOutcome deadline timed_out

  early-fuel : (deadline now : ℕ) → deadline ≤ now + 0 * 20000 → leb deadline now ≡ true
  early-fuel deadline now near = ground arith

  wait_until-ends :
      (fuel deadline i : ℕ)
      → ((j : ℕ) → clock j + 20000 ≤ clock (suc j))
      → deadline ≤ clock i + fuel * 20000
      → (w : Waited) × (wait_until (suc fuel) deadline i ≡ some w) × IsOutcome deadline w
  unfolding wait_until
  wait_until-ends zero deadline i ticks near = elim (Option-cases (look i)) [
    | inr (r, there) ↦ (answered r, rw there refl, was_answered i there)
    | inl missing ↦ (
      timed_out,
      rw missing (rw (early-fuel deadline (clock i) near) refl),
      was_late i (omega (arith, near)),
    )
  ]
  wait_until-ends (suc fuel) deadline i ticks near =
      let (w, ends, outcome) =
        wait_until-ends fuel deadline (suc i) ticks (omega (arith, near, ticks i)) in
      elim (Option-cases (look i)) [
        | inr (r, there) ↦ (answered r, rw there refl, was_answered i there)
        | inl missing ↦ elim (Bool-cases (leb deadline (clock i))) [
          | inl late ↦ (timed_out, rw missing (rw late refl), was_late i (ground arith))
          | inr early ↦ (w, rw missing (rw early ends), outcome)
        ]
      ]

  -- A wait ends, with an answer that was there at some turn or with a timeout after its deadline, in
  -- no more turns than the length of the wait holds pauses of 20 milliseconds, and two: the clock
  -- stands at the start or later when the loop begins, and each turn takes at least its pause.
  pub wait_for_command_result-ends :
      (command_id : Text) (start : ℕ) (timeout interval : ℤ)
      → is_command_id command_id ≡ true
      → start ≤ clock 0
      → ((j : ℕ) → clock j + pause interval ≤ clock (suc j))
      → (w : Waited) × (wait_for_command_result (turns_for timeout) command_id start timeout
          ≡ ok (some w))
        × IsOutcome (start + not_negative timeout) w
  unfolding wait_for_command_result turns_for pause
  wait_for_command_result-ends command_id start timeout interval good begun ticks =
      let n = not_negative timeout in
      let (w, ends, outcome) =
        wait_until-ends (n / 20000 + 1) (start + n) 0 (λ j. omega (arith, ticks j))
          (omega (arith, begun)) in
      let fuel : n / 20000 + 2 ≡ suc (n / 20000 + 1) = omega arith in
      (w, rw good (ap ok (ap (λ (f : ℕ). wait_until f (start + n) 0) fuel ∙ ends)), outcome)
