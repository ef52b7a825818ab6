-- ===== src/Revocation/Owner.antt =====
-- `revoke_operation`, cut at each call that touches the result or the lock
-- (app/core/operation_revocation.py).
use agenelf.Base.{Bool, true, false, none, some, Text, codes, is_some, text_eq, if◌then◌else◌}
use agenelf.Revocation.World.{World, Moment, unlock, write_result}
use agenelf.Revocation.Runner.{take_lock}

-- `cancelled` carries the flag `idempotent`; `refused` is the error.
pub data Answer : Type 0 where
  cancelled : Bool → Answer
  refused : Answer

pub data OwnerAt : Type 0 where
  asking claiming rechecking cancelling : OwnerAt
  releasing answered : Answer → OwnerAt

-- `_existing_cancellation`, then the error for another result.
unfoldable pub existing_answer : Text → Answer
existing_answer status = if text_eq status (codes "cancelled") then cancelled true else refused

unfoldable pub after_asking : Moment → World → OwnerAt
unfolding existing_answer
after_asking m w =
    if m.valid
    then (elim w.result [
      | some status ↦ answered (existing_answer status)
      | none ↦
          if m.expired then answered refused else if m.vetoed then answered refused else claiming
    ])
    else answered refused

-- The checks once more, under the lock.
unfoldable pub after_rechecking : Moment → World → OwnerAt
unfolding existing_answer
after_rechecking m w =
    if m.valid
    then (elim w.result [
      | some status ↦ releasing (existing_answer status)
      | none ↦ if m.expired then releasing refused else cancelling
    ])
    else releasing refused

unfoldable pub after_cancelling : World → OwnerAt
after_cancelling w = if is_some w.result then releasing refused else releasing (cancelled false)

unfoldable pub owner_step : Moment → OwnerAt → World → OwnerAt × World
unfolding after_asking after_rechecking after_cancelling take_lock unlock write_result
owner_step m asking w = (after_asking m w, w)
owner_step m claiming w = take_lock rechecking (answered refused) w
owner_step m rechecking w = (after_rechecking m w, w)
owner_step m cancelling w = (after_cancelling w, write_result (codes "cancelled") w)
owner_step m (releasing answer) w = (answered answer, unlock w)
owner_step m (answered answer) w = (answered answer, w)
