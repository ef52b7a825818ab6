-- ===== src/Revocation/Tests.antt =====
-- A runner and a revocation of one request as they run, and the theorems at them.
use agenelf.Base.{ℕ, ◌≡◌, ◌≤◌, refl, false, none, some, List, [], ◌∷◌, codes, arith}
use agenelf.Revocation.World.{World, Moment}
use agenelf.Revocation.Runner.{RunnerAt}
use agenelf.Revocation.Owner.{OwnerAt, cancelled, existing_answer}
use agenelf.Revocation.Schedule.{Process, runner, owner, run, holders, as_number}
use agenelf.Revocation.Exclusion.{run-holders}
use agenelf.Revocation.Answers.{run-result, confirms, run-cancelled}
use agenelf.Revocation.Late.{is_outside, run-overtaken, ready}

program : Unit {0}
unfolding run holders confirms is_outside existing_answer
program = tt

abbrev fresh_world : World
fresh_world = record { result = none; locked = false; executions = [] }

abbrev cancelled_world : World
cancelled_world = record { result = some (codes "cancelled"); locked = false; executions = [] }

abbrev both : List Process
both = runner RunnerAt.arriving ∷ owner OwnerAt.asking ∷ []

abbrev now : Moment
now = ready (some (codes "succeeded"))

-- The revocation comes first, then the runner.
abbrev revoked : List (ℕ × Moment)
revoked =
    (1, now)
    ∷ (1, now)
    ∷ (0, now)
    ∷ (0, now)
    ∷ (1, now)
    ∷ (1, now)
    ∷ (0, now)
    ∷ (0, now)
    ∷ (1, now)
    ∷ (0, now)
    ∷ []

-- A runner alone.
executed :
    (run
      ((0, now) ∷ (0, now) ∷ (0, now) ∷ (0, now) ∷ (0, now) ∷ (0, now) ∷ (0, now) ∷ [])
      (runner RunnerAt.arriving ∷ [])
      fresh_world)
    ≡ (
      runner (RunnerAt.finished (codes "succeeded")) ∷ [],
      record { result = some (codes "succeeded"); locked = false; executions = none ∷ [] },
    )
unfolding program
executed = refl

run-holders_example :
    holders (run revoked both fresh_world).0 ≤ as_number (run revoked both fresh_world).1.locked
unfolding program
run-holders_example = run-holders revoked both fresh_world (omega arith)

run-result_example : (run revoked both cancelled_world).1.result ≡ some (codes "cancelled")
run-result_example = run-result revoked both cancelled_world (codes "cancelled") refl

run-cancelled_example : (run revoked both fresh_world).1.result ≡ some (codes "cancelled")
unfolding program
run-cancelled_example = run-cancelled revoked both fresh_world refl refl

run-overtaken_example :
    (schedule : List (ℕ × Moment)) × (at : RunnerAt) × (let (ps', w') =
        run schedule both fresh_world in
      (ps' ≡ runner at ∷ owner (OwnerAt.answered (cancelled false)) ∷ [])
      × (w'.executions ≡ some (codes "cancelled") ∷ []))
run-overtaken_example = run-overtaken (some (codes "succeeded")) [] []
