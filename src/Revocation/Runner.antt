-- ===== src/Revocation/Runner.antt =====
-- `process_request` of the runner, cut at each call that touches the result or the lock
-- (scripts/ops_runner_entry.py, scripts/ops_runner.py).
use agenelf.Base.{none, some, Text, codes, is_some, if◌then◌else◌}
use agenelf.Revocation.World.{
  World, Moment, pending, denied, invalid, approved, claims, lock, unlock, write_result, execute,
}

-- Where a runner is. The first four points belong to the lifecycle's method, the others to the
-- method that it calls; `unlocking` is the `finally` of both.
pub data RunnerAt : Type 0 where
  arriving expiring closing : RunnerAt
  looking claiming deciding starting failing : RunnerAt
  writing unlocking finished : Text → RunnerAt

-- Past the checks that come before a lock.
unfoldable pub after_arrival : Moment → World → RunnerAt
after_arrival m w =
    if m.accepted
    then (if is_some w.result
        then finished (codes "done")
        else if m.expired
        then expiring
        else looking)
    else finished (codes "skipped")

unfoldable pub after_decision : Moment → RunnerAt
after_decision m =
    if m.valid
    then (elim m.authorization [
      | pending ↦ unlocking (codes "pending")
      | denied ↦ writing (codes "blocked")
      | invalid ↦ writing (codes "blocked")
      | approved ↦ starting
    ])
    else failing

unfoldable pub after_execution : Moment → RunnerAt
after_execution m = elim m.execution [ none ↦ failing | some status ↦ writing status ]

-- An exclusive write raises where a result exists.
unfoldable pub after_writing : Text → World → RunnerAt
after_writing status w = if is_some w.result then failing else unlocking status

unfoldable pub after_closing : World → RunnerAt
after_closing w = if is_some w.result then unlocking (codes "done") else unlocking (codes "expired")

unfoldable pub take_lock : {A : Type 0} → A → A → World → A × World
unfolding claims lock
take_lock holding refused w = if claims w then (holding, lock w) else (refused, w)

unfoldable pub runner_step : Moment → RunnerAt → World → RunnerAt × World
unfolding after_arrival after_decision after_execution after_writing after_closing take_lock unlock
    write_result execute
runner_step m arriving w = (after_arrival m w, w)
runner_step m expiring w = take_lock closing (finished (codes "locked")) w
runner_step m closing w = (after_closing w, write_result (codes "expired") w)
runner_step m looking w = (if is_some w.result then finished (codes "done") else claiming, w)
runner_step m claiming w = take_lock deciding (finished (codes "locked")) w
runner_step m deciding w = (after_decision m, w)
runner_step m starting w = (after_execution m, execute w)
runner_step m (writing status) w = (after_writing status w, write_result status w)
runner_step m failing w = (unlocking (codes "failed"), write_result (codes "failed") w)
runner_step m (unlocking answer) w = (finished answer, unlock w)
runner_step m (finished answer) w = (finished answer, w)
