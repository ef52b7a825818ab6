-- ===== src/Revocation/World.antt =====
-- What the processes of one request share: the result file and the lock file, and a record of the
-- executions, with the result that the directory held when each began.
use agenelf.Base.{Bool, true, false, Option, none, some, Text, List, ◌∷◌}

-- `result` is the status in the result file, if there is one.
pub record World : Type 0 where
  pub result : Option Text
  pub locked : Bool
  pub executions : List (Option Text)

-- `_authorization_state`.
pub data Authorization : Type 0 where
  pending denied invalid approved : Authorization

-- What a process finds at the time of a step: whether the runner's mode accepts the request,
-- whether the request has expired, whether it passes the validation, what the decision says, and
-- what the commands return; `none` is an exception. `vetoed` is a decision file that says "deny".
pub record Moment : Type 0 where
  pub accepted : Bool
  pub expired : Bool
  pub valid : Bool
  pub authorization : Authorization
  pub vetoed : Bool
  pub execution : Option Text

-- `os.open` with `O_CREAT | O_EXCL`: does this process create the lock file?
unfoldable pub claims : World → Bool
claims w = elim w.locked [ true ↦ false | false ↦ true ]

unfoldable pub lock : World → World
lock w = record w { locked = true }

-- `lock_path.unlink()`.
unfoldable pub unlock : World → World
unlock w = record w { locked = false }

-- `_atomic_json(..., exclusive=True)`: an existing file is kept.
unfoldable pub write_result : Text → World → World
write_result status w = elim w.result [ none ↦ record w { result = some status } | some before ↦ w ]

unfoldable pub execute : World → World
execute w = record w { executions = w.result ∷ w.executions }
