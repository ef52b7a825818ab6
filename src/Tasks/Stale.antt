-- ===== src/Tasks/Stale.antt =====
-- Revisions over any sequence of calls of the task engine (app/core/task_engine.py): the optimistic
-- lock of `expected_revision`, across later calls by any clients.
use agenelf.Base.{ℕ, ◌<◌, ◌≡◌, Text, ok}
use agenelf.Tasks.Data.{Task, Engine}
use agenelf.Tasks.Files.{get}
use agenelf.Tasks.Reach.{Reach}

-- The task under `id` can be read, and its revision is above `r`.
record IsAhead (id : Text) (r : ℕ) (s : Engine) : Type 0 where
  pub task : Task
  pub read : (get id s).0 ≡ ok task
  pub above : r < task.revision
