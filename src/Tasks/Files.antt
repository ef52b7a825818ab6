-- ===== src/Tasks/Files.antt =====
-- The task files and the record keeping of `TaskEngine`: `_task_path`, `get`, `_write`, `_audit`,
-- `_check_revision` and `_event` of app/core/task_engine.py.
use agenelf.Base.{
  ℕ, ◌+◌, Bool, not, Option, none, some, Text, List, [], ◌∷◌, ◌++◌, codes, text_eq, ◌==◌,
  if◌then◌else◌, strip, after_prefix, matches_hex, last_items, Result, ok, err, Exec, lift, modify,
  gets, ◌>>=◌, ◌>>◌,
}
use agenelf.Tasks.Data.{
  Task, EventKind, TaskError, illegal_task_id, missing_task, unreadable_file, malformed_file, File,
  unreadable, malformed, stored, AuditLine, Engine,
}

-- `_TASK_ID_RE.fullmatch`.
unfoldable pub is_task_id : Text → Bool
is_task_id = after_prefix (codes "task-") (matches_hex 16)

-- `_task_path`: the file's name without `.json`.
unfoldable pub task_path : Text → Result TaskError Text
unfolding is_task_id
task_path task_id =
    let name = strip task_id in if is_task_id name then ok name else err illegal_task_id

unfoldable pub find_file : Text → List (Text × File) → Option File
find_file name [] = none
find_file name ((other, file) ∷ files) =
    if text_eq other name then some file else find_file name files

-- `os.replace`: the file's content is the new one, and no other file changes.
unfoldable pub put_file : Text → File → List (Text × File) → List (Text × File)
put_file name file [] = (name, file) ∷ []
put_file name file ((other, old) ∷ files) =
    if text_eq other name then (name, file) ∷ files else (other, old) ∷ put_file name file files

-- What `get` makes of the file that it finds.
unfoldable pub read_task : Text → Option File → Result TaskError Task
read_task task_id none = err missing_task
read_task task_id (some unreadable) = err unreadable_file
read_task task_id (some malformed) = err malformed_file
read_task task_id (some (stored task)) =
    if text_eq task.id task_id then ok task else err malformed_file

unfoldable pub get : Text → Exec Engine TaskError Task
unfolding task_path find_file read_task
get task_id = do
  name ← lift (task_path task_id)
  file ← gets (λ s. find_file name s.files)
  lift (read_task task_id file)

-- `_write` leaves its mark in the task that the caller goes on with.
unfoldable pub write : ℕ → Task → Exec Engine TaskError Task
unfolding task_path put_file
write now task = do
  let touched = record task { updated_at = now }
  name ← lift (task_path task.id)
  modify (λ s. record s { files = put_file name (stored touched) s.files })
  λ s. (ok touched, s)

unfoldable pub note_audit : AuditLine → Exec Engine TaskError (Unit {0})
note_audit line = modify (λ s. record s { audit = s.audit ++ line ∷ [] })

-- The test of `_check_revision`: is there a conflict?
unfoldable pub revision_differs : Option ℕ → Task → Bool
revision_differs none task = Bool.false
revision_differs (some expected) task = not (expected == task.revision)

-- `_event`: at most 200 events are kept, and the revision grows by one.
unfoldable pub record_event : ℕ → EventKind → Text → Task → Task
record_event now event detail task = record task {
  events = last_items 200 (task.events ++ record { at = now; event = event; detail = detail } ∷ []);
  revision = task.revision + 1;
}
