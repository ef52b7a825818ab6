-- ===== src/Apply/Install.antt =====
-- `apply_files` of scripts/self_upgrade_runner.py. The request and the session have passed the
-- checks before it.
use agenelf.Base.{
  Bool, true, false, not, Option, none, some, Text, List, [], ◌∷◌, codes, text_eq, one_of,
  starts_with, any, ◌||◌, Result, ok, err, Exec, continue,
}
use agenelf.Upgrade.Changes.{ChangeRecord}
use agenelf.Apply.Disk.{WriteError, post_write_mismatch, Disk, copy_body, target_path}
use agenelf.Apply.Backup.{Backup, backup_targets, rollback}

-- The error that leaves `apply_files`: raised before any write, while copying, with a rollback that
-- came to its end, or by the rollback.
pub data ApplyError : Type 0 where
  not_backed_up rolled_back rollback_failed : WriteError → ApplyError

unfoldable pub needs_restart : List Text → Bool
needs_restart = any (λ (path : Text). not (
    starts_with (codes "app/skills/") path
    || starts_with (codes "app/tests/") path
    || starts_with (codes "docs/") path
    || one_of (codes "README.md" ∷ codes "Makefile" ∷ []) path))

unfoldable pub paths_of : List ChangeRecord → List Text
paths_of [] = []
paths_of (r ∷ rs) = r.path ∷ paths_of rs

module _ (resolve : Text → Option Text) (digest : Text → Text) where
  unfoldable pub matches : Option Text → Text → Bool
  matches none after = false
  matches (some body) after = text_eq (digest body) after

  -- The hash of what stands at the target now. Hashing a file that is missing raises.
  unfoldable pub check_written : Bool → Exec Disk WriteError (Unit {0})
  check_written true d = (ok tt, d)
  check_written false d = (err post_write_mismatch, d)

  unfoldable pub install_at :
      ChangeRecord → Option Text → Result WriteError Text → Exec Disk WriteError (Unit {0})
  unfolding copy_body matches check_written
  install_at r source (err raised) d = (err raised, d)
  install_at r source (ok path) d =
      let (copied, d') = copy_body source path d in
      continue copied (λ _. check_written (matches (d'.targets path) r.after_sha256)) d'

  -- The loop. The working copy is read only.
  unfoldable pub install_all :
      (Text → Option Text) → List ChangeRecord → Exec Disk WriteError (Unit {0})
  unfolding install_at target_path
  install_all source [] d = (ok tt, d)
  install_all source (r ∷ rs) d =
      let (done, d') = install_at r (source r.path) (target_path resolve r.path) d in
      continue done (λ _. install_all source rs) d'

  unfoldable pub after_rollback :
      WriteError → Result WriteError (Unit {0}) → Result ApplyError (List Text)
  after_rollback raised (ok _) = err (rolled_back raised)
  after_rollback raised (err again) = err (rollback_failed again)

  unfoldable pub finish :
      List Text → Backup → Result WriteError (Unit {0}) → Exec Disk ApplyError (List Text)
  unfolding rollback after_rollback
  finish applied b (ok _) d = (ok applied, d)
  finish applied b (err raised) d =
      let (undone, d') = rollback resolve b.entries b.files d in (after_rollback raised undone, d')

  unfoldable pub apply_backed_up :
      (Text → Option Text)
      → List ChangeRecord
      → Result WriteError Backup
      → Exec Disk ApplyError (List Text)
  unfolding install_all finish paths_of
  apply_backed_up source records (err raised) d = (err (not_backed_up raised), d)
  apply_backed_up source records (ok b) d =
      let (done, d') = install_all source records d in finish (paths_of records) b done d'

  -- `apply_files`: the paths that were applied.
  unfoldable pub apply_files :
      (Text → Option Text) → Text → List ChangeRecord → Exec Disk ApplyError (List Text)
  unfolding backup_targets apply_backed_up
  apply_files source id records d =
      let (made, d') = backup_targets resolve id records d in apply_backed_up source records made d'
