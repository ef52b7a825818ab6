-- ===== src/Apply/Backup.antt =====
-- `backup_targets` and `rollback` of scripts/self_upgrade_runner.py. The files of one backup are
-- known by the names that the request gives them.
use agenelf.Base.{
  Bool, true, false, Option, none, some, Text, List, [], ◌∷◌, one_of, Result, ok, err, Exec,
  continue,
}
use agenelf.Upgrade.Changes.{ChangeRecord}
use agenelf.Apply.Disk.{
  Store, WriteError, os_error, backup_exists, Disk, put_target, next_write, copy_body,
  unlink_target, target_path,
}

-- An item of `files` in the manifest; its hash is written for people.
pub record BackupEntry : Type 0 where
  pub path : Text
  pub existed : Bool

-- A backup directory: the items come last first, as `rollback` reads them.
pub record Backup : Type 0 where
  pub entries : List BackupEntry
  pub files : Store

abbrev pub no_backup : Backup
no_backup = record { entries = []; files = λ q. none }

unfoldable pub saved : Text → Text → Backup → Bool × List Bool → Exec Disk WriteError Backup
unfolding put_target
saved relative body b (false, faults) d = (err os_error, record d { faults = faults })
saved relative body b (true, faults) d = (
  ok (record {
    entries = record { path = relative; existed = true } ∷ b.entries;
    files = put_target relative body b.files;
  }),
  record d { faults = faults },
)

-- The file that is there, or none, becomes an item of the backup.
unfoldable pub back_up : Text → Option Text → Backup → Exec Disk WriteError Backup
unfolding next_write saved
back_up relative none b d =
    (ok (record b { entries = record { path = relative; existed = false } ∷ b.entries }), d)
back_up relative (some body) b d = saved relative body b (next_write d.faults) d

unfoldable pub manifest_written : Backup → Bool × List Bool → Exec Disk WriteError Backup
manifest_written b (false, faults) d = (err os_error, record d { faults = faults })
manifest_written b (true, faults) d = (ok b, record d { faults = faults })

unfoldable pub with_manifest : Backup → Exec Disk WriteError Backup
unfolding next_write manifest_written
with_manifest b d = manifest_written b (next_write d.faults) d

module _ (resolve : Text → Option Text) where
  unfoldable pub back_up_at : Text → Result WriteError Text → Backup → Exec Disk WriteError Backup
  unfolding back_up
  back_up_at relative (err e) b d = (err e, d)
  back_up_at relative (ok path) b d = back_up relative (d.targets path) b d

  unfoldable pub back_up_all : List ChangeRecord → Backup → Exec Disk WriteError Backup
  unfolding back_up_at target_path
  back_up_all [] b d = (ok b, d)
  back_up_all (r ∷ rs) b d =
      let (made, d') = back_up_at r.path (target_path resolve r.path) b d in
      continue made (λ b'. back_up_all rs b') d'

  -- The directory is created, and must be new; the manifest is written at the end.
  unfoldable pub backup_in : Bool → Text → List ChangeRecord → Exec Disk WriteError Backup
  unfolding back_up_all with_manifest
  backup_in true id records d = (err backup_exists, d)
  backup_in false id records d =
      let (made, d') = back_up_all records no_backup (record d { backups = id ∷ d.backups }) in
      continue made with_manifest d'

  unfoldable pub backup_targets : Text → List ChangeRecord → Exec Disk WriteError Backup
  unfolding backup_in
  backup_targets id records d = backup_in (one_of d.backups id) id records d

  -- One turn of the loop of `rollback`.
  unfoldable pub copy_back : Option Text → Text → Exec Disk WriteError (Unit {0})
  unfolding copy_body
  copy_back none path d = (ok tt, d)
  copy_back (some body) path d = copy_body (some body) path d

  unfoldable pub restore : Bool → Option Text → Text → Exec Disk WriteError (Unit {0})
  unfolding copy_back unlink_target
  restore true body path d = copy_back body path d
  restore false body path d = unlink_target path d

  unfoldable pub restore_entry :
      BackupEntry → Store → Result WriteError Text → Exec Disk WriteError (Unit {0})
  unfolding restore
  restore_entry e files (err raised) d = (err raised, d)
  restore_entry e files (ok path) d = restore e.existed (files e.path) path d

  unfoldable pub rollback : List BackupEntry → Store → Exec Disk WriteError (Unit {0})
  unfolding restore_entry target_path
  rollback [] files d = (ok tt, d)
  rollback (e ∷ es) files d =
      let (done, d') = restore_entry e files (target_path resolve e.path) d in
      continue done (λ _. rollback es files) d'
