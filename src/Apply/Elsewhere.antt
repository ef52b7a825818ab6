-- ===== src/Apply/Elsewhere.antt =====
-- `apply_files` writes to the targets of its records only, whatever fails
-- (scripts/self_upgrade_runner.py).
use agenelf.Base.{
  ◌≡◌, refl, ap, ◌∙◌, false, Option, Text, List, [], ◌∷◌, one_of, arith, inl, inr, Result, ok, err,
  Result-cases,
}
use agenelf.Upgrade.Changes.{ChangeRecord}
use agenelf.Apply.Disk.{Store, WriteError, Disk, target_path}
use agenelf.Apply.Backup.{BackupEntry, Backup, restore_entry, rollback, backup_in, backup_targets}
use agenelf.Apply.Install.{paths_of, install_all, finish, apply_backed_up, apply_files}
use agenelf.Apply.Touch.{leads_to, touches, install_all-other}
use agenelf.Apply.Restore.{entry_paths, restore-elsewhere}
use agenelf.Apply.Atomic.{IsBackup, backup_in-targets, backup_in-IsBackup}

module _ (resolve : Text → Option Text) where
  restore_entry-other :
      (e : BackupEntry) (files : Store) (to : Result WriteError Text) (d : Disk) (q : Text)
      → leads_to to q ≡ false
      → (restore_entry resolve e files to d).1.targets q ≡ d.targets q
  unfolding restore_entry leads_to
  restore_entry-other e files (err raised) d q h = refl
  restore_entry-other e files (ok path) d q h =
      restore-elsewhere resolve e.existed (files e.path) path d q h

  rollback-other :
      (es : List BackupEntry) (files : Store) (d : Disk) (q : Text)
      → touches resolve (entry_paths es) q ≡ false
      → (rollback resolve es files d).1.targets q ≡ d.targets q
  unfolding rollback touches entry_paths
  rollback-other [] files d q h = refl
  rollback-other (e ∷ es) files d q h =
      let to = target_path resolve e.path in
      let step = restore_entry resolve e files to d in
      let same = restore_entry-other e files to d q (ground arith) in
      elim (Result-cases step.0) [
        | inl (u, went) ↦ rw went (rollback-other es files step.1 q (ground arith) ∙ same)
        | inr (raised, e) ↦ rw e same
      ]

  module _ (digest : Text → Text) where
    finish-other :
        (applied : List Text) (b : Backup) (done : Result WriteError (Unit {0})) (d : Disk)
        (q : Text)
        → touches resolve (entry_paths b.entries) q ≡ false
        → (finish resolve digest applied b done d).1.targets q ≡ d.targets q
    unfolding finish
    finish-other applied b (ok _) d q h = refl
    finish-other applied b (err raised) d q h = rollback-other b.entries b.files d q h

    apply_backed_up-other :
        (source : Text → Option Text) (rs : List ChangeRecord) (before : Store)
        (made : Result WriteError Backup) (d : Disk) (q : Text)
        → touches resolve (paths_of rs) q ≡ false
        → ((b : Backup) → made ≡ ok b → IsBackup resolve digest before rs b)
        → (apply_backed_up resolve digest source rs made d).1.targets q ≡ d.targets q
    unfolding apply_backed_up
    apply_backed_up-other source rs before (err e) d q h is = refl
    apply_backed_up-other source rs before (ok b) d q h is =
        let step = install_all resolve digest source rs d in
        finish-other (paths_of rs) b step.0 step.1 q ((is b refl).covered q h)
        ∙ install_all-other resolve digest source rs d q h

    pub apply_files-other :
        (source : Text → Option Text) (id : Text) (rs : List ChangeRecord) (d : Disk) (q : Text)
        → touches resolve (paths_of rs) q ≡ false
        → (apply_files resolve digest source id rs d).1.targets q ≡ d.targets q
    unfolding apply_files backup_targets
    apply_files-other source id rs d q h =
        let there = one_of d.backups id in
        let made = backup_in resolve there id rs d in
        apply_backed_up-other source rs d.targets made.0 made.1 q h
          (λ b e. backup_in-IsBackup resolve digest there id rs b d e)
        ∙ ap (λ (f : Store). f q) (backup_in-targets resolve digest there id rs d)
