-- ===== src/Apply/Atomic.antt =====
-- `apply_files` changes all files or none (scripts/self_upgrade_runner.py).
use agenelf.Base.{
  subst, ◌≡◌, refl, ap, sym, ◌∙◌, Bool, true, false, inl, inr, Option, Text, List, ◌∷◌, one_of,
  arith, Result, ok, err, Result-cases, continue-eq-ok,
}
use agenelf.Upgrade.Changes.{ChangeRecord}
use agenelf.Apply.Disk.{Store, WriteError, Disk, next_write}
use agenelf.Apply.Backup.{
  Backup, no_backup, back_up_all, backup_in, backup_targets, manifest_written, with_manifest,
  rollback,
}
use agenelf.Apply.Install.{
  ApplyError, not_backed_up, rolled_back, rollback_failed, paths_of, install_all, after_rollback,
  finish, apply_backed_up, apply_files,
}
use agenelf.Apply.Touch.{touches, install_all-other}
use agenelf.Apply.Installed.{Installed, install_all-Installed}
use agenelf.Apply.Restore.{Holds, entry_paths, rollback-restores}
use agenelf.Apply.BackedUp.{back_up_all-targets, back_up_all-Holds, back_up_all-named}

manifest_written-targets :
    (b : Backup) (go : Bool × List Bool) (d : Disk)
    → (manifest_written b go d).1.targets ≡ d.targets
unfolding manifest_written
manifest_written-targets b (false, faults) d = refl
manifest_written-targets b (true, faults) d = refl

pub manifest_written-same :
    (b b' : Backup) (go : Bool × List Bool) (d : Disk)
    → (manifest_written b go d).0 ≡ ok b'
    → b ≡ b'
unfolding manifest_written
manifest_written-same b b' (false, faults) d h = ground arith
manifest_written-same b b' (true, faults) d h = ground arith

module _ (resolve : Text → Option Text) (digest : Text → Text) where
  pub backup_in-targets :
      (there : Bool) (id : Text) (rs : List ChangeRecord) (d : Disk)
      → (backup_in resolve there id rs d).1.targets ≡ d.targets
  unfolding backup_in with_manifest
  backup_in-targets true id rs d = refl
  backup_in-targets false id rs d =
      let fresh : Disk = record d { backups = id ∷ d.backups } in
      let step = back_up_all resolve rs no_backup fresh in
      elim (Result-cases step.0) [
        | inl (b, made) ↦ rw made (
            manifest_written-targets b (next_write step.1.faults) step.1
            ∙ back_up_all-targets resolve d.targets rs no_backup fresh)
        | inr (raised, e) ↦ rw e (back_up_all-targets resolve d.targets rs no_backup fresh)
      ]

  -- A backup tells what stands at the targets of all records.
  pub record IsBackup (before : Store) (rs : List ChangeRecord) (b : Backup) : Type 0 where
    pub holds : Holds resolve before b.entries b.files
    pub covers :
        (q : Text)
        → touches resolve (entry_paths b.entries) q ≡ false
        → touches resolve (paths_of rs) q ≡ false
    pub covered :
        (q : Text)
        → touches resolve (paths_of rs) q ≡ false
        → touches resolve (entry_paths b.entries) q ≡ false

  pub backup_in-IsBackup :
      (there : Bool) (id : Text) (rs : List ChangeRecord) (b : Backup) (d : Disk)
      → (backup_in resolve there id rs d).0 ≡ ok b
      → IsBackup d.targets rs b
  unfolding backup_in with_manifest touches entry_paths
  backup_in-IsBackup true id rs b d h = ground arith
  backup_in-IsBackup false id rs b d h =
      let fresh : Disk = record d { backups = id ∷ d.backups } in
      let step = back_up_all resolve rs no_backup fresh in
      let (c, made, goes) = continue-eq-ok step.0 with_manifest step.1 h in
      let same : c ≡ b = manifest_written-same c b (next_write step.1.faults) step.1 goes in
      let (holds, free) =
        back_up_all-Holds resolve d.targets rs no_backup b fresh refl tt (made ∙ ap ok same) in
      record {
        holds = holds;
        covers = λ q h. (free q h).0;
        covered = λ q h.
            back_up_all-named resolve d.targets rs no_backup b fresh q refl tt (made ∙ ap ok same) h
              refl;
      }

  -- What a rollback leaves, if it comes to its end.
  finish-same :
      (source : Text → Option Text) (rs : List ChangeRecord) (b : Backup) (d : Disk)
      → IsBackup d.targets rs b
      → let step = install_all resolve digest source rs d in
        (rollback resolve b.entries b.files step.1).0 ≡ ok tt
        → (q : Text) → (rollback resolve b.entries b.files step.1).1.targets q ≡ d.targets q
  finish-same source rs b d is h q =
      let step = install_all resolve digest source rs d in
      rollback-restores resolve b.entries b.files d.targets step.1 is.holds h
        (λ (p : Text) free. install_all-other resolve digest source rs d p (is.covers p free)) q

  -- All files of the records, or none of them.
  abbrev pub Atomic :
      (Text → Option Text)
      → List ChangeRecord
      → Store
      → Store
      → Result ApplyError (List Text)
      → Type 0
  Atomic source rs before after (ok applied) =
      (applied ≡ paths_of rs) × ((q : Text) → Installed resolve digest source rs before after q)
  Atomic source rs before after (err (not_backed_up e)) = (q : Text) → after q ≡ before q
  Atomic source rs before after (err (rolled_back e)) = (q : Text) → after q ≡ before q
  Atomic source rs before after (err (rollback_failed e)) = Unit {0}

  after_rollback-Atomic :
      (source : Text → Option Text) (rs : List ChangeRecord) (before after : Store)
      (raised : WriteError) (undone : Result WriteError (Unit {0}))
      → (undone ≡ ok tt → (q : Text) → after q ≡ before q)
      → Atomic source rs before after (after_rollback resolve digest raised undone)
  unfolding after_rollback
  after_rollback-Atomic source rs before after raised (ok _) same = same refl
  after_rollback-Atomic source rs before after raised (err e) same = tt

  finish-Atomic :
      (source : Text → Option Text) (rs : List ChangeRecord) (b : Backup) (d : Disk)
      → IsBackup d.targets rs b
      → (done : Result WriteError (Unit {0})) → (install_all resolve digest source rs d).0 ≡ done
      → let after =
          finish resolve digest (paths_of rs) b done (install_all resolve digest source rs d).1 in
        Atomic source rs d.targets after.1.targets after.0
  unfolding finish
  finish-Atomic source rs b d is (ok _) h =
      (refl, install_all-Installed resolve digest source rs d h)
  finish-Atomic source rs b d is (err raised) h =
      after_rollback-Atomic source rs d.targets _ raised _ (finish-same source rs b d is)

  apply_backed_up-Atomic :
      (source : Text → Option Text) (rs : List ChangeRecord) (before : Store)
      (made : Result WriteError Backup) (d : Disk)
      → d.targets ≡ before
      → ((b : Backup) → made ≡ ok b → IsBackup before rs b)
      → let after = apply_backed_up resolve digest source rs made d in
        Atomic source rs before after.1.targets after.0
  unfolding apply_backed_up
  apply_backed_up-Atomic source rs before (err e) d same is = λ q. ap (λ (f : Store). f q) same
  apply_backed_up-Atomic source rs before (ok b) d same is =
      subst
        (λ (t : Store).
          let after = apply_backed_up resolve digest source rs (ok b) d in
          Atomic source rs t after.1.targets after.0)
        same
        (finish-Atomic source rs b d (subst (λ (t : Store). IsBackup t rs b) (sym same) (is b refl))
          _ refl)

  -- `apply_files` returns the paths of all its records, and then every file below the target is as
  -- it was and no record leads to it, or it is the body of the candidate that one of the records
  -- names, with the hash of that record. Where it raises, before the first write or after a
  -- rollback that came to its end, every file is as it was. An error that the rollback itself
  -- raises is left open.
  pub apply_files-Atomic :
      (source : Text → Option Text) (id : Text) (rs : List ChangeRecord) (d : Disk)
      → let after = apply_files resolve digest source id rs d in
        Atomic source rs d.targets after.1.targets after.0
  unfolding apply_files backup_targets
  apply_files-Atomic source id rs d =
      let there = one_of d.backups id in
      apply_backed_up-Atomic source rs d.targets (backup_in resolve there id rs d).0
        (backup_in resolve there id rs d).1 (backup_in-targets there id rs d)
        (λ b made. backup_in-IsBackup there id rs b d made)
