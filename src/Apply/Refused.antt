-- ===== src/Apply/Refused.antt =====
-- The loops of `apply_files` where the system refuses writes (scripts/self_upgrade_runner.py).
use agenelf.Base.{
  ◌≡◌, refl, ap, sym, ◌∙◌, subst, inl, Bool, true, false, Option, Text, List, [], ◌∷◌, one_of,
  arith, ok, continue-eq-ok,
}
use agenelf.Upgrade.Changes.{ChangeRecord}
use agenelf.Apply.Disk.{Store, Disk, next_write, target_path}
use agenelf.Apply.Backup.{
  Backup, BackupEntry, no_backup, back_up_at, back_up_all, backup_in, backup_targets, with_manifest,
  restore_entry, rollback,
}
use agenelf.Apply.Install.{install_at, install_all}
use agenelf.Apply.Restore.{Holds, entry_paths}
use agenelf.Apply.Keeping.{back_up_at-Told}
use agenelf.Apply.Atomic.{manifest_written-same}
use agenelf.Apply.Steady.{
  refusals, Steady, continue-Steady, with_manifest-Steady, back_up_at-Steady, restore_entry-Steady,
  Ready, install_at-Steady,
}

module _ (resolve : Text → Option Text) (digest : Text → Text) where
  abbrev pub AllReady : (Text → Option Text) → List ChangeRecord → Type 0
  AllReady source [] = Unit {0}
  AllReady source (r ∷ rs) = Ready resolve digest source r × AllReady source rs

  back_up_all-Steady :
      (source : Text → Option Text) (rs : List ChangeRecord) (b : Backup) (d : Disk)
      → AllReady source rs
      → Steady (refusals d.faults) (back_up_all resolve rs b d)
  unfolding back_up_all
  back_up_all-Steady source [] b d h = inl (b, refl, refl)
  back_up_all-Steady source (r ∷ rs) b d h =
      let step = back_up_at resolve r.path (target_path resolve r.path) b d in
      continue-Steady (refusals d.faults) step (λ c. back_up_all resolve rs c)
        (back_up_at-Steady resolve digest r.path h.0.path (target_path resolve r.path) b d
          h.0.target)
        (λ c _. back_up_all-Steady source rs c step.1 h.1)

  pub backup_targets-Steady :
      (source : Text → Option Text) (id : Text) (rs : List ChangeRecord) (d : Disk)
      → one_of d.backups id ≡ false
      → AllReady source rs
      → Steady (refusals d.faults) (backup_targets resolve id rs d)
  unfolding backup_targets backup_in
  backup_targets-Steady source id rs d new h =
      let fresh : Disk = record d { backups = id ∷ d.backups } in
      let step = back_up_all resolve rs no_backup fresh in
      rw new (
        continue-Steady (refusals d.faults) step with_manifest
          (back_up_all-Steady source rs no_backup fresh h) (λ b _. with_manifest-Steady b step.1))

  pub install_all-Steady :
      (source : Text → Option Text) (rs : List ChangeRecord) (d : Disk)
      → AllReady source rs
      → Steady (refusals d.faults) (install_all resolve digest source rs d)
  unfolding install_all
  install_all-Steady source [] d h = inl (tt, refl, refl)
  install_all-Steady source (r ∷ rs) d h =
      let step = install_at resolve digest r (source r.path) (target_path resolve r.path) d in
      continue-Steady (refusals d.faults) step (λ _. install_all resolve digest source rs)
        (install_at-Steady resolve digest r source d h.0)
        (λ _ _. install_all-Steady source rs step.1 h.1)

  -- Every item leads to a target.
  abbrev pub Finds : List Text → Type 0
  Finds [] = Unit {0}
  Finds (name ∷ names) = ((path : Text) × (target_path resolve name ≡ ok path)) × Finds names

  pub rollback-Steady :
      (es : List BackupEntry) (files : Store) (d : Disk)
      → Finds (entry_paths es)
      → Steady (refusals d.faults) (rollback resolve es files d)
  unfolding rollback entry_paths
  rollback-Steady [] files d h = inl (tt, refl, refl)
  rollback-Steady (e ∷ es) files d h =
      let step = restore_entry resolve e files (target_path resolve e.path) d in
      continue-Steady (refusals d.faults) step (λ _. rollback resolve es files)
        (restore_entry-Steady resolve digest e files h.0.0 (target_path resolve e.path) d h.0.1)
        (λ _ _. rollback-Steady es files step.1 h.1)

  back_up_all-Finds :
      (source : Text → Option Text) (before : Store) (rs : List ChangeRecord) (b b' : Backup)
      (d : Disk)
      → AllReady source rs
      → before ≡ d.targets
      → Holds resolve before b.entries b.files
      → (back_up_all resolve rs b d).0 ≡ ok b'
      → Finds (entry_paths b.entries)
      → Finds (entry_paths b'.entries)
  unfolding back_up_all
  back_up_all-Finds source before [] b b' d ready here t h found =
      let made : b ≡ b' = ground arith in
      subst (λ (x : Backup). Finds (entry_paths x.entries)) made found
  back_up_all-Finds source before (r ∷ rs) b b' d ready here t h found =
      let to = target_path resolve r.path in
      let step = back_up_at resolve r.path to b d in
      let (c, made, goes) = continue-eq-ok step.0 (λ c. back_up_all resolve rs c) step.1 h in
      let told = back_up_at-Told resolve before r.path to b c d refl here t made in
      back_up_all-Finds source before rs c b' step.1 ready.1 (here ∙ sym told.same) told.holds goes
        (subst Finds (sym told.named) ((ready.0.path, ready.0.target), found))

  backup_in-Finds :
      (source : Text → Option Text) (there : Bool) (id : Text) (rs : List ChangeRecord) (b : Backup)
      (d : Disk)
      → AllReady source rs
      → (backup_in resolve there id rs d).0 ≡ ok b
      → Finds (entry_paths b.entries)
  unfolding backup_in with_manifest entry_paths
  backup_in-Finds source true id rs b d ready h = absurd (ground arith)
  backup_in-Finds source false id rs b d ready h =
      let fresh : Disk = record d { backups = id ∷ d.backups } in
      let step = back_up_all resolve rs no_backup fresh in
      let (c, made, goes) = continue-eq-ok step.0 with_manifest step.1 h in
      let same : c ≡ b = manifest_written-same c b (next_write step.1.faults) step.1 goes in
      back_up_all-Finds source d.targets rs no_backup b fresh ready refl tt (made ∙ ap ok same) tt

  pub backup_targets-Finds :
      (source : Text → Option Text) (id : Text) (rs : List ChangeRecord) (b : Backup) (d : Disk)
      → AllReady source rs
      → (backup_targets resolve id rs d).0 ≡ ok b
      → Finds (entry_paths b.entries)
  unfolding backup_targets
  backup_targets-Finds source id rs b d ready h =
      backup_in-Finds source (one_of d.backups id) id rs b d ready h
