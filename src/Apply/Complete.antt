-- ===== src/Apply/Complete.antt =====
-- `apply_files` where the system refuses one write at most (scripts/self_upgrade_runner.py).
use agenelf.Base.{
  ℕ, suc, ◌≤◌, ◌≡◌, refl, ◌∙◌, subst, ◌⊎◌, inl, inr, false, Option, Text, List, one_of, arith,
  Result, ok, err,
}
use agenelf.Upgrade.Changes.{ChangeRecord}
use agenelf.Apply.Disk.{WriteError, Disk}
use agenelf.Apply.Backup.{Backup, backup_targets}
use agenelf.Apply.Install.{
  ApplyError, not_backed_up, rolled_back, paths_of, install_all, after_rollback, finish,
  apply_backed_up, apply_files,
}
use agenelf.Apply.Restore.{entry_paths}
use agenelf.Apply.Installed.{Installed}
use agenelf.Apply.Atomic.{Atomic, apply_files-Atomic}
use agenelf.Apply.Steady.{refusals}
use agenelf.Apply.Refused.{
  AllReady, Finds, backup_targets-Steady, install_all-Steady, rollback-Steady, backup_targets-Finds,
}

module _ (resolve : Text → Option Text) (digest : Text → Text) where
  -- The end of a call with one refusal at most.
  abbrev Settles : List ChangeRecord → ℕ → Result ApplyError (List Text) → Type 0
  Settles rs n result =
      (result ≡ ok (paths_of rs))
      ⊎ ((n ≡ 1)
          × ((e : WriteError) × ((result ≡ err (not_backed_up e))
                ⊎ (result ≡ err (rolled_back e)))))

  finish-ok :
      (rs : List ChangeRecord) (b : Backup) (u : Unit {0}) (d : Disk)
      → (finish resolve digest (paths_of rs) b (ok u) d).0 ≡ ok (paths_of rs)
  unfolding finish
  finish-ok rs b u d = refl

  apply_backed_up-raised :
      (source : Text → Option Text) (rs : List ChangeRecord) (e : WriteError) (d : Disk)
      → (apply_backed_up resolve digest source rs (err e) d).0 ≡ err (not_backed_up e)
  unfolding apply_backed_up
  apply_backed_up-raised source rs e d = refl

  finish-Settles :
      (rs : List ChangeRecord) (b : Backup) (raised : WriteError) (n : ℕ) (d : Disk)
      → Finds resolve digest (entry_paths b.entries)
      → n ≤ 1
      → suc (refusals d.faults) ≡ n
      → Settles rs n (finish resolve digest (paths_of rs) b (err raised) d).0
  unfolding finish after_rollback
  finish-Settles rs b raised n d found few counts =
      elim (rollback-Steady resolve digest b.entries b.files d found) [
        | inl (u, undone, same) ↦ rw undone (inr (omega arith, (raised, inr refl)))
        | inr (e, again, more) ↦ absurd (omega arith)
      ]

  apply_backed_up-Settles :
      (source : Text → Option Text) (rs : List ChangeRecord) (n : ℕ) (b : Backup) (d : Disk)
      → AllReady resolve digest source rs
      → Finds resolve digest (entry_paths b.entries)
      → n ≤ 1
      → refusals d.faults ≡ n
      → Settles rs n (apply_backed_up resolve digest source rs (ok b) d).0
  unfolding apply_backed_up
  apply_backed_up-Settles source rs n b d ready found few counts =
      elim (install_all-Steady resolve digest source rs d ready) [
        | inl (u, went, same) ↦
            rw went (inl (finish-ok rs b u (install_all resolve digest source rs d).1))
        | inr (e, raised, more) ↦ rw raised (
            finish-Settles rs b e n (install_all resolve digest source rs d).1 found few
              (more ∙ counts))
      ]

  apply_files-Settles :
      (source : Text → Option Text) (id : Text) (rs : List ChangeRecord) (d : Disk)
      → one_of d.backups id ≡ false
      → AllReady resolve digest source rs
      → refusals d.faults ≤ 1
      → Settles rs (refusals d.faults) (apply_files resolve digest source id rs d).0
  unfolding apply_files
  apply_files-Settles source id rs d new ready few =
      let made = backup_targets resolve id rs d in
      elim (backup_targets-Steady resolve digest source id rs d new ready) [
        | inl (b, went, same) ↦
            let found = backup_targets-Finds resolve digest source id rs b d ready went in
            rw went
              (apply_backed_up-Settles source rs (refusals d.faults) b made.1 ready found few same)
        | inr (e, raised, counts) ↦
            rw raised (inr (omega arith, (e, inl (apply_backed_up-raised source rs e made.1))))
      ]

  -- Where the request has no backup yet, each record's name leads to a target and to a file of the
  -- candidate with the hash of the record, and the system refuses at most one of the writes:
  -- `apply_files` returns the paths of all records, and every file below the target is as it was,
  -- with no record leading to it, or it is the body that one of the records names, with its hash;
  -- or one write was refused, and every file is as it was. Two records may lead to one target.
  pub apply_files-all_or_none :
      (source : Text → Option Text) (id : Text) (rs : List ChangeRecord) (d : Disk)
      → one_of d.backups id ≡ false
      → AllReady resolve digest source rs
      → refusals d.faults ≤ 1
      → let after = apply_files resolve digest source id rs d in
        ((after.0 ≡ ok (paths_of rs))
          × ((q : Text) → Installed resolve digest source rs d.targets after.1.targets q))
        ⊎ ((refusals d.faults ≡ 1) × ((q : Text) → after.1.targets q ≡ d.targets q))
  apply_files-all_or_none source id rs d new ready few =
      let after = apply_files resolve digest source id rs d in
      let whole = apply_files-Atomic resolve digest source id rs d in
      let at = λ (r : Result ApplyError (List Text)).
        Atomic resolve digest source rs d.targets after.1.targets r in
      elim (apply_files-Settles source id rs d new ready few) [
        | inl done ↦ inl (done, (subst at done whole).1)
        | inr (one, (e, inl none_made)) ↦ inr (one, subst at none_made whole)
        | inr (one, (e, inr undone)) ↦ inr (one, subst at undone whole)
      ]
