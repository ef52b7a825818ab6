-- ===== src/Apply/Restore.antt =====
-- A rollback of the runner brings back what was there before (scripts/self_upgrade_runner.py).
use agenelf.Base.{
  ◌≡◌, refl, sym, ◌∙◌, Bool, true, false, Option, none, some, Text, List, [], ◌∷◌, text_eq,
  text_eq_iff, text_eq_refl, subst, arith, Bool-cases, Option-cases, inl, inr, Result, ok, err,
  continue-eq-ok,
}
use agenelf.Apply.Disk.{
  Store, WriteError, Disk, put_target, drop_file, next_write, write_target, copy_body, unlinked,
  unlink_target, target_path,
}
use agenelf.Apply.Backup.{BackupEntry, copy_back, restore, restore_entry, rollback}
use agenelf.Apply.Touch.{write_target-other, leads_to, touches}

-- An item of the backup tells what stood at a target.
pub record Tells (before : Option Text) (e : BackupEntry) (files : Store) : Type 0 where
  pub existed : (body : Text) → before ≡ some body → e.existed ≡ true
  pub kept : (body : Text) → before ≡ some body → files e.path ≡ some body
  pub absent : before ≡ none → e.existed ≡ false

abbrev pub TellsAt : Store → BackupEntry → Store → Result WriteError Text → Type 0
TellsAt before e files (err raised) = Unit {0}
TellsAt before e files (ok path) = Tells (before path) e files

unfoldable pub entry_paths : List BackupEntry → List Text
entry_paths [] = []
entry_paths (e ∷ es) = e.path ∷ entry_paths es

module _ (resolve : Text → Option Text) where
  abbrev pub Holds : Store → List BackupEntry → Store → Type 0
  Holds before [] files = Unit {0}
  Holds before (e ∷ es) files =
      TellsAt before e files (target_path resolve e.path) × Holds before es files

  put_target-same :
      (path body : Text) (files : Store) (q : Text)
      → text_eq q path ≡ true
      → put_target path body files q ≡ some body
  unfolding put_target
  put_target-same path body files q h = rw h refl

  write_target-back :
      (path body : Text) (go : Bool × List Bool) (d : Disk) (q : Text)
      → (write_target path body go d).0 ≡ ok tt
      → text_eq q path ≡ true
      → (write_target path body go d).1.targets q ≡ some body
  unfolding write_target
  write_target-back path body (false, faults) d q h k = ground arith
  write_target-back path body (true, faults) d q h k = put_target-same path body d.targets q k

  unlinked-gone :
      (path : Text) (go : Bool × List Bool) (d : Disk) (q : Text)
      → (unlinked path go d).0 ≡ ok tt
      → text_eq q path ≡ true
      → (unlinked path go d).1.targets q ≡ none
  unfolding unlinked drop_file
  unlinked-gone path (false, faults) d q h k = ground arith
  unlinked-gone path (true, faults) d q h k = rw k refl

  unlinked-elsewhere :
      (path : Text) (go : Bool × List Bool) (d : Disk) (q : Text)
      → text_eq q path ≡ false
      → (unlinked path go d).1.targets q ≡ d.targets q
  unfolding unlinked drop_file
  unlinked-elsewhere path (false, faults) d q k = refl
  unlinked-elsewhere path (true, faults) d q k = rw k refl

  pub restore-elsewhere :
      (existed : Bool) (body : Option Text) (path : Text) (d : Disk) (q : Text)
      → text_eq q path ≡ false
      → (restore resolve existed body path d).1.targets q ≡ d.targets q
  unfolding restore copy_back copy_body unlink_target
  restore-elsewhere true none path d q k = refl
  restore-elsewhere true (some body) path d q k =
      write_target-other path body (next_write d.faults) d q k
  restore-elsewhere false body path d q k = unlinked-elsewhere path (next_write d.faults) d q k

  restore-body :
      (existed : Bool) (kept : Option Text) (path body : Text) (d : Disk)
      → existed ≡ true
      → kept ≡ some body
      → (restore resolve existed kept path d).0 ≡ ok tt
      → (restore resolve existed kept path d).1.targets path ≡ some body
  unfolding restore copy_back copy_body
  restore-body false kept path body d e k h = ground arith
  restore-body true none path body d e k h = ground arith
  restore-body true (some other) path body d e k h =
      write_target-back path other (next_write d.faults) d path h (text_eq_refl path) ∙ k

  restore-none :
      (existed : Bool) (kept : Option Text) (path : Text) (d : Disk)
      → existed ≡ false
      → (restore resolve existed kept path d).0 ≡ ok tt
      → (restore resolve existed kept path d).1.targets path ≡ none
  unfolding restore unlink_target
  restore-none true kept path d e h = ground arith
  restore-none false kept path d e h =
      unlinked-gone path (next_write d.faults) d path h (text_eq_refl path)

  restore-back :
      (e : BackupEntry) (files before : Store) (path : Text) (d : Disk)
      → Tells (before path) e files
      → (restore resolve e.existed (files e.path) path d).0 ≡ ok tt
      → (restore resolve e.existed (files e.path) path d).1.targets path ≡ before path
  restore-back e files before path d t h = elim (Option-cases (before path)) [
    | inl none_there ↦
        restore-none e.existed (files e.path) path d (t.absent none_there) h ∙ sym none_there
    | inr (body, there) ↦
        restore-body e.existed (files e.path) path body d (t.existed body there) (t.kept body there)
          h
        ∙ sym there
  ]

  -- What holds after a turn: it was so before, or the turn brought it back.
  restore_entry-step :
      (e : BackupEntry) (files before : Store) (to : Result WriteError Text) (d : Disk) (q : Text)
      → TellsAt before e files to
      → (restore_entry resolve e files to d).0 ≡ ok tt
      → (leads_to to q ≡ false → d.targets q ≡ before q)
      → (restore_entry resolve e files to d).1.targets q ≡ before q
  unfolding restore_entry leads_to
  restore_entry-step e files before (err raised) d q t h same = ground arith
  restore_entry-step e files before (ok path) d q t h same = elim (Bool-cases (text_eq q path)) [
    | inl here ↦
        let at : q ≡ path = (text_eq_iff q path).0 here in
        subst
          (λ (p : Text). (restore resolve e.existed (files e.path) path d).1.targets p ≡ before p)
          (sym at) (restore-back e files before path d t h)
    | inr there ↦ restore-elsewhere e.existed (files e.path) path d q there ∙ same there
  ]

  -- A rollback that comes to its end leaves every file as the backup tells.
  pub rollback-restores :
      (es : List BackupEntry) (files before : Store) (d : Disk)
      → Holds before es files
      → (rollback resolve es files d).0 ≡ ok tt
      → ((q : Text) → touches resolve (entry_paths es) q ≡ false → d.targets q ≡ before q)
      → (q : Text) → (rollback resolve es files d).1.targets q ≡ before q
  unfolding rollback touches entry_paths
  rollback-restores [] files before d t h same q = same q refl
  rollback-restores (e ∷ es) files before d t h same q =
      let to = target_path resolve e.path in
      let step = restore_entry resolve e files to d in
      let (u, went, goes) = continue-eq-ok step.0 (λ _. rollback resolve es files) step.1 h in
      rw went (
        rollback-restores es files before step.1 t.1 goes
          (λ (p : Text) other.
            restore_entry-step e files before to d p t.0 went (λ here. same p (ground (arith))))
          q)
