-- ===== src/Apply/Steady.antt =====
-- Writes that the system refuses, counted along a call of the runner
-- (scripts/self_upgrade_runner.py).
use agenelf.Base.{
  ℕ, suc, ◌≡◌, refl, ap, sym, ◌∙◌, ◌⊎◌, inl, inr, Bool, true, false, Option, none, some, Text, List,
  [], ◌∷◌, text_eq, text_eq_iff, arith, Result, ok, err, Exec, continue,
}
use agenelf.Upgrade.Changes.{ChangeRecord}
use agenelf.Apply.Disk.{
  WriteError, os_error, Disk, next_write, write_target, unlinked, unlink_target, target_path,
  copy_body,
}
use agenelf.Apply.Backup.{
  Backup, BackupEntry, saved, back_up, back_up_at, manifest_written, with_manifest, copy_back,
  restore, restore_entry,
}
use agenelf.Apply.Install.{matches, check_written, install_at}
use agenelf.Apply.Installed.{copied-body}

unfoldable pub refusals : List Bool → ℕ
refusals [] = 0
refusals (true ∷ faults) = suc (refusals faults)
refusals (false ∷ faults) = refusals faults

-- A call that succeeds meets no refusal, and one that raises meets one.
abbrev pub Steady : {A : Type 0} → ℕ → Result WriteError A × Disk → Type 0
Steady {A} n m =
    ((a : A) × (m.0 ≡ ok a) × (refusals m.1.faults ≡ n))
    ⊎ ((e : WriteError) × (m.0 ≡ err e) × (suc (refusals m.1.faults) ≡ n))

pub continue-Steady :
    {A B : Type 0} (n : ℕ) (m : Result WriteError A × Disk) (f : A → Exec Disk WriteError B)
    → Steady n m
    → ((a : A) → m.0 ≡ ok a → Steady (refusals m.1.faults) (f a m.1))
    → Steady n (continue m.0 f m.1)
continue-Steady n m f (inr (e, raised, counts)) next = rw raised (inr (e, refl, counts))
continue-Steady n m f (inl (a, went, same)) next = rw went (elim (next a went) [
  | inl (b, done, still) ↦ inl (b, done, still ∙ same)
  | inr (e, raised, counts) ↦ inr (e, raised, counts ∙ same)
])

-- The answer to a write, and the refusals that are left after it.
abbrev Fits : ℕ → Bool × List Bool → Type 0
Fits n (true, faults) = refusals faults ≡ n
Fits n (false, faults) = suc (refusals faults) ≡ n

next_write-Fits : (faults : List Bool) → Fits (refusals faults) (next_write faults)
unfolding next_write refusals
next_write-Fits [] = refl
next_write-Fits (true ∷ faults) = refl
next_write-Fits (false ∷ faults) = refl

write_target-Steady :
    (n : ℕ) (path body : Text) (go : Bool × List Bool) (d : Disk)
    → Fits n go
    → Steady n (write_target path body go d)
unfolding write_target
write_target-Steady n path body (true, faults) d h = inl (tt, refl, h)
write_target-Steady n path body (false, faults) d h = inr (os_error, refl, h)

unlinked-Steady :
    (n : ℕ) (path : Text) (go : Bool × List Bool) (d : Disk)
    → Fits n go
    → Steady n (unlinked path go d)
unfolding unlinked
unlinked-Steady n path (true, faults) d h = inl (tt, refl, h)
unlinked-Steady n path (false, faults) d h = inr (os_error, refl, h)

manifest_written-Steady :
    (n : ℕ) (b : Backup) (go : Bool × List Bool) (d : Disk)
    → Fits n go
    → Steady n (manifest_written b go d)
unfolding manifest_written
manifest_written-Steady n b (true, faults) d h = inl (b, refl, h)
manifest_written-Steady n b (false, faults) d h = inr (os_error, refl, h)

saved-Steady :
    (n : ℕ) (name body : Text) (b : Backup) (go : Bool × List Bool) (d : Disk)
    → Fits n go
    → Steady n (saved name body b go d)
unfolding saved
saved-Steady n name body b (true, faults) d h = inl (_, refl, h)
saved-Steady n name body b (false, faults) d h = inr (os_error, refl, h)

pub with_manifest-Steady : (b : Backup) (d : Disk) → Steady (refusals d.faults) (with_manifest b d)
unfolding with_manifest
with_manifest-Steady b d = manifest_written-Steady _ b _ d (next_write-Fits d.faults)

back_up-Steady :
    (name : Text) (there : Option Text) (b : Backup) (d : Disk)
    → Steady (refusals d.faults) (back_up name there b d)
unfolding back_up
back_up-Steady name none b d = inl (_, refl, refl)
back_up-Steady name (some body) b d = saved-Steady _ name body b _ d (next_write-Fits d.faults)

copy_body-Steady :
    (source : Option Text) (body path : Text) (d : Disk)
    → source ≡ some body
    → Steady (refusals d.faults) (copy_body source path d)
unfolding copy_body
copy_body-Steady none body path d h = absurd (ground arith)
copy_body-Steady (some other) body path d h =
    write_target-Steady _ path other _ d (next_write-Fits d.faults)

module _ (resolve : Text → Option Text) (digest : Text → Text) where
  pub back_up_at-Steady :
      (name path : Text) (to : Result WriteError Text) (b : Backup) (d : Disk)
      → to ≡ ok path
      → Steady (refusals d.faults) (back_up_at resolve name to b d)
  unfolding back_up_at
  back_up_at-Steady name path (err e) b d h = absurd (ground arith)
  back_up_at-Steady name path (ok other) b d h = back_up-Steady name (d.targets other) b d

  restore-Steady :
      (existed : Bool) (body : Option Text) (path : Text) (d : Disk)
      → Steady (refusals d.faults) (restore resolve existed body path d)
  unfolding restore copy_back copy_body unlink_target
  restore-Steady true none path d = inl (tt, refl, refl)
  restore-Steady true (some body) path d =
      write_target-Steady _ path body _ d (next_write-Fits d.faults)
  restore-Steady false body path d = unlinked-Steady _ path _ d (next_write-Fits d.faults)

  pub restore_entry-Steady :
      (e : BackupEntry) (files : Text → Option Text) (path : Text) (to : Result WriteError Text)
      (d : Disk)
      → to ≡ ok path
      → Steady (refusals d.faults) (restore_entry resolve e files to d)
  unfolding restore_entry
  restore_entry-Steady e files path (err raised) d h = absurd (ground arith)
  restore_entry-Steady e files path (ok other) d h = restore-Steady e.existed (files e.path) other d

  check_written-match :
      (b : Bool) (d : Disk) → b ≡ true → check_written resolve digest b d ≡ (ok tt, d)
  unfolding check_written
  check_written-match true d h = refl
  check_written-match false d h = ground arith

  -- The checks of `verify_candidate` on one record: its name leads to a target, and the candidate
  -- has the file with the hash of the record.
  pub record Ready (source : Text → Option Text) (r : ChangeRecord) : Type 0 where
    pub path : Text
    pub body : Text
    pub target : target_path resolve r.path ≡ ok path
    pub present : source r.path ≡ some body
    pub hashed : digest body ≡ r.after_sha256

  check_target-match :
      (there : Option Text) (body after : Text) (d : Disk)
      → there ≡ some body
      → digest body ≡ after
      → Steady
          (refusals d.faults)
          (check_written resolve digest (matches resolve digest there after) d)
  unfolding matches
  check_target-match none body after d e h = absurd (ground arith)
  check_target-match (some other) body after d e h =
      let same : other ≡ body = ground arith in
      let hits : text_eq (digest other) after ≡ true =
        (text_eq_iff (digest other) after).1 (ap digest same ∙ h) in
      rw (check_written-match (text_eq (digest other) after) d hits) (inl (tt, refl, refl))

  install_to-Steady :
      (r : ChangeRecord) (source : Text → Option Text) (to : Result WriteError Text) (d : Disk)
      → (h : Ready source r) → to ≡ ok h.path
      → Steady (refusals d.faults) (install_at resolve digest r (source r.path) to d)
  unfolding install_at
  install_to-Steady r source (err e) d h at = absurd (ground arith)
  install_to-Steady r source (ok path) d h at =
      let step = copy_body (source r.path) path d in
      continue-Steady (refusals d.faults) step
        (λ _.
          check_written resolve digest
            (matches resolve digest (step.1.targets path) r.after_sha256))
        (copy_body-Steady (source r.path) h.body path d h.present)
        (λ u went.
          let (body, has, stands) = copied-body resolve digest (source r.path) path d went in
          let same : some h.body ≡ some body = sym h.present ∙ has in
          let one : h.body ≡ body = ground arith in
          check_target-match (step.1.targets path) body r.after_sha256 step.1 stands
            (ap digest (sym one) ∙ h.hashed))

  pub install_at-Steady :
      (r : ChangeRecord) (source : Text → Option Text) (d : Disk)
      → Ready source r
      → Steady
          (refusals d.faults)
          (install_at resolve digest r (source r.path) (target_path resolve r.path) d)
  install_at-Steady r source d h = install_to-Steady r source _ d h h.target
