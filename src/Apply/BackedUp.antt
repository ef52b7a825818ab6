-- ===== src/Apply/BackedUp.antt =====
-- A whole backup of the runner (scripts/self_upgrade_runner.py).
use agenelf.Base.{
  ◌≡◌, refl, ap, sym, ◌∙◌, subst, Bool, true, false, Option, Text, List, [], ◌∷◌, arith,
  Option-cases, inl, inr, Result, ok, err, Result-cases, continue-eq-ok,
}
use agenelf.Upgrade.Changes.{ChangeRecord}
use agenelf.Apply.Disk.{Store, WriteError, Disk, next_write, target_path}
use agenelf.Apply.Backup.{Backup, saved, back_up, back_up_at, back_up_all}
use agenelf.Apply.Install.{paths_of}
use agenelf.Apply.Touch.{touches}
use agenelf.Apply.Restore.{Holds, entry_paths}
use agenelf.Apply.Keeping.{back_up_at-Told}

module _ (resolve : Text → Option Text) (before : Store) where
  saved-targets :
      (name body : Text) (b : Backup) (go : Bool × List Bool) (d : Disk)
      → (saved name body b go d).1.targets ≡ d.targets
  unfolding saved
  saved-targets name body b (false, faults) d = refl
  saved-targets name body b (true, faults) d = refl

  back_up_at-targets :
      (name : Text) (to : Result WriteError Text) (b : Backup) (d : Disk)
      → (back_up_at resolve name to b d).1.targets ≡ d.targets
  unfolding back_up_at back_up
  back_up_at-targets name (err raised) b d = refl
  back_up_at-targets name (ok path) b d = elim (Option-cases (d.targets path)) [
    | inl gone ↦ rw gone refl
    | inr (body, there) ↦ rw there (saved-targets name body b (next_write d.faults) d)
  ]

  pub back_up_all-targets :
      (rs : List ChangeRecord) (b : Backup) (d : Disk)
      → (back_up_all resolve rs b d).1.targets ≡ d.targets
  unfolding back_up_all
  back_up_all-targets [] b d = refl
  back_up_all-targets (r ∷ rs) b d =
      let step = back_up_at resolve r.path (target_path resolve r.path) b d in
      let same = back_up_at-targets r.path (target_path resolve r.path) b d in
      elim (Result-cases step.0) [
        | inl (b', made) ↦ rw made (back_up_all-targets rs b' step.1 ∙ same)
        | inr (raised, e) ↦ rw e same
      ]

  pub back_up_all-Holds :
      (rs : List ChangeRecord) (b b' : Backup) (d : Disk)
      → before ≡ d.targets
      → Holds resolve before b.entries b.files
      → (back_up_all resolve rs b d).0 ≡ ok b'
      → Holds resolve before b'.entries b'.files
        × ((q : Text)
            → touches resolve (entry_paths b'.entries) q ≡ false
            → (touches resolve (paths_of rs) q ≡ false)
              × (touches resolve (entry_paths b.entries) q ≡ false))
  unfolding back_up_all touches paths_of
  back_up_all-Holds [] b b' d here t h =
      let made : b ≡ b' = ground arith in
      subst
        (λ (x : Backup).
          Holds resolve before x.entries x.files
          × ((q : Text)
              → touches resolve (entry_paths x.entries) q ≡ false
              → (touches resolve [] q ≡ false)
                × (touches resolve (entry_paths b.entries) q ≡ false)))
        made (t, λ q free. (refl, free))
  back_up_all-Holds (r ∷ rs) b b' d here t h =
      let step = back_up_at resolve r.path (target_path resolve r.path) b d in
      let (c, made, goes) = continue-eq-ok step.0 (λ c. back_up_all resolve rs c) step.1 h in
      let told =
        back_up_at-Told resolve before r.path (target_path resolve r.path) b c d refl here t made in
      let (holds, free) = back_up_all-Holds rs c b' step.1 (here ∙ sym told.same) told.holds goes in
      (
        holds,
        λ q none_here.
            let (rest, first) = free q none_here in
            let names : touches resolve (r.path ∷ entry_paths b.entries) q ≡ false =
              ap (λ (ns : List Text). touches resolve ns q) (sym told.named) ∙ first in
            (ground arith, ground arith),
      )

  -- The items are those of the records, before those that were there.
  pub back_up_all-named :
      (rs : List ChangeRecord) (b b' : Backup) (d : Disk) (q : Text)
      → before ≡ d.targets
      → Holds resolve before b.entries b.files
      → (back_up_all resolve rs b d).0 ≡ ok b'
      → touches resolve (paths_of rs) q ≡ false
      → touches resolve (entry_paths b.entries) q ≡ false
      → touches resolve (entry_paths b'.entries) q ≡ false
  unfolding back_up_all touches paths_of
  back_up_all-named [] b b' d q here t h free old =
      let made : b ≡ b' = ground arith in
      subst (λ (x : Backup). touches resolve (entry_paths x.entries) q ≡ false) made old
  back_up_all-named (r ∷ rs) b b' d q here t h free old =
      let step = back_up_at resolve r.path (target_path resolve r.path) b d in
      let (c, made, goes) = continue-eq-ok step.0 (λ c. back_up_all resolve rs c) step.1 h in
      let told =
        back_up_at-Told resolve before r.path (target_path resolve r.path) b c d refl here t made in
      let mine : touches resolve (r.path ∷ entry_paths b.entries) q ≡ false = ground arith in
      back_up_all-named rs c b' step.1 q (here ∙ sym told.same) told.holds goes (ground arith)
        (ap (λ (ns : List Text). touches resolve ns q) told.named ∙ mine)
