-- ===== src/Apply/Touch.antt =====
-- Which files the writes of the runner can change (scripts/self_upgrade_runner.py).
use agenelf.Base.{
  ◌≡◌, refl, ap, ◌∙◌, Bool, true, false, ◌||◌, Option, none, some, Text, List, [], ◌∷◌, text_eq,
  arith, inl, inr, Result, ok, err, Result-cases,
}
use agenelf.Upgrade.Changes.{ChangeRecord}
use agenelf.Apply.Disk.{
  Store, WriteError, Disk, put_target, next_write, write_target, copy_body, target_path,
}
use agenelf.Apply.Install.{check_written, install_at, install_all, paths_of}

-- Is a file where one of the names leads to?
unfoldable pub leads_to : Result WriteError Text → Text → Bool
leads_to (err e) q = false
leads_to (ok path) q = text_eq q path

unfoldable pub touches : (Text → Option Text) → List Text → Text → Bool
unfolding leads_to target_path
touches resolve [] q = false
touches resolve (name ∷ names) q = leads_to (target_path resolve name) q || touches resolve names q

pub put_target-other :
    (path body : Text) (files : Store) (q : Text)
    → text_eq q path ≡ false
    → put_target path body files q ≡ files q
unfolding put_target
put_target-other path body files q h = rw h refl

pub write_target-other :
    (path body : Text) (go : Bool × List Bool) (d : Disk) (q : Text)
    → text_eq q path ≡ false
    → (write_target path body go d).1.targets q ≡ d.targets q
unfolding write_target
write_target-other path body (false, faults) d q h = refl
write_target-other path body (true, faults) d q h = put_target-other path body d.targets q h

pub copy_body-other :
    (source : Option Text) (path : Text) (d : Disk) (q : Text)
    → text_eq q path ≡ false
    → (copy_body source path d).1.targets q ≡ d.targets q
unfolding copy_body
copy_body-other none path d q h = refl
copy_body-other (some body) path d q h = write_target-other path body (next_write d.faults) d q h

module _ (resolve : Text → Option Text) (digest : Text → Text) where
  pub check_written-same : (b : Bool) (d : Disk) → (check_written resolve digest b d).1 ≡ d
  unfolding check_written
  check_written-same true d = refl
  check_written-same false d = refl

  -- One turn changes its own target only.
  pub install_at-other :
      (r : ChangeRecord) (source : Option Text) (to : Result WriteError Text) (d : Disk) (q : Text)
      → leads_to to q ≡ false
      → (install_at resolve digest r source to d).1.targets q ≡ d.targets q
  unfolding install_at leads_to
  install_at-other r source (err e) d q h = refl
  install_at-other r source (ok path) d q h = elim (Result-cases (copy_body source path d).0) [
    | inl (u, e) ↦ rw e (
        ap (λ (t : Disk). t.targets q) (check_written-same _ (copy_body source path d).1)
        ∙ copy_body-other source path d q h)
    | inr (raised, e) ↦ rw e (copy_body-other source path d q h)
  ]

  -- The loop changes the targets of its records only.
  pub install_all-other :
      (source : Text → Option Text) (records : List ChangeRecord) (d : Disk) (q : Text)
      → touches resolve (paths_of records) q ≡ false
      → (install_all resolve digest source records d).1.targets q ≡ d.targets q
  unfolding install_all touches paths_of
  install_all-other source [] d q h = refl
  install_all-other source (r ∷ rs) d q h =
      let to = target_path resolve r.path in
      let here : leads_to to q ≡ false = ground arith in
      let later : touches resolve (paths_of rs) q ≡ false = ground arith in
      let step = install_at resolve digest r (source r.path) to d in
      elim (Result-cases step.0) [
        | inl (u, e) ↦ rw e (
            install_all-other source rs step.1 q later
            ∙ install_at-other r (source r.path) to d q here)
        | inr (raised, e) ↦ rw e (install_at-other r (source r.path) to d q here)
      ]
