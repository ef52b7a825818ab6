-- ===== src/Apply/Installed.antt =====
-- What a run of the loop of `apply_files` leaves (scripts/self_upgrade_runner.py).
use agenelf.Base.{
  ℕ, zero, suc, get_elem?, text_eq_refl, ◌≡◌, refl, ap, sym, ◌∙◌, Bool, true, false, ◌⊎◌, inl, inr,
  Option, none, some, Text, List, [], ◌∷◌, text_eq_iff, arith, Bool-cases, Result, ok, err,
  continue-eq-ok,
}
use agenelf.Upgrade.Changes.{ChangeRecord}
use agenelf.Apply.Disk.{
  Store, WriteError, Disk, next_write, write_target, put_target, target_path, copy_body,
}
use agenelf.Apply.Install.{paths_of, matches, check_written, install_at, install_all}
use agenelf.Apply.Touch.{leads_to, touches, install_at-other, check_written-same}

module _ (resolve : Text → Option Text) (digest : Text → Text) where
  -- What a record has put at its target.
  pub record Installs (source : Text → Option Text) (after : Store) (q : Text) (r : ChangeRecord)
      : Type 0 where
    pub body : Text
    pub target : target_path resolve r.path ≡ ok q
    pub copied : source r.path ≡ some body
    pub stands : after q ≡ some body
    pub hashed : digest body ≡ r.after_sha256

  -- A file is as it was, or one of the records put it there.
  abbrev pub Installed : (Text → Option Text) → List ChangeRecord → Store → Store → Text → Type 0
  Installed source rs before after q =
      ((touches resolve (paths_of rs) q ≡ false) × (after q ≡ before q))
      ⊎ ((r : ChangeRecord) × (i : ℕ) × (get_elem? rs i ≡ some r) × Installs source after q r)

  check_written-true :
      (b : Bool) (d : Disk) → (check_written resolve digest b d).0 ≡ ok tt → b ≡ true
  unfolding check_written
  check_written-true true d h = refl
  check_written-true false d h = ground arith

  write_target-body :
      (path body : Text) (go : Bool × List Bool) (d : Disk)
      → (write_target path body go d).0 ≡ ok tt
      → (write_target path body go d).1.targets path ≡ some body
  unfolding write_target put_target
  write_target-body path body (false, faults) d h = ground arith
  write_target-body path body (true, faults) d h = rw (text_eq_refl path) refl

  pub copied-body :
      (source : Option Text) (path : Text) (d : Disk)
      → (copy_body source path d).0 ≡ ok tt
      → (body : Text) × (source ≡ some body)
        × ((copy_body source path d).1.targets path ≡ some body)
  unfolding copy_body
  copied-body none path d h = ground arith
  copied-body (some body) path d h =
      (body, refl, write_target-body path body (next_write d.faults) d h)

  matches-true :
      (there : Option Text) (body after : Text)
      → there ≡ some body
      → matches resolve digest there after ≡ true
      → digest body ≡ after
  unfolding matches
  matches-true none body after e h = ground arith
  matches-true (some other) body after e h =
      let same : other ≡ body = ground arith in
      ap digest (sym same) ∙ (text_eq_iff (digest other) after).0 h

  -- A turn that succeeds installs its record.
  install_at-Installs :
      (r : ChangeRecord) (to : Result WriteError Text) (source : Text → Option Text) (d : Disk)
      → target_path resolve r.path ≡ to
      → (install_at resolve digest r (source r.path) to d).0 ≡ ok tt
      → (q : Text) → leads_to to q ≡ true
      → Installs source (install_at resolve digest r (source r.path) to d).1.targets q r
  unfolding install_at leads_to
  install_at-Installs r (err raised) source d e h q k = ground arith
  install_at-Installs r (ok path) source d e h q k =
      let step = copy_body (source r.path) path d in
      let now = matches resolve digest (step.1.targets path) r.after_sha256 in
      let (u, copied, checks) =
        continue-eq-ok step.0 (λ _. check_written resolve digest now) step.1 h in
      let (body, has, stands) = copied-body (source r.path) path d copied in
      let at : q ≡ path = (text_eq_iff q path).0 k in
      let same : q ≡ path = at in
      rw copied (record {
        body = body;
        target = e ∙ ap ok (sym at);
        copied = has;
        stands =
            ap (λ (x : Disk). x.targets q) (check_written-same resolve digest now step.1)
            ∙ ap step.1.targets at
            ∙ stands;
        hashed =
            matches-true (step.1.targets path) body r.after_sha256 stands
              (check_written-true now step.1 checks);
      })

  -- A loop that comes to its end has installed every record's file.
  pub install_all-Installed :
      (source : Text → Option Text) (rs : List ChangeRecord) (d : Disk)
      → (install_all resolve digest source rs d).0 ≡ ok tt
      → (q : Text)
      → Installed source rs d.targets (install_all resolve digest source rs d).1.targets q
  unfolding install_all touches paths_of
  install_all-Installed source [] d h q = inl (refl, refl)
  install_all-Installed source (r ∷ rs) d h q =
      let to = target_path resolve r.path in
      let step = install_at resolve digest r (source r.path) to d in
      let (u, went, goes) =
        continue-eq-ok step.0 (λ _. install_all resolve digest source rs) step.1 h in
      rw went (elim (install_all-Installed source rs step.1 goes q) [
        | inr (later, i, at, installs) ↦ inr (later, suc i, at, installs)
        | inl (free, same) ↦ elim (Bool-cases (leads_to to q)) [
          | inr elsewhere ↦ inl (
            ground arith,
            same ∙ install_at-other resolve digest r (source r.path) to d q elsewhere,
          )
          | inl here ↦
              let placed = install_at-Installs r to source d refl went q here in
              inr (
                r,
                zero,
                refl,
                record {
                  body = placed.body;
                  target = placed.target;
                  copied = placed.copied;
                  stands = same ∙ placed.stands;
                  hashed = placed.hashed;
                },
              )
        ]
      ])
