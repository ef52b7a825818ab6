-- ===== src/Apply/Keeping.antt =====
-- A backup of the runner tells what stands at the targets (scripts/self_upgrade_runner.py).
use agenelf.Base.{
  ◌≡◌, refl, ap, sym, ◌∙◌, subst, Bool, true, false, Option, none, some, Text, List, [], ◌∷◌,
  text_eq, text_eq_iff, text_eq_refl, arith, Bool-cases, inl, inr, Result, ok, err,
}
use agenelf.Apply.Disk.{Store, WriteError, Disk, put_target, next_write, target_path}
use agenelf.Apply.Backup.{BackupEntry, Backup, saved, back_up, back_up_at}
use agenelf.Apply.Restore.{Tells, TellsAt, Holds, entry_paths}

-- The item of a new file of the backup, and the items before it.
Tells-put :
    (before : Option Text) (e : BackupEntry) (files : Store) (name body : Text)
    → ((other : Text) → e.path ≡ name → before ≡ some other → other ≡ body)
    → Tells before e files
    → Tells before e (put_target name body files)
unfolding put_target
Tells-put before e files name body same t = record {
  existed = t.existed;
  kept = λ other there. elim (Bool-cases (text_eq e.path name)) [
    | inl here ↦ rw here (ap some (sym (same other ((text_eq_iff e.path name).0 here) there)))
    | inr elsewhere ↦ rw elsewhere (t.kept other there)
  ];
  absent = t.absent;
}

module _ (resolve : Text → Option Text) (before : Store) where
  TellsAt-put :
      (e : BackupEntry) (files : Store) (name body path : Text) (to : Result WriteError Text)
      → (e.path ≡ name → to ≡ ok path)
      → before path ≡ some body
      → TellsAt before e files to
      → TellsAt before e (put_target name body files) to
  TellsAt-put e files name body path (err raised) same there t = tt
  TellsAt-put e files name body path (ok other) same there t =
      Tells-put (before other) e files name body
        (λ (found : Text) named has.
          let one : ◌≡◌ {A = Result WriteError Text} (ok other) (ok path) = same named in
          let equal : other ≡ path = ground arith in
          let both : some found ≡ some body = sym has ∙ ap before equal ∙ there in ground arith)
        t

  Holds-put :
      (es : List BackupEntry) (files : Store) (name body path : Text)
      → target_path resolve name ≡ ok path
      → before path ≡ some body
      → Holds resolve before es files
      → Holds resolve before es (put_target name body files)
  Holds-put [] files name body path to there t = tt
  Holds-put (e ∷ es) files name body path to there t = (
    TellsAt-put e files name body path (target_path resolve e.path)
        (λ named. ap (target_path resolve) named ∙ to) there t.0,
    Holds-put es files name body path to there t.1,
  )

  put_target_self : (name body : Text) (files : Store) → put_target name body files name ≡ some body
  unfolding put_target
  put_target_self name body files = rw (text_eq_refl name) refl

  -- What a step of the backup gives.
  pub record Told (b : Backup) (name : Text) (b' : Backup) (d d' : Disk) : Type 0 where
    pub holds : Holds resolve before b'.entries b'.files
    pub same : d'.targets ≡ d.targets
    pub named : entry_paths b'.entries ≡ name ∷ entry_paths b.entries

  saved-Told :
      (name body path : Text) (b b' : Backup) (go : Bool × List Bool) (d : Disk)
      → target_path resolve name ≡ ok path
      → before path ≡ some body
      → Holds resolve before b.entries b.files
      → (saved name body b go d).0 ≡ ok b'
      → Told b name b' d (saved name body b go d).1
  unfolding saved entry_paths
  saved-Told name body path b b' (false, faults) d to there t h = ground arith
  saved-Told name body path b b' (true, faults) d to there t h =
      let whole : Backup = record {
        entries = record { path = name; existed = true } ∷ b.entries;
        files = put_target name body b.files;
      } in
      let made : whole ≡ b' = ground arith in
      let told : Told b name whole d (record d { faults = faults }) = record {
        holds = (
          subst
              (TellsAt before (record { path = name; existed = true })
                (put_target name body b.files))
              (sym to)
              (record {
                existed = λ other has. refl;
                kept = λ other has. put_target_self name body b.files ∙ sym there ∙ has;
                absent = λ gone. ground (arith, gone, there);
              }),
          Holds-put b.entries b.files name body path to there t,
        );
        same = refl;
        named = refl;
      } in
      subst (λ (x : Backup). Told b name x d (record d { faults = faults })) made told

  back_up-Told :
      (name path : Text) (there : Option Text) (b b' : Backup) (d : Disk)
      → target_path resolve name ≡ ok path
      → before path ≡ there
      → Holds resolve before b.entries b.files
      → (back_up name there b d).0 ≡ ok b'
      → Told b name b' d (back_up name there b d).1
  unfolding back_up entry_paths
  back_up-Told name path (some body) b b' d to there t h =
      saved-Told name body path b b' (next_write d.faults) d to there t h
  back_up-Told name path none b b' d to gone t h =
      let whole : Backup = record b {
        entries = record { path = name; existed = false } ∷ b.entries;
      } in
      let made : whole ≡ b' = ground arith in
      let told : Told b name whole d d = record {
        holds = (
          subst (TellsAt before (record { path = name; existed = false }) b.files) (sym to)
              (record {
                existed = λ other has. ground (arith, gone, has);
                kept = λ other has. ground (arith, gone, has);
                absent = λ _. refl;
              }),
          t,
        );
        same = refl;
        named = refl;
      } in
      subst (λ (x : Backup). Told b name x d d) made told

  pub back_up_at-Told :
      (name : Text) (to : Result WriteError Text) (b b' : Backup) (d : Disk)
      → target_path resolve name ≡ to
      → before ≡ d.targets
      → Holds resolve before b.entries b.files
      → (back_up_at resolve name to b d).0 ≡ ok b'
      → Told b name b' d (back_up_at resolve name to b d).1
  unfolding back_up_at
  back_up_at-Told name (err raised) b b' d to here t h = ground arith
  back_up_at-Told name (ok path) b b' d to here t h =
      back_up-Told name path (d.targets path) b b' d to (ap (λ (f : Store). f path) here) t h
