-- ===== src/Apply/Success.antt =====
-- What a success of the runner means (scripts/self_upgrade_runner.py).
use agenelf.Base.{
  text_eq_iff, ℕ, ◌≡◌, refl, ap, sym, ◌∙◌, subst, inl, inr, true, Option, some, Text, List, ◌∷◌,
  one_of, text_eq_refl, is_some, arith, Bool-cases, Result, ok, err,
}
use agenelf.Operations.Requests.{find, read_json}
use agenelf.Permissions.Files.{AuthFiles}
use agenelf.Upgrade.Changes.{ChangeRecord}
use agenelf.Upgrade.Session.{UpgradeSession, ApplyRequest, ApplyResult, Outside}
use agenelf.Apply.Disk.{Store, Disk}
use agenelf.Apply.Install.{paths_of, needs_restart}
use agenelf.Apply.Installed.{Installed}
use agenelf.Apply.Atomic.{Atomic, apply_files-Atomic}
use agenelf.Apply.World.{RunnerError, RunnerState, RunnerWorld}
use agenelf.Apply.Process.{
  Handled, waits, applied, put_result, release_lock, handle, report, under_lock, process_request,
}
use agenelf.Apply.Passed.{spent, Passed}
use agenelf.Apply.Authorized.{IsAuthorized-locked, IsAuthorized, Passed-IsAuthorized}
use agenelf.Apply.Calls.{is_succeeded, report-disk, locked_by, process_request-cases}
use agenelf.Apply.Writes.{source_of, files_step, apply_request_files-ok, Passed-world}

module _ (o : Outside) (resolve : Text → Option Text) where
  report-succeeded :
      (id : Text) (r : Result RunnerError Handled) (w : RunnerWorld)
      → is_succeeded (report o resolve id r w).0 ≡ true
      → (paths : List Text) × (r ≡ ok (applied paths))
        × (read_json id (release_lock id (report o resolve id r w).1).upgrade.results
            ≡ some (record {
              succeeded = true;
              restart_required = needs_restart paths;
              changed_files = paths;
            }))
  unfolding report is_succeeded release_lock put_result read_json find
  report-succeeded id (ok waits) w h = ground arith
  report-succeeded id (err e) w h = ground arith
  report-succeeded id (ok (applied paths)) w h =
      elim (Bool-cases (is_some (find id w.upgrade.results))) [
        | inl there ↦ absurd (ground arith)
        | inr fresh ↦
            (paths, refl, rw fresh (rw (text_eq_refl id, read_json, find, put_result) refl))
      ]

  report-auths :
      (id : Text) (r : Result RunnerError Handled) (w : RunnerWorld)
      → (release_lock id (report o resolve id r w).1).upgrade.auths ≡ w.upgrade.auths
  unfolding report release_lock put_result
  report-auths id (ok waits) w = refl
  report-auths id (ok (applied paths)) w = elim (Bool-cases (is_some (find id w.upgrade.results))) [
    | inl there ↦ rw there refl
    | inr fresh ↦ rw fresh refl
  ]
  report-auths id (err e) w = elim (Bool-cases (is_some (find id w.upgrade.results))) [
    | inl there ↦ rw there refl
    | inr fresh ↦ rw fresh refl
  ]

  one_of-head : (id other : Text) (ids : List Text) → id ≡ other → one_of (other ∷ ids) id ≡ true
  one_of-head id other ids same = ground (arith, (text_eq_iff id other).1 same)

  -- What a success leaves behind.
  pub record Success (w : RunnerWorld) (request : ApplyRequest) (session : UpgradeSession)
      (after : RunnerWorld) : Type 0 where
    pub files :
        (q : Text)
        → Installed resolve o.tools.digest
            (source_of o resolve w)
            session.changed_file_records
            w.disk.targets
            after.disk.targets
            q
    pub used : one_of after.upgrade.auths.consumed session.candidate_auth_id ≡ true
    pub result :
        read_json request.id after.upgrade.results
        ≡ some (record {
          succeeded = true;
          restart_required = needs_restart (paths_of session.changed_file_records);
          changed_files = paths_of session.changed_file_records;
        })

  under_lock-Success :
      (now later : ℕ) (request : ApplyRequest) (w : RunnerWorld)
      → (p : Passed o resolve later request w (handle o resolve now later request w))
      → request.payload.candidate_auth_id ≡ p.session.candidate_auth_id
      → request.payload.changed_files ≡ p.session.changed_file_records
      → is_succeeded (under_lock o resolve now later request w).0 ≡ true
      → Success w request p.session (under_lock o resolve now later request w).1
  unfolding under_lock
  under_lock-Success now later request w p id records h =
      let m = handle o resolve now later request w in
      let (paths, ends, written) = report-succeeded request.id m.0 m.1 h in
      let granted : RunnerWorld = record w {
        upgrade = record w.upgrade {
          auths = spent w.upgrade.auths request.payload.candidate_auth_id;
        };
      } in
      let went : (files_step o resolve request granted).0 ≡ ok paths =
        apply_request_files-ok o resolve request granted paths (
          ap (λ (x : Result RunnerError Handled × RunnerWorld). x.0) (sym p.granted.goes) ∙ ends) in
      let rs = request.payload.changed_files in
      let (named, installs) =
        subst
          (Atomic resolve o.tools.digest (source_of o resolve w) rs w.disk.targets
            (files_step o resolve request granted).1.targets)
          went
          (apply_files-Atomic resolve o.tools.digest (source_of o resolve w) request.id rs
            w.disk) in
      let targets : (under_lock o resolve now later request w).1.disk.targets
          ≡ (files_step o resolve request granted).1.targets =
        ap (λ (d : Disk). d.targets) (report-disk o resolve request.id m.0 m.1)
        ∙ ap (λ (x : RunnerWorld). x.disk.targets) (Passed-world o resolve later request w p) in
      record {
        files = λ q.
            subst
              (λ (f : Store).
                Installed resolve o.tools.digest (source_of o resolve w)
                  p.session.changed_file_records w.disk.targets f q)
              (sym targets)
              (subst
                (λ (xs : List ChangeRecord).
                  Installed resolve o.tools.digest (source_of o resolve w) xs w.disk.targets
                    (files_step o resolve request granted).1.targets q)
                records (installs q));
        used =
            ap (λ (a : AuthFiles). one_of a.consumed p.session.candidate_auth_id)
              (report-auths request.id m.0 m.1)
            ∙ ap (λ (x : RunnerWorld). one_of x.upgrade.auths.consumed p.session.candidate_auth_id)
                (Passed-world o resolve later request w p)
            ∙ one_of-head p.session.candidate_auth_id request.payload.candidate_auth_id
                w.upgrade.auths.consumed (sym id);
        result =
            written
            ∙ ap
                (λ (ps : List Text).
                  let made : ApplyResult = record {
                    succeeded = true;
                    restart_required = needs_restart ps;
                    changed_files = ps;
                  } in
                  some made)
                (named ∙ ap paths_of records);
      }

  -- Where `process_request` succeeds, the request names a session whose candidate was authorized,
  -- and every file below the target is as it was, with no record leading to it, or it is the file
  -- of the working copy that one of the session's records names, with the hash of the record. The
  -- authorization of the candidate is used up, and the result of the request lists the paths of all
  -- records and says whether a restart is needed for them.
  pub process_request-succeeded :
      (now later : ℕ) (name : Text) (w : RunnerWorld)
      → is_succeeded (process_request o resolve now later name w).0 ≡ true
      → (request : ApplyRequest) × (session : UpgradeSession) × (read_json name w.upgrade.requests
          ≡ some request)
        × (read_json request.payload.session_id w.upgrade.sessions ≡ some session)
        × IsAuthorized o resolve later w session
        × Success w request session (process_request o resolve now later name w).1
  process_request-succeeded now later name w h =
      elim (process_request-cases o resolve now later name w) [
        | inl (same, still) ↦ absurd (ground arith)
        | inr c ↦
            let locked = locked_by o resolve c.request w in
            let (loaded, id, records, authorized) =
              Passed-IsAuthorized o resolve later c.request locked c.passed in
            let done : is_succeeded (under_lock o resolve now later c.request locked).0 ≡ true =
              ap (λ (x : RunnerState × RunnerWorld). is_succeeded x.0) (sym c.goes) ∙ h in
            let end = under_lock-Success now later c.request locked c.passed id records done in
            (
              c.request,
              c.passed.session,
              c.asked,
              loaded,
              IsAuthorized-locked o resolve later c.request w c.passed.session authorized,
              subst (λ (x : RunnerState × RunnerWorld). Success w c.request c.passed.session x.1)
                  (sym c.goes) (record { files = end.files; used = end.used; result = end.result }),
            )
      ]
