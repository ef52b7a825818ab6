-- ===== src/Apply/Writes.antt =====
-- Which files the runner writes, and what a success means (scripts/self_upgrade_runner.py).
use agenelf.Base.{
  true, Bool-cases, ℕ, ◌≡◌, refl, ap, ◌∙◌, ◌⊎◌, inl, inr, Option, some, Text, List, arith, Result,
  ok, err,
}
use agenelf.Operations.Requests.{read_json}
use agenelf.Upgrade.Changes.{ChangeRecord}
use agenelf.Upgrade.Session.{UpgradeSession, ApplyRequest, Outside}
use agenelf.Apply.Disk.{Store, Disk}
use agenelf.Apply.Install.{ApplyError, paths_of, apply_files}
use agenelf.Apply.Touch.{touches}
use agenelf.Apply.Elsewhere.{apply_files-other}
use agenelf.Apply.World.{RunnerError, RunnerState, RunnerWorld}
use agenelf.Apply.Process.{
  Handled, applied, candidate_file, installed, apply_request_files, handle, under_lock,
  process_request,
}
use agenelf.Apply.Passed.{spent, Passed}
use agenelf.Apply.Authorized.{IsAuthorized-locked, IsAuthorized, Passed-IsAuthorized}
use agenelf.Apply.Calls.{report-disk, locked_by, Handles, process_request-cases}

module _ (o : Outside) (resolve : Text → Option Text) where
  abbrev pub source_of : RunnerWorld → Text → Option Text
  source_of w = λ name. candidate_file name w.upgrade.repo.texts

  abbrev pub files_step : ApplyRequest → RunnerWorld → Result ApplyError (List Text) × Disk
  files_step request w =
      apply_files resolve o.tools.digest (source_of w) request.id request.payload.changed_files
        w.disk

  installed-disk :
      (r : Result ApplyError (List Text)) (w : RunnerWorld) → (installed o resolve r w).1 ≡ w
  unfolding installed
  installed-disk (ok paths) w = refl
  installed-disk (err e) w = refl

  installed-ok :
      (r : Result ApplyError (List Text)) (w : RunnerWorld) (paths : List Text)
      → (installed o resolve r w).0 ≡ ok (applied paths)
      → r ≡ ok paths
  unfolding installed
  installed-ok (ok others) w paths h = ground arith
  installed-ok (err e) w paths h = ground arith

  apply_request_files-disk :
      (request : ApplyRequest) (w : RunnerWorld)
      → (apply_request_files o resolve request w).1 ≡ record w { disk = (files_step request w).1 }
  unfolding apply_request_files
  apply_request_files-disk request w =
      installed-disk (files_step request w).0 (record w { disk = (files_step request w).1 })

  pub apply_request_files-ok :
      (request : ApplyRequest) (w : RunnerWorld) (paths : List Text)
      → (apply_request_files o resolve request w).0 ≡ ok (applied paths)
      → (files_step request w).0 ≡ ok paths
  unfolding apply_request_files
  apply_request_files-ok request w paths h =
      installed-ok (files_step request w).0 (record w { disk = (files_step request w).1 }) paths h

  -- The world after the body of the `try`, for a request that has passed.
  pub Passed-world :
      (later : ℕ) (request : ApplyRequest) (w : RunnerWorld)
      {m : Result RunnerError Handled × RunnerWorld}
      → Passed o resolve later request w m
      → m.1 ≡ record w {
        upgrade = record w.upgrade {
          auths = spent w.upgrade.auths request.payload.candidate_auth_id;
        };
        disk = (files_step request w).1;
      }
  Passed-world later request w p =
      ap (λ (x : Result RunnerError Handled × RunnerWorld). x.1) p.granted.goes
      ∙ apply_request_files-disk request (record w {
        upgrade = record w.upgrade {
          auths = spent w.upgrade.auths request.payload.candidate_auth_id;
        };
      })

  pub Handles-targets :
      (now later : ℕ) (name : Text) (w : RunnerWorld)
      → (h : Handles o resolve now later name w)
      → (process_request o resolve now later name w).1.disk.targets
        ≡ (files_step h.request w).1.targets
  unfolding under_lock
  Handles-targets now later name w h =
      let locked = locked_by o resolve h.request w in
      let m = handle o resolve now later h.request locked in
      ap (λ (x : RunnerState × RunnerWorld). x.1.disk.targets) h.goes
      ∙ ap (λ (d : Disk). d.targets) (report-disk o resolve h.request.id m.0 m.1)
      ∙ ap (λ (x : RunnerWorld). x.disk.targets) (Passed-world later h.request locked h.passed)

  -- A call of `process_request` leaves all files below the target as they are, or the request names
  -- a session whose candidate is authorized, and then only the targets of the session's records
  -- can change, whatever fails on the way. The candidate is authorized if the intent was consumed,
  -- and the owner has decided "approve" with the fingerprint of the session's candidate, which has
  -- not expired when the tests have passed and which nobody has used; if the working copy is the
  -- tree in that candidate and passes the tests; and if the path of every record is one that the
  -- plan allows.
  pub process_request-IsAuthorized :
      (now later : ℕ) (name : Text) (w : RunnerWorld)
      → let after = (process_request o resolve now later name w).1.disk.targets in
        ((q : Text) → after q ≡ w.disk.targets q)
        ⊎ ((request : ApplyRequest) × (session : UpgradeSession) × (read_json name
                w.upgrade.requests
              ≡ some request)
            × (read_json request.payload.session_id w.upgrade.sessions ≡ some session)
            × IsAuthorized o resolve later w session
            × ((q : Text)
                → (touches resolve (paths_of session.changed_file_records) q ≡ true)
                  ⊎ (after q ≡ w.disk.targets q)))
  process_request-IsAuthorized now later name w =
      elim (process_request-cases o resolve now later name w) [
        | inl (same, still) ↦ inl (λ q. ap (λ (d : Disk). d.targets q) same)
        | inr h ↦
            let (loaded, id, records, authorized) =
              Passed-IsAuthorized o resolve later h.request (locked_by o resolve h.request w)
                h.passed in
            inr (
              h.request,
              h.passed.session,
              h.asked,
              loaded,
              IsAuthorized-locked o resolve later h.request w h.passed.session authorized,
              λ q.
                  elim (Bool-cases
                    (touches resolve (paths_of h.passed.session.changed_file_records) q)) [
                      | inl led ↦ inl led
                      | inr free ↦ inr (
                          ap (λ (f : Store). f q) (Handles-targets now later name w h)
                          ∙ apply_files-other resolve o.tools.digest (source_of w) h.request.id
                              h.request.payload.changed_files w.disk q
                              (ap (λ (rs : List ChangeRecord). touches resolve (paths_of rs) q)
                                  records
                                ∙ free))
                    ],
            )
      ]
