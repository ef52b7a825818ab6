-- ===== src/Apply/Process.antt =====
-- `process_request` and `run_once` of scripts/self_upgrade_runner.py. A call reads the clock when it
-- checks the authorization, and again when it consumes it after the tests.
use agenelf.Base.{
  ℕ, Bool, true, false, Option, none, some, Text, List, [], ◌∷◌, codes, text_eq, starts_with,
  one_of, is_some, if◌then◌else◌, Result, ok, err, Exec,
}
use agenelf.Operations.Requests.{find, read_json}
use agenelf.Permissions.Check.{AuthStatus, BindingError, check_auth, consume_auth}
use agenelf.Upgrade.Paths.{split_path, join_path, real_parts}
use agenelf.Upgrade.Advance.{expected_of}
use agenelf.Upgrade.Session.{
  CandidateBinding, no_key, binding_of, UpgradeSession, ApplyRequest, ApplyResult, Outside,
}
use agenelf.Apply.Install.{ApplyError, apply_files, needs_restart}
use agenelf.Apply.World.{
  RunnerError, no_binding_key, revalidation_failed, not_consumed, not_approved, auth_raised,
  apply_raised, RunnerState, RunnerWorld,
}
use agenelf.Apply.Validate.{validate_request, verify_candidate}

-- How the body of the `try` ends without an error: with "pending", or with the applied paths.
pub data Handled : Type 0 where
  waits : Handled
  applied : List Text → Handled

-- `atomic_json` of a result, exclusively.
unfoldable pub put_result : Bool → Text → ApplyResult → RunnerWorld → RunnerWorld
put_result true id r w = w
put_result false id r w = record w {
  upgrade = record w.upgrade { results = (id, some r) ∷ w.upgrade.results };
}

unfoldable pub without_lock : Text → List Text → List Text
without_lock id [] = []
without_lock id (name ∷ names) =
    let rest = without_lock id names in if text_eq name id then rest else name ∷ rest

-- `CANDIDATE_REPO / name`, looked up in the working copy: parts that say nothing are dropped. A path
-- from the root leads out of the copy.
unfoldable pub candidate_file : Text → List (Text × Text) → Option Text
unfolding find join_path real_parts split_path
candidate_file name texts =
    if starts_with (codes "/") name
    then none
    else find (join_path (real_parts (split_path name))) texts

-- The `finally`.
unfoldable pub release_lock : Text → RunnerWorld → RunnerWorld
unfolding without_lock
release_lock id w = record w { locks = without_lock id w.locks }

module _ (o : Outside) (resolve : Text → Option Text) where
  unfoldable pub installed :
      Result ApplyError (List Text) → RunnerWorld → Result RunnerError Handled × RunnerWorld
  installed (err e) w = (err (apply_raised e), w)
  installed (ok paths) w = (ok (applied paths), w)

  -- `apply_files` on the disk.
  unfoldable pub apply_request_files : ApplyRequest → Exec RunnerWorld RunnerError Handled
  unfolding apply_files candidate_file installed
  apply_request_files request w =
      let (r, disk) =
        apply_files resolve o.tools.digest (λ name. candidate_file name w.upgrade.repo.texts)
          request.id request.payload.changed_files w.disk in
      installed r (record w { disk = disk })

  unfoldable pub after_consume :
      ApplyRequest → Result BindingError Bool → Exec RunnerWorld RunnerError Handled
  unfolding apply_request_files
  after_consume request (err e) w = (err (auth_raised e), w)
  after_consume request (ok false) w = (err not_consumed, w)
  after_consume request (ok true) w = apply_request_files request w

  -- From here on `binding` is the `expected_binding`: that of the session, or none for a null.
  unfoldable pub after_tests :
      ℕ → ApplyRequest → Option Text → Option Text → Exec RunnerWorld RunnerError Handled
  unfolding consume_auth after_consume
  after_tests later request binding none w = (err revalidation_failed, w)
  after_tests later request binding (some report) w =
      let (r, auths) =
        consume_auth o.digest w.upgrade.auths request.payload.candidate_auth_id binding later in
      after_consume request r (record w { upgrade = record w.upgrade { auths = auths } })

  unfoldable pub after_verify :
      ℕ
      → ApplyRequest
      → Option Text
      → Result RunnerError (Unit {0})
      → Exec RunnerWorld RunnerError Handled
  unfolding after_tests
  after_verify later request binding (err e) w = (err e, w)
  after_verify later request binding (ok _) w =
      after_tests later request binding (o.run_tests w.upgrade.repo) w

  unfoldable pub after_check :
      ℕ
      → ApplyRequest
      → UpgradeSession
      → Option Text
      → Result BindingError AuthStatus
      → Exec RunnerWorld RunnerError Handled
  unfolding verify_candidate after_verify
  after_check later request session binding (err e) w = (err (auth_raised e), w)
  after_check later request session binding (ok AuthStatus.pending) w = (ok waits, w)
  after_check later request session binding (ok AuthStatus.approved) w =
      after_verify later request binding (verify_candidate o resolve w request session) w
  after_check later request session binding (ok status) w = (err (not_approved status), w)

  unfoldable pub with_binding :
      ℕ
      → ℕ
      → ApplyRequest
      → UpgradeSession
      → CandidateBinding
      → Exec RunnerWorld RunnerError Handled
  unfolding check_auth after_check expected_of binding_of
  with_binding now later request session no_key w = (err no_binding_key, w)
  with_binding now later request session raw w =
      let binding = expected_of o (binding_of raw) in
      after_check later request session binding
        (check_auth o.digest w.upgrade.auths request.payload.candidate_auth_id binding now) w

  -- The body of the `try`, but for the result.
  unfoldable pub validated :
      ℕ
      → ℕ
      → ApplyRequest
      → Result RunnerError UpgradeSession
      → Exec RunnerWorld RunnerError Handled
  unfolding with_binding
  validated now later request (err e) w = (err e, w)
  validated now later request (ok session) w =
      with_binding now later request session session.candidate_binding w

  unfoldable pub handle : ℕ → ℕ → ApplyRequest → Exec RunnerWorld RunnerError Handled
  unfolding validate_request validated
  handle now later request w =
      validated now later request (validate_request o w.upgrade.sessions request) w

  -- The result of a success; one that exists is an error, which the `except` reports.
  unfoldable pub report :
      Text → Result RunnerError Handled → RunnerWorld → RunnerState × RunnerWorld
  unfolding find put_result needs_restart
  report id (ok waits) w = (RunnerState.pending, w)
  report id (ok (applied paths)) w =
      let there = is_some (find id w.upgrade.results) in
      (
        if there then RunnerState.failed else RunnerState.succeeded,
        put_result there id
            (record {
              succeeded = true;
              restart_required = needs_restart paths;
              changed_files = paths;
            })
            w,
      )
  report id (err e) w = (
    RunnerState.failed,
    put_result (is_some (find id w.upgrade.results)) id
        (record { succeeded = false; restart_required = false; changed_files = [] }) w,
  )

  unfoldable pub under_lock : ℕ → ℕ → ApplyRequest → RunnerWorld → RunnerState × RunnerWorld
  unfolding handle report release_lock
  under_lock now later request w =
      let (r, after) = handle now later request w in
      let (state, reported) = report request.id r after in (state, release_lock request.id reported)

  unfoldable pub process_new : ℕ → ℕ → ApplyRequest → Bool → RunnerWorld → RunnerState × RunnerWorld
  unfolding under_lock
  process_new now later request true w = (RunnerState.locked, w)
  process_new now later request false w =
      under_lock now later request (record w { locks = request.id ∷ w.locks })

  unfoldable pub process_read :
      ℕ → ℕ → ApplyRequest → Bool → RunnerWorld → RunnerState × RunnerWorld
  unfolding process_new
  process_read now later request true w = (RunnerState.done, w)
  process_read now later request false w =
      process_new now later request (one_of w.locks request.id) w

  unfoldable pub process_file :
      ℕ → ℕ → Option ApplyRequest → RunnerWorld → RunnerState × RunnerWorld
  unfolding find process_read
  process_file now later none w = (RunnerState.invalid, w)
  process_file now later (some request) w =
      process_read now later request (is_some (find request.id w.upgrade.results)) w

  unfoldable pub process_request : ℕ → ℕ → Text → RunnerWorld → RunnerState × RunnerWorld
  unfolding read_json process_file
  process_request now later name w = process_file now later (read_json name w.upgrade.requests) w

  -- The loop of `run_once`, for the names that `glob` gave, each with the times of its call.
  unfoldable pub run_once : List (Text × ℕ × ℕ) → RunnerWorld → List RunnerState × RunnerWorld
  unfolding process_request
  run_once [] w = ([], w)
  run_once ((name, now, later) ∷ files) w =
      let (state, after) = process_request now later name w in
      let (states, end) = run_once files after in (state ∷ states, end)
