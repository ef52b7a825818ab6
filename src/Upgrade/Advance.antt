-- ===== src/Upgrade/Advance.antt =====
-- `_submit_apply`, `_poll_apply` and `advance_session` of app/core/authorized_upgrade.py. A call
-- reads its clock once.
use agenelf.Base.{
  ℕ, Bool, true, false, Option, none, some, Text, ◌∷◌, ◌++◌, codes, is_some, if◌then◌else◌, Result,
  ok, err, Exec, ◌>>=◌, raise,
}
use agenelf.Operations.Requests.{find, read_json}
use agenelf.Permissions.Check.{AuthStatus, BindingError, check_auth}
use agenelf.Upgrade.Session.{
  SessionStatus, awaiting_intent_approval, awaiting_candidate_approval, apply_queued, failed,
  restart_required, succeeded, SessionError, binding, no_candidate, request_exists, SessionFailure,
  runner_failed, SessionEvent, apply_submitted, apply_succeeded, apply_failed, Candidate,
  CandidateBinding, no_key, binding_of, load_session, UpgradeSession, ApplyRequest, ApplyPayload,
  current_schema_version, ApplyResult, UpgradeWorld, Stage, save, note, close, after_candidate,
  Outside,
}
use agenelf.Upgrade.Generate.{advance_candidate}

-- The last part of `_reload_after_apply`.
unfoldable pub reloaded : Bool → Exec Stage SessionError (Unit {0})
unfolding save
reloaded restart s = save (record s {
  session = record s.session { status = if restart then restart_required else succeeded };
})

module _ (o : Outside) where
  -- `_request_payload`, for the binding of the session.
  unfoldable pub request_payload : Option Candidate → UpgradeSession → ApplyPayload
  request_payload c session = record {
    schema_version = current_schema_version;
    session_id = session.id;
    intent_auth_id = session.intent_auth_id;
    candidate_auth_id = session.candidate_auth_id;
    candidate_binding = c;
    candidate_digest = session.candidate_digest;
    changed_files = session.changed_file_records;
    candidate_repo = o.candidate_repo;
  }

  unfoldable pub apply_request : Text → Option Candidate → UpgradeSession → ApplyRequest
  unfolding request_payload
  apply_request name c session =
      let payload = request_payload c session in
      record { id = name; payload = payload; fingerprint = o.payload_digest payload }

  -- The request to the runner, which is created once.
  unfoldable pub queue_request : Text → Option Candidate → Bool → Exec Stage SessionError (Unit {0})
  unfolding find save note apply_request
  queue_request name c false s = (ok tt, s)
  queue_request name c true s =
      if is_some s.session.apply_request_id
      then (ok tt, s)
      else if is_some (find name s.world.requests)
      then (err request_exists, s)
      else let request = apply_request name c s.session in
        save (record s {
          session = record (note apply_submitted s.session) {
            apply_request_id = some name;
            status = apply_queued;
          };
          world = record s.world { requests = (name, some request) ∷ s.world.requests };
        })

  unfoldable pub checked_candidate :
      Text → Option Candidate → Result BindingError AuthStatus → Exec Stage SessionError (Unit {0})
  unfolding after_candidate queue_request
  checked_candidate hex c (err e) = raise (binding e)
  checked_candidate hex c (ok status) = do
    going ← after_candidate status
    queue_request (codes "self-upgrade-" ++ hex) c going

  -- `expected_binding`: for a null there is none, and `check_auth` compares no binding.
  unfoldable pub expected_of : Option Candidate → Option Text
  expected_of none = none
  expected_of (some c) = some (o.encode_candidate c)

  unfoldable pub submit_candidate : ℕ → Text → CandidateBinding → Exec Stage SessionError (Unit {0})
  unfolding check_auth checked_candidate expected_of binding_of
  submit_candidate now hex no_key s = (err no_candidate, s)
  submit_candidate now hex raw s =
      checked_candidate hex (binding_of raw)
        (check_auth o.digest s.world.auths s.session.candidate_auth_id
          (expected_of (binding_of raw)) now)
        s

  -- `_submit_apply`.
  unfoldable pub submit_apply : ℕ → Text → Exec Stage SessionError (Unit {0})
  unfolding submit_candidate
  submit_apply now hex s = submit_candidate now hex s.session.candidate_binding s

  -- What a result leads to; without one the call returns at its deadline.
  unfoldable pub apply_result : Option ApplyResult → Exec Stage SessionError (Unit {0})
  unfolding note save reloaded close
  apply_result none s = (ok tt, s)
  apply_result (some r) s =
      if r.succeeded
      then reloaded (if r.restart_required then true else o.reload_fails r)
          (record s { session = note apply_succeeded s.session })
      else close failed apply_failed
          (record s { session = record s.session { failure = some runner_failed } })

  -- `_poll_apply`.
  unfoldable pub poll_for : Option Text → Exec Stage SessionError (Unit {0})
  unfolding read_json apply_result
  poll_for none s = (ok tt, s)
  poll_for (some id) s = apply_result (read_json id s.world.results) s

  unfoldable pub poll_apply : Exec Stage SessionError (Unit {0})
  unfolding poll_for
  poll_apply s = poll_for s.session.apply_request_id s

  unfoldable pub when_intent : SessionStatus → ℕ → Text → Exec Stage SessionError (Unit {0})
  unfolding advance_candidate
  when_intent awaiting_intent_approval now hex s = advance_candidate o now hex s
  when_intent _ now hex s = (ok tt, s)

  unfoldable pub when_candidate : SessionStatus → ℕ → Text → Exec Stage SessionError (Unit {0})
  unfolding submit_apply
  when_candidate awaiting_candidate_approval now hex s = submit_apply now hex s
  when_candidate _ now hex s = (ok tt, s)

  unfoldable pub when_queued : SessionStatus → Exec Stage SessionError (Unit {0})
  unfolding poll_apply
  when_queued apply_queued s = poll_apply s
  when_queued _ s = (ok tt, s)

  -- The body of the `try`.
  unfoldable pub try_advance : ℕ → Text → Text → Exec Stage SessionError (Unit {0})
  unfolding when_intent when_candidate when_queued
  try_advance now hex other = do
    _ ← λ s. when_intent s.session.status now hex s
    _ ← λ s. when_candidate s.session.status now other s
    λ s. when_queued s.session.status s

  -- The `except`, which writes the session too.
  unfoldable pub recovered : Result SessionError (Unit {0}) → Exec Stage SessionError (Unit {0})
  unfolding close
  recovered (ok _) s = (ok tt, s)
  recovered (err e) s =
      close failed (SessionEvent.failure e)
        (record s { session = record s.session { failure = some (SessionFailure.raised e) } })

  -- The session that is returned; `none` is an error of the `except`.
  unfoldable pub returned : Result SessionError (Unit {0}) → UpgradeSession → Option UpgradeSession
  returned (ok _) session = some session
  returned (err e) session = none

  unfoldable pub advance_loaded :
      ℕ → Text → Text → Option UpgradeSession → UpgradeWorld → Option UpgradeSession × UpgradeWorld
  unfolding try_advance recovered returned
  advance_loaded now hex other none w = (none, w)
  advance_loaded now hex other (some session) w =
      let (r, s) = try_advance now hex other (record { session = session; world = w }) in
      let (end, t) = recovered r s in (returned end t.session, t.world)

  -- `advance_session`; `none` is an error that leaves it. The call may need two new names.
  unfoldable pub advance_session :
      ℕ → Text → Text → Text → UpgradeWorld → Option UpgradeSession × UpgradeWorld
  unfolding load_session advance_loaded
  advance_session now hex other id w = advance_loaded now hex other (load_session id w.sessions) w
