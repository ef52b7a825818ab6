-- ===== src/Upgrade/Session.antt =====
-- The session of an upgrade (app/core/authorized_upgrade.py): the file of a session and what a call
-- works on. A call changes the session object in place and writes it with `save_session`.
use agenelf.Base.{
  ℕ, ◌==◌, Bool, true, false, ◌&&◌, Option, none, some, Text, List, [], ◌∷◌, ◌++◌, codes, text_eq,
  is_some, if◌then◌else◌, pos, length, take, drop, after_prefix, all_chars, is_digit, matches_hex,
  ok, err, Exec, ◌>>=◌, pure,
}
use agenelf.Operations.Requests.{Evaluation, read_json}
use agenelf.Permissions.Files.{AuthFiles}
use agenelf.Permissions.Check.{AuthStatus, BindingError}
use agenelf.Permissions.Propose.{ProposeError, Proposal}
use agenelf.Upgrade.Paths.{UpgradeError}
use agenelf.Upgrade.Plan.{Plan, Scope}
use agenelf.Upgrade.Changes.{Tools, Repo, ChangeRecord}

pub data SessionStatus : Type 0 where
  awaiting_intent_approval generating_candidate awaiting_candidate_approval apply_queued :
      SessionStatus
  denied expired failed restart_required succeeded : SessionStatus
  unknown_status : Text → SessionStatus

-- What is raised inside `advance_session`.
pub data SessionError : Type 0 where
  upgrade : UpgradeError → SessionError
  binding : BindingError → SessionError
  proposal : ProposeError → SessionError
  tests_failed no_candidate request_exists illegal_session_id : SessionError

-- The value of `error`.
pub data SessionFailure : Type 0 where
  intent_used_elsewhere intent_mismatch consume_failed candidate_mismatch candidate_used_elsewhere :
      SessionFailure
  runner_failed : SessionFailure
  raised : SessionError → SessionFailure

pub data SessionEvent : Type 0 where
  intent_created intent_denied intent_expired intent_used : SessionEvent
  candidate_ready candidate_denied candidate_expired : SessionEvent
  apply_submitted apply_succeeded apply_failed : SessionEvent
  failure : SessionError → SessionEvent

-- `candidate_binding`.
pub record Candidate : Type 0 where
  pub session_id : Text
  pub intent_auth_id : Text
  pub goal_sha256 : Text
  pub scopes : List Scope
  pub allowed_paths : List Text
  pub changed_files : List ChangeRecord
  pub candidate_tree_sha256 : Text
  pub test_report_sha256 : Text
  pub baseline_manifest_sha256 : Text

-- `candidate_binding` in the file of a session: no such key, a null, or a candidate.
pub data CandidateBinding : Type 0 where
  no_key null : CandidateBinding
  given : Candidate → CandidateBinding

-- `.get("candidate_binding")`.
unfoldable pub binding_of : CandidateBinding → Option Candidate
binding_of no_key = none
binding_of null = none
binding_of (given c) = some c

pub record UpgradeSession : Type 0 where
  pub id : Text
  pub status : SessionStatus
  pub plan : Plan
  pub plan_fingerprint : Text
  pub intent_auth_id : Text
  pub intent_consumed : Bool
  pub candidate_binding : CandidateBinding
  pub candidate_digest : Text
  pub changed_file_records : List ChangeRecord
  pub candidate_auth_id : Text
  pub apply_request_id : Option Text
  pub failure : Option SessionFailure
  pub events : List SessionEvent

-- `_request_payload`; `none` is a binding that is null.
pub record ApplyPayload : Type 0 where
  pub schema_version : ℕ
  pub session_id : Text
  pub intent_auth_id : Text
  pub candidate_auth_id : Text
  pub candidate_binding : Option Candidate
  pub candidate_digest : Text
  pub changed_files : List ChangeRecord
  pub candidate_repo : Text

-- The file of a request, whose payload stands between its other values.
pub record ApplyRequest : Type 0 where
  pub id : Text
  pub payload : ApplyPayload
  pub fingerprint : Text

pub record ApplyResult : Type 0 where
  pub succeeded : Bool
  pub restart_required : Bool
  pub changed_files : List Text

-- The files of the sessions come newest first.
pub record UpgradeWorld : Type 0 where
  pub auths : AuthFiles
  pub sessions : List (Text × Option UpgradeSession)
  pub requests : List (Text × Option ApplyRequest)
  pub results : List (Text × Option ApplyResult)
  pub repo : Repo

-- The session object in the hands of a call, and the files.
pub record Stage : Type 0 where
  pub session : UpgradeSession
  pub world : UpgradeWorld

unfoldable pub without :
    Text → List (Text × Option UpgradeSession) → List (Text × Option UpgradeSession)
without id [] = []
without id ((other, file) ∷ files) =
    let rest = without id files in if text_eq other id then rest else (other, file) ∷ rest

-- The file of a session is replaced, and becomes the newest one.
unfoldable pub put_first :
    Text
    → UpgradeSession
    → List (Text × Option UpgradeSession)
    → List (Text × Option UpgradeSession)
unfolding without
put_first id session files = (id, some session) ∷ without id files

-- `[0-9]{8}-[0-9]{6}-[0-9a-f]{8}`, of a whole text.
unfoldable pub is_stamp : Text → Bool
is_stamp s =
    length s == 24
    && all_chars is_digit (take 8 s)
    && text_eq (take 1 (drop 8 s)) (codes "-")
    && all_chars is_digit (take 6 (drop 9 s))
    && text_eq (take 1 (drop 15 s)) (codes "-")
    && matches_hex 8 (drop 16 s)

-- The test of `_session_path`.
unfoldable pub is_session_id : Text → Bool
unfolding is_stamp
is_session_id id = after_prefix (codes "upgrade-") is_stamp id

-- `load_session`; `none` is its error.
unfoldable pub load_session : Text → List (Text × Option UpgradeSession) → Option UpgradeSession
unfolding is_session_id read_json
load_session id sessions = if is_session_id id then read_json id sessions else none

-- `save_session`.
unfoldable pub save : Exec Stage SessionError (Unit {0})
unfolding put_first is_session_id
save s =
    if is_session_id s.session.id
    then (
      ok tt,
      record s {
        world = record s.world { sessions = put_first s.session.id s.session s.world.sessions };
      },
    )
    else (err illegal_session_id, s)

-- `_event`.
unfoldable pub note : SessionEvent → UpgradeSession → UpgradeSession
note e session = record session { events = session.events ++ e ∷ [] }

-- A new status with an event, and one with an error.
unfoldable pub close : SessionStatus → SessionEvent → Exec Stage SessionError (Unit {0})
unfolding save note
close status e s = save (record s { session = record (note e s.session) { status = status } })

unfoldable pub fail_with : SessionFailure → Exec Stage SessionError (Unit {0})
unfolding save
fail_with f s = save (record s { session = record s.session { status = failed; failure = some f } })

-- `SCHEMA_VERSION`.
abbrev pub current_schema_version : ℕ
current_schema_version = 1

-- The call stops after this.
unfoldable pub stop_after : Exec Stage SessionError (Unit {0}) → Exec Stage SessionError Bool
stop_after m = do _ ← m; pure false

-- What the status of the authorization of the intent leads to: does the call go on?
unfoldable pub after_intent : AuthStatus → Exec Stage SessionError Bool
unfolding stop_after close fail_with
after_intent AuthStatus.denied = stop_after (close denied intent_denied)
after_intent AuthStatus.pending = pure false
after_intent AuthStatus.not_found = pure false
after_intent AuthStatus.expired = stop_after (close expired intent_expired)
after_intent AuthStatus.used = λ s.
    if s.session.intent_consumed
    then (ok true, s)
    else stop_after (fail_with intent_used_elsewhere) s
after_intent AuthStatus.binding_mismatch = stop_after (fail_with intent_mismatch)
after_intent AuthStatus.approved = pure true

-- The same for the authorization of the candidate.
unfoldable pub after_candidate : AuthStatus → Exec Stage SessionError Bool
unfolding stop_after close fail_with
after_candidate AuthStatus.denied = stop_after (close denied candidate_denied)
after_candidate AuthStatus.pending = pure false
after_candidate AuthStatus.not_found = pure false
after_candidate AuthStatus.expired = stop_after (close expired candidate_expired)
after_candidate AuthStatus.binding_mismatch = stop_after (fail_with candidate_mismatch)
after_candidate AuthStatus.used = λ s.
    if is_some s.session.apply_request_id
    then (ok true, s)
    else stop_after (fail_with candidate_used_elsewhere) s
after_candidate AuthStatus.approved = pure true

-- What stands outside: the language model with the parser of its answer, the staging of a working
-- copy and its path, the tests, the digests of a tree and of a payload, the encodings of bindings,
-- and what `request_auth` needs.
pub record Outside : Type 0 where
  pub tools : Tools
  pub staged : UpgradeSession → Repo
  pub answer : UpgradeSession → Repo → List (Text × Text)
  pub run_tests : Repo → Option Text
  pub tree_digest : Repo → Text
  pub baseline_digest : List (Text × Text) → Text
  pub encode_plan : Plan → Text
  pub encode_candidate : Candidate → Text
  pub digest : Text → Text
  pub encode_detail : Text → Text → Text → Text
  pub policy : Text → Text → Option Evaluation
  pub reload_fails : ApplyResult → Bool
  pub payload_digest : ApplyPayload → Text
  pub candidate_repo : Text

-- The proposal of `_request_candidate_approval`, for a binding.
unfoldable pub candidate_proposal : Text → Text → Proposal
candidate_proposal session_id encoded = record {
  skill = codes "authorized_self_upgrade";
  action = codes "approve_tested_candidate";
  detail = codes "批准测试通过的精确升级候选：" ++ session_id;
  reason = codes "批准后仅由隔离 self-upgrade-runner 应用绑定摘要中的文件";
  ttl_seconds = pos 900;
  binding = some encoded;
  operation = codes "owner_authorized_self_upgrade_candidate";
  capability = codes "agent.authorized_self_upgrade";
  channel = codes "cli";
}
