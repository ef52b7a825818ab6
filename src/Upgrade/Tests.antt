-- ===== src/Upgrade/Tests.antt =====
-- A session of an upgrade as the program runs it, and the theorems at that session.
use agenelf.Base.{
  ◌≡◌, refl, false, ◌⊎◌, none, some, Text, [], ◌∷◌, ◌++◌, codes, one_of, pos, true, is_some,
}
use agenelf.Operations.Requests.{find, read_json, missing, integer}
use agenelf.Permissions.Files.{object, AuthRequest, AuthDecision, has_passed}
use agenelf.Upgrade.Session.{
  awaiting_intent_approval, awaiting_candidate_approval, no_key, null, UpgradeSession, ApplyRequest,
  UpgradeWorld, Outside,
}
use agenelf.Upgrade.Advance.{advance_session}
use agenelf.Upgrade.Authorized.{ForCandidate, ForNull, advance_session-authorized}
use agenelf.Upgrade.ScopeTests.{program, print, plan, tools, repo, changes, records}

abbrev pub outside : Outside
outside = record {
  tools = tools;
  staged = λ s. repo;
  answer = λ s r. changes;
  run_tests = λ r. some (codes "report");
  tree_digest = λ r. codes "tree";
  baseline_digest = λ b. codes "base";
  encode_plan = λ p. p.goal;
  encode_candidate = λ c. codes "candidate " ++ c.session_id;
  digest = print;
  encode_detail = λ skill action detail. skill ++ action ++ detail;
  policy = λ capability operation. none;
  reload_fails = λ r. false;
  payload_digest = λ p. codes "payload " ++ p.candidate_auth_id;
  candidate_repo = codes "/agenelf/app-tmp/repo";
}

abbrev auth_file : Text → Text → AuthRequest
auth_file id binding = record {
  id = id;
  skill = [];
  action = [];
  detail = [];
  reason = [];
  channel = [];
  binding = object binding;
  fingerprint = print binding;
  created_at = some 0;
  expires_at = some 900000000;
  ttl_seconds = integer (pos 900);
  required_approvers = missing;
  require_distinct_humans = false;
  second_confirmation_required = false;
  policy_version = none;
  approval_mode = none;
}

abbrev decision_file : Text → AuthDecision
decision_file binding = record {
  decision = codes "approve";
  approvals = [];
  fingerprint = print binding;
  expires_at = some 900000000;
}

abbrev pub session_name : Text
session_name = codes "upgrade-20260102-030405-0123abcd"

abbrev pub session : UpgradeSession
session = record {
  id = session_name;
  status = awaiting_intent_approval;
  plan = plan;
  plan_fingerprint = plan.fingerprint;
  intent_auth_id = codes "i";
  intent_consumed = false;
  candidate_binding = no_key;
  candidate_digest = [];
  changed_file_records = [];
  candidate_auth_id = [];
  apply_request_id = none;
  failure = none;
  events = [];
}

abbrev pub world : UpgradeWorld
world = record {
  auths = record {
    requests = (codes "i", some (auth_file (codes "i") plan.goal)) ∷ [];
    decisions = (codes "i", some (decision_file plan.goal)) ∷ [];
    consumed = [];
  };
  sessions = (session.id, some session) ∷ [];
  requests = [];
  results = [];
  repo = repo;
}

-- The first call consumes the intent and proposes a candidate; the second waits.
abbrev proposed_world : UpgradeWorld
proposed_world =
    (advance_session outside 1000000 (codes "0123456789ab") (codes "00") session_name world).1

waiting :
    (proposed_world.auths.consumed ≡ codes "i" ∷ [])
    × (proposed_world.requests ≡ [])
    × ((advance_session outside 2000000
          (codes "00")
          (codes "00")
          session_name
          proposed_world).1.requests
        ≡ [])
unfolding program
waiting = (refl, refl, refl)

abbrev pub approved_world : UpgradeWorld
approved_world = record proposed_world {
  auths = record proposed_world.auths {
    decisions =
        (codes "auth-0123456789ab", some (decision_file (codes "candidate " ++ session_name)))
        ∷ proposed_world.auths.decisions;
  };
}

queued :
    (advance_session outside 3000000
      (codes "00")
      (codes "01")
      session_name
      approved_world).1.requests
    ≡ (
      codes "self-upgrade-01",
      some (record {
        id = codes "self-upgrade-01";
        payload = record {
          schema_version = 1;
          session_id = session_name;
          intent_auth_id = codes "i";
          candidate_auth_id = codes "auth-0123456789ab";
          candidate_digest = codes "tree";
          changed_files = records;
          candidate_repo = codes "/agenelf/app-tmp/repo";
          candidate_binding = some (record {
            session_id = session_name;
            intent_auth_id = codes "i";
            goal_sha256 = plan.goal_sha256;
            scopes = plan.scopes;
            allowed_paths = plan.allowed_paths;
            changed_files = records;
            candidate_tree_sha256 = codes "tree";
            test_report_sha256 = codes "report";
            baseline_manifest_sha256 = codes "base";
          });
        };
        fingerprint = codes "payload auth-0123456789ab";
      }),
    )
      ∷ []
unfolding program
queued = refl

advance_session-authorized_example :
    let after =
      (advance_session outside 3000000 (codes "00") (codes "01") session_name approved_world).1 in
    (after.requests ≡ approved_world.requests)
    ⊎ ((name : Text) × (r : ApplyRequest) × (decision : AuthDecision) × (after.requests
          ≡ (name, some r) ∷ approved_world.requests)
        × (read_json r.payload.candidate_auth_id after.auths.decisions ≡ some decision)
        × (decision.decision ≡ codes "approve")
        × (has_passed decision.expires_at 3000000 ≡ false)
        × (one_of after.auths.consumed r.payload.candidate_auth_id ≡ false)
        × (ForCandidate outside r decision ⊎ ForNull outside session_name r approved_world))
advance_session-authorized_example =
    advance_session-authorized outside 3000000 (codes "00") (codes "01") session_name approved_world

-- With a null for the candidate the approval of another binding is enough to queue a request.
abbrev null_world : UpgradeWorld
null_world =
    let held : UpgradeSession = record session {
      status = awaiting_candidate_approval;
      intent_consumed = true;
      candidate_binding = null;
      candidate_auth_id = codes "i";
    } in
    record world { sessions = (session_name, some held) ∷ [] }

queued_for_null :
    is_some (
      find
        (codes "self-upgrade-01")
        (advance_session outside 3000000
          (codes "00")
          (codes "01")
          session_name
          null_world).1.requests)
    ≡ true
unfolding program
queued_for_null = refl

-- A file under another name than the form of a session's is not loaded.
ill_formed :
    (advance_session outside 3000000
      (codes "00")
      (codes "01")
      (codes "s")
      (record world { sessions = (codes "s", some session) ∷ [] })).0
    ≡ none
unfolding program
ill_formed = refl
