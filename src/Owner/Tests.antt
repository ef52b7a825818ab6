-- ===== src/Owner/Tests.antt =====
-- A host operation and an authorization as the owner decides them, and the theorems at these.
use agenelf.Base.{
  ◌≡◌, refl, true, false, ◌&&◌, none, some, Text, [], ◌∷◌, ◌++◌, codes, one_of, ltb, all, length,
  pos, List,
}
use agenelf.Operations.Requests.{Request, Payload, find, read_json, canonical_payload, integer}
use agenelf.Operations.Lifetime.{bounded_int, clamp_int, whole_seconds}
use agenelf.Operations.Lookup.{put}
use agenelf.Permissions.Files.{
  object, AuthRequest, AuthFiles, is_file_name, has_passed, required_of, distinct,
}
use agenelf.Permissions.Check.{
  still_open, binding_fingerprint, expected_differs, check_binding, lacks_votes, check_decision,
  check_auth,
}
use agenelf.Owner.Files.{
  auth, OwnerDecision, OwnerFiles, Codec, as_auth, is_request_id, validate_request_id, is_actor,
  sanitize_text, id_of, declared_fingerprint, ttl_of, approvers_of, asks_second_confirmation,
  request_file, load_request, binding_print, request_fingerprint,
}
use agenelf.Owner.Decide.{
  approve, Ballot, action_name, parse_action, parse_actor, is_final, required_approvers,
  single_decision, named_votes, earlier_votes, with_vote, has_quorum, joint_decision, fresh_plan,
  repeats, make_plan, store, after_race, commit, cast, read_ballot, apply_owner_decision,
}
use agenelf.Owner.Turns.{Turn, turn, turns}
use agenelf.Owner.Register.{Registers, verdict, turns-Registers}
use agenelf.Owner.People.{approvers, approver, actor_for, add, no_repeats}
use agenelf.Owner.Approved.{auth_decisions, turns-approved}
use agenelf.Owner.Payload.{turns-other_payload}

program : Unit {0}
unfolding find read_json canonical_payload bounded_int clamp_int whole_seconds put is_file_name
    has_passed required_of distinct still_open binding_fingerprint expected_differs check_binding
    lacks_votes check_decision check_auth as_auth is_request_id validate_request_id is_actor
    sanitize_text id_of declared_fingerprint ttl_of approvers_of asks_second_confirmation
    request_file load_request binding_print request_fingerprint action_name parse_action parse_actor
    is_final required_approvers single_decision named_votes earlier_votes with_vote has_quorum
    joint_decision fresh_plan repeats make_plan store after_race commit cast read_ballot
    apply_owner_decision turn turns approvers approver actor_for add no_repeats auth_decisions
    verdict
program = tt

-- Stands in for the digests and the encoding.
abbrev pub codec : Codec
codec = record {
  payload_digest =
      λ (p : Payload). p.capability ++ (0 ∷ p.operation) ++ (0 ∷ p.target) ++ (0 ∷ p.parameters);
  digest = λ s. 7 ∷ s;
  encode_detail = λ skill action detail. skill ++ (0 ∷ action) ++ (0 ∷ detail);
}

abbrev pub host_request : Text → Request
host_request id = record {
  id = id;
  capability = codes "host_ops";
  operation = codes "restart";
  target = codes "web";
  parameters = some (codes "{}");
  risk = codes "change";
  summary = codes "restart it";
  fingerprint = [];
  created_at = some 7000000;
  expires_at = some 1807000000;
  ttl_seconds = integer (pos 300);
  policy_version = none;
  approval_mode = none;
  declared_risk = none;
}

abbrev pub first : Text
first = codes "op-0123456789abcdef"

abbrev pub second : Text
second = codes "op-fedcba9876543210"

abbrev pub joint : Text
joint = codes "auth-0123456789ab"

abbrev pub joint_request : Text → AuthRequest
joint_request binding = record {
  id = joint;
  skill = codes "host_ops";
  action = codes "reboot";
  detail = codes "web";
  reason = codes "kernel update";
  channel = codes "cli";
  binding = object binding;
  fingerprint = [];
  created_at = some 7000000;
  expires_at = some 187000000;
  ttl_seconds = integer (pos 180);
  required_approvers = integer (pos 2);
  require_distinct_humans = true;
  second_confirmation_required = false;
  policy_version = none;
  approval_mode = none;
}

abbrev turn_by : Text → Text → Text → Text → Turn
turn_by id action who binding = record {
  now = 8000000;
  ops = (first, some (host_request first)) ∷ (second, some (host_request second)) ∷ [];
  auths = (joint, some (joint_request binding)) ∷ [];
  request_id = id;
  action = action;
  reason = codes "ok";
  decided_by = who;
}

abbrev pub no_files : OwnerFiles
no_files = record {
  ops = (first, some (host_request first)) ∷ (second, some (host_request second)) ∷ [];
  auths = (joint, some (joint_request (codes "a"))) ∷ [];
  decisions = [];
}

abbrev votes : List Turn
votes =
    turn_by joint (codes "approve") (codes "ann") (codes "a")
    ∷ turn_by joint (codes " Approve") (codes "ann") (codes "a")
    ∷ turn_by joint (codes "approve") (codes "bob") (codes "a")
    ∷ []

abbrev joint_said : OwnerDecision
joint_said = record {
  request_id = joint;
  decision = codes "approve";
  required_approvers = some 2;
  approvals = some (codes "ann") ∷ some (codes "bob") ∷ [];
  fingerprint = 7 ∷ codes "a";
  decided_at = 8000000;
  decided_by = codes "bob";
  expires_at = some 188000000;
  second_confirmation_required = false;
  reason = codes "ok";
}

two_approve : (turns codec votes no_files).decisions ≡ (joint, some joint_said) ∷ []
unfolding program
two_approve = refl

abbrev auths : AuthFiles
auths = record {
  requests = (joint, some (joint_request (codes "a"))) ∷ [];
  decisions =
      (
        joint,
        some (record {
          decision = codes "approve";
          approvals = joint_said.approvals;
          fingerprint = 7 ∷ codes "a";
          expires_at = some 188000000;
        }),
      )
      ∷ [];
  consumed = [];
}

turns-approved_example :
    (request : AuthRequest) × (d : OwnerDecision) × (voters : List Text) × (read_json joint
        auths.requests
      ≡ some request)
    × (read_json joint (turns codec votes no_files).decisions ≡ some d)
    × (one_of (approvers joint votes []) d.decided_by ≡ true)
    × (no_repeats voters ≡ true)
    × (all (one_of (approvers joint votes [])) voters ≡ true)
    × ((ltb 1 (required_of request.required_approvers)
          && ltb (length voters) (required_of request.required_approvers))
        ≡ false)
unfolding program
turns-approved_example = turns-approved codec votes no_files joint auths none 9000000 refl refl refl

abbrev ballot : Text → Text → Ballot
ballot who binding = record {
  request_id = joint;
  request = auth (joint_request binding);
  fingerprint = 7 ∷ binding;
  action = approve;
  actor = who;
  reason = codes "ok";
}

turns-other_payload_example :
    (d : OwnerDecision) × (read_json joint
        (turn codec
          (turn_by joint (codes "approve") (codes "bob") (codes "b"))
          (turn codec
            (turn_by joint (codes "approve") (codes "ann") (codes "a"))
            no_files).1).1.decisions
      ≡ some d)
    × (d.decision ≡ codes "approve")
    × (d.fingerprint ≡ 7 ∷ codes "b")
    × (d.approvals ≡ some (codes "ann") ∷ some (codes "bob") ∷ [])
unfolding program
turns-other_payload_example =
    turns-other_payload codec (turn_by joint (codes "approve") (codes "ann") (codes "a"))
      (turn_by joint (codes "approve") (codes "bob") (codes "b")) no_files
      (ballot (codes "ann") (codes "a")) (ballot (codes "bob") (codes "b")) refl refl refl refl refl
      (record { approves = refl; two = refl }) (record { approves = refl; two = refl })

turns-Registers_example : Registers joint votes none (some approve)
unfolding program
turns-Registers_example = turns-Registers codec votes no_files joint
