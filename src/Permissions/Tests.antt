-- ===== src/Permissions/Tests.antt =====
-- A small directory of authorizations as the program runs it, and the theorems at that directory.
use agenelf.Base.{
  ◌↔◌, ℕ, ◌+◌, ◌≤◌, ◌≡◌, refl, arith, true, false, Option, none, some, Text, [], ◌∷◌, ◌++◌, codes,
  one_of, length, ok, pos, List, map,
}
use agenelf.Operations.Requests.{find, read_json, Evaluation}
use agenelf.Operations.Lifetime.{whole_seconds}
use agenelf.Operations.Submit.{evaluated}
use agenelf.Permissions.Files.{
  AuthRequest, AuthDecision, AuthFiles, is_file_name, has_passed, required_of, distinct,
}
use agenelf.Permissions.Check.{
  approved, still_open, binding_fingerprint, expected_differs, check_binding, lacks_votes,
  check_decision, check_auth, is_approved, claim, consume_auth,
}
use agenelf.Permissions.Exactly.{Approves, check_auth-Approves}
use agenelf.Permissions.Once.{
  asking, answered, Caller, Moment, caller_step, call, calls, got, winners, calls-once,
}
use agenelf.Permissions.Propose.{
  Proposal, count_undecided, count_pending, may_ask, write_request, is_elevated, is_irreversible,
  at_least_one, effective_ttl, needs_two, bound_text, build_auth_request, request_auth,
}
use agenelf.Permissions.Limit.{request_auth-two}
use agenelf.Permissions.Race.{
  outside, Ask, RaceEvent, working, in_flight, process_step, work, event_step, events,
  events-pending,
}

program : Unit {0}
unfolding find read_json whole_seconds evaluated is_file_name has_passed required_of distinct
    still_open binding_fingerprint expected_differs check_binding lacks_votes check_decision
    check_auth is_approved claim consume_auth caller_step call calls got winners count_undecided
    count_pending is_elevated is_irreversible at_least_one effective_ttl needs_two bound_text
    build_auth_request may_ask write_request request_auth in_flight process_step work event_step
    events
program = tt

-- Stands in for the digest: the text with a mark.
abbrev print : Text → Text
print s = 7 ∷ s

abbrev encoding : Text → Text → Text → Text
encoding skill action detail = skill ++ (0 ∷ action) ++ (0 ∷ detail)

abbrev policy : Text → Text → Option Evaluation
policy capability operation = some (record {
  refused = false;
  manual = true;
  risk = codes "privileged";
  approval = codes "owner_elevated";
  policy_version = codes "1";
})

abbrev hex : Text
hex = codes "0123456789ab"

abbrev proposal : Proposal
proposal = record {
  skill = codes "host_ops";
  action = codes "reboot";
  detail = codes "web";
  reason = codes "kernel update";
  ttl_seconds = pos 600;
  binding = none;
  operation = codes "reboot";
  capability = codes "host_ops";
  channel = codes "cli";
}

abbrev no_files : AuthFiles
no_files = record { requests = []; decisions = []; consumed = [] }

abbrev request : AuthRequest
request = build_auth_request print encoding policy 7500000 hex proposal

abbrev asked_files : AuthFiles
asked_files = record no_files { requests = (request.id, some request) ∷ [] }

abbrev decision : AuthDecision
decision = record {
  decision = codes "approve";
  approvals = some (codes "ann") ∷ some (codes "bob") ∷ [];
  fingerprint = print (encoding proposal.skill proposal.action proposal.detail);
  expires_at = some 180000000;
}

abbrev approved_files : AuthFiles
approved_files = record asked_files { decisions = (request.id, some decision) ∷ [] }

proposed :
    request_auth print encoding policy 7500000 hex proposal no_files ≡ (ok request.id, asked_files)
unfolding program
proposed = refl

is_approved_now : check_auth print approved_files request.id none 9000000 ≡ ok approved
unfolding program
is_approved_now = refl

used_once :
    consume_auth print approved_files request.id none 9000000
    ≡ (ok true, record approved_files { consumed = request.id ∷ [] })
unfolding program
used_once = refl

check_auth-Approves_example :
    (check_auth print approved_files request.id none 9000000 ≡ ok approved) ↔ (
      (is_file_name request.id ≡ true)
      × ((r : AuthRequest) × (d : AuthDecision) × (read_json request.id approved_files.requests
            ≡ some r)
          × (one_of approved_files.consumed request.id ≡ false)
          × (read_json request.id approved_files.decisions ≡ some d)
          × Approves print r d none 9000000))
check_auth-Approves_example = check_auth-Approves print approved_files request.id none 9000000

abbrev moment : Moment
moment = record {
  now = 9000000;
  requests = approved_files.requests;
  decisions = approved_files.decisions;
}

abbrev callers : List Caller
callers =
    (record { id = request.id; expected = none }, asking)
    ∷ (record { id = request.id; expected = none }, asking)
    ∷ []

-- Both have asked before either claims the mark.
abbrev schedule : List (ℕ × Moment)
schedule = (0, moment) ∷ (1, moment) ∷ (1, moment) ∷ (0, moment) ∷ []

second_wins :
    (calls print schedule callers []).0
    ≡ (record { id = request.id; expected = none }, answered false)
      ∷ (record { id = request.id; expected = none }, answered true)
      ∷ []
unfolding program
second_wins = refl

calls-once_example : winners print request.id (calls print schedule callers []).0 + 0 ≤ 1
unfolding program
calls-once_example = calls-once print request.id schedule callers [] refl

-- Nine proposals are open, and two processes count before either writes.
abbrev nine : AuthFiles
nine = record {
  requests =
      map (λ name. (name, none))
        (codes "1"
          ∷ codes "2"
          ∷ codes "3"
          ∷ codes "4"
          ∷ codes "5"
          ∷ codes "6"
          ∷ codes "7"
          ∷ codes "8"
          ∷ codes "9"
          ∷ []);
  decisions = [];
  consumed = [];
}

abbrev ask : Text → Ask
ask name = record { now = 7500000; hex = name; proposal = proposal }

abbrev both_count : List RaceEvent
both_count =
    working 0 (ask (codes "a"))
    ∷ working 1 (ask (codes "b"))
    ∷ working 0 (ask (codes "a"))
    ∷ working 1 (ask (codes "b"))
    ∷ []

eleven :
    count_pending (events print encoding policy both_count (outside ∷ outside ∷ []) nine).1 ≡ 11
unfolding program
eleven = refl

-- One after the other, the second is turned away.
ten :
    count_pending
      (events print encoding policy
        (working 0 (ask (codes "a"))
          ∷ working 0 (ask (codes "a"))
          ∷ working 1 (ask (codes "b"))
          ∷ working 1 (ask (codes "b"))
          ∷ [])
        (outside ∷ outside ∷ [])
        nine).1
    ≡ 10
unfolding program
ten = refl

events-pending_example :
    count_pending (events print encoding policy both_count (outside ∷ outside ∷ []) nine).1 ≤ 10 + 1
unfolding program
events-pending_example =
    events-pending print encoding policy both_count (outside ∷ outside ∷ []) nine 1 (omega arith)
      (omega arith)

request_auth-two_example :
    (d : AuthDecision) × (read_json request.id approved_files.decisions ≡ some d)
    × (d.decision ≡ codes "approve")
    × (d.fingerprint ≡ print (bound_text encoding proposal))
    × (2 ≤ length (distinct d.approvals))
unfolding program
request_auth-two_example =
    request_auth-two print encoding policy 7500000 9000000 hex proposal no_files request.id
      asked_files approved_files none proposed refl refl is_approved_now
