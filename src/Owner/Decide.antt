-- ===== src/Owner/Decide.antt =====
-- `apply_owner_decision` of app/core/owner_approval.py, in two parts: the plan that it makes of what
-- it has read, and the write.
use agenelf.Base.{
  ℕ, ◌+◌, ◌*◌, Bool, false, ◌&&◌, ◌||◌, Option, none, some, Text, List, [], ◌∷◌, ◌++◌, codes,
  text_eq, one_of, strip, lower, is_empty, ltb, leb, length, is_some, if◌then◌else◌, Result, ok,
  err, bind, Exec, ◌>>=◌,
}
use agenelf.Operations.Requests.{find, read_json}
use agenelf.Operations.Lifetime.{bounded_int, whole_seconds}
use agenelf.Operations.Lookup.{put}
use agenelf.Permissions.Files.{Vote, distinct}
use agenelf.Owner.Files.{
  ApprovalError, illegal_action, illegal_actor, already_decided, raced, OwnerRequest, OwnerDecision,
  OwnerFiles, validate_request_id, is_actor, sanitize_text, ttl_of, approvers_of,
  asks_second_confirmation, load_request, Codec, request_fingerprint,
}

pub data Action : Type 0 where
  approve deny : Action

unfoldable pub action_name : Action → Text
action_name approve = codes "approve"
action_name deny = codes "deny"

-- `str(action or "approve").strip().lower()`.
unfoldable pub parse_action : Text → Result ApprovalError Action
parse_action action =
    let s = if is_empty action then codes "approve" else lower (strip action) in
    if text_eq s (codes "approve")
    then ok approve
    else if text_eq s (codes "deny")
    then ok deny
    else err illegal_action

unfoldable pub parse_actor : Text → Result ApprovalError Text
unfolding is_actor
parse_actor decided_by =
    let s = if is_empty decided_by then codes "owner-cli" else strip decided_by in
    if is_actor s then ok s else err illegal_actor

-- A request, an action on it and who acts, all checked.
pub record Ballot : Type 0 where
  pub request_id : Text
  pub request : OwnerRequest
  pub fingerprint : Text
  pub action : Action
  pub actor : Text
  pub reason : Text

unfoldable pub is_final : OwnerDecision → Bool
is_final d = text_eq d.decision (codes "approve") || text_eq d.decision (codes "deny")

unfoldable pub required_approvers : OwnerRequest → ℕ
unfolding approvers_of bounded_int
required_approvers request = bounded_int (approvers_of request) 1 1 10

-- What every decision has; the other fields as for one vote.
unfoldable pub single_decision : ℕ → Text → Ballot → OwnerDecision
unfolding ttl_of bounded_int whole_seconds sanitize_text
single_decision now decision b = record {
  request_id = b.request_id;
  decision = decision;
  required_approvers = none;
  approvals = [];
  fingerprint = b.fingerprint;
  decided_at = whole_seconds now;
  decided_by = b.actor;
  expires_at = some (whole_seconds (now + bounded_int (ttl_of b.request) 300 1 3600 * 1000000));
  second_confirmation_required = false;
  reason = sanitize_text b.reason 1000;
}

unfoldable pub named_votes : List Vote → List Vote
named_votes [] = []
named_votes (none ∷ votes) = named_votes votes
named_votes (some who ∷ votes) = some who ∷ named_votes votes

-- The votes of a decision that is still collecting.
unfoldable pub earlier_votes : Option OwnerDecision → List Vote
unfolding named_votes
earlier_votes none = []
earlier_votes (some d) =
    if text_eq d.decision (codes "collecting") then named_votes d.approvals else []

unfoldable pub with_vote : Text → List Vote → List Vote
unfolding distinct
with_vote actor votes = if one_of (distinct votes) actor then votes else votes ++ some actor ∷ []

unfoldable pub has_quorum : ℕ → List Vote → Bool
unfolding distinct
has_quorum required votes = leb required (length (distinct votes))

unfoldable pub joint_decision : ℕ → Ballot → Option OwnerDecision → OwnerDecision
unfolding single_decision earlier_votes with_vote has_quorum required_approvers
    asks_second_confirmation
joint_decision now b existing =
    let votes = with_vote b.actor (earlier_votes existing) in
    let required = required_approvers b.request in
    record (single_decision now
      (if has_quorum required votes then codes "approve" else codes "collecting") b) {
        required_approvers = some required;
        approvals = votes;
        second_confirmation_required = asks_second_confirmation b.request;
      }

-- What is to be written: nothing, a file in the place of any other, or a file that is not there.
pub data Plan : Type 0 where
  settled replace create : OwnerDecision → Plan

unfoldable pub fresh_plan : Action → ℕ → Ballot → Option OwnerDecision → Plan
unfolding single_decision joint_decision required_approvers
fresh_plan deny now b existing = replace (single_decision now (codes "deny") b)
fresh_plan approve now b existing =
    if ltb 1 (required_approvers b.request)
    then replace (joint_decision now b existing)
    else create (single_decision now (codes "approve") b)

unfoldable pub repeats : Ballot → OwnerDecision → Bool
unfolding action_name
repeats b d = text_eq d.decision (action_name b.action) && text_eq d.fingerprint b.fingerprint

unfoldable pub make_plan : ℕ → Ballot → Option OwnerDecision → Result ApprovalError Plan
unfolding is_final repeats fresh_plan
make_plan now b none = ok (fresh_plan b.action now b none)
make_plan now b (some d) =
    if is_final d
    then (if repeats b d then ok (settled d) else err already_decided)
    else ok (fresh_plan b.action now b (some d))

unfoldable pub store : Text → OwnerDecision → OwnerFiles → OwnerFiles
unfolding put
store id d files = record files { decisions = put id d files.decisions }

-- After a `FileExistsError`.
unfoldable pub after_race : Ballot → Option OwnerDecision → Result ApprovalError OwnerDecision
unfolding repeats
after_race b none = err raced
after_race b (some d) = if repeats b d then ok d else err raced

unfoldable pub commit : Ballot → Plan → Exec OwnerFiles ApprovalError OwnerDecision
unfolding store after_race find read_json
commit b (settled d) files = (ok d, files)
commit b (replace d) files = (ok d, store b.request_id d files)
commit b (create d) files =
    if is_some (find b.request_id files.decisions)
    then (after_race b (read_json b.request_id files.decisions), files)
    else (ok d, store b.request_id d files)

unfoldable pub cast : ℕ → Ballot → Exec OwnerFiles ApprovalError OwnerDecision
unfolding make_plan commit read_json
cast now b = do
  plan ← λ files. (make_plan now b (read_json b.request_id files.decisions), files)
  commit b plan

module _ (codec : Codec) where
  unfoldable pub read_ballot : Text → Text → Text → Text → OwnerFiles → Result ApprovalError Ballot
  unfolding validate_request_id parse_action parse_actor load_request request_fingerprint
  read_ballot request_id action reason decided_by files =
      bind (validate_request_id request_id) λ id. bind (parse_action action) λ act.
        bind (parse_actor decided_by) λ actor. bind (load_request id files) λ request.
          bind (request_fingerprint codec request) λ fingerprint. ok (record {
            request_id = id;
            request = request;
            fingerprint = fingerprint;
            action = act;
            actor = actor;
            reason = reason;
          })

  unfoldable pub apply_owner_decision :
      ℕ → Text → Text → Text → Text → Exec OwnerFiles ApprovalError OwnerDecision
  unfolding read_ballot cast
  apply_owner_decision now request_id action reason decided_by = do
    b ← λ files. (read_ballot request_id action reason decided_by files, files)
    cast now b
