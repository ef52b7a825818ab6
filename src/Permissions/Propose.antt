-- ===== src/Permissions/Propose.antt =====
-- `request_auth` of app/core/permissions.py. The policy engine, the encoding of the default binding,
-- the clock and the new identifier are arguments.
use agenelf.Base.{
  ℕ, ◌+◌, ◌*◌, max, Bool, false, not, ◌&&◌, ◌||◌, Option, none, some, Text, List, [], ◌∷◌, ◌++◌,
  codes, text_eq, ltb, ℤ, pos, negsuc, is_some, if◌then◌else◌, ok, err, Exec,
}
use agenelf.Operations.Requests.{missing, integer, find, Evaluation}
use agenelf.Operations.Lifetime.{whole_seconds}
use agenelf.Operations.Submit.{evaluated}
use agenelf.Permissions.Files.{object, AuthRequest, AuthDecision, AuthFiles}

pub data ProposeError : Type 0 where
  too_many_pending creation_failed : ProposeError

-- `MAX_PENDING_REQUESTS`.
abbrev pub max_pending_requests : ℕ
max_pending_requests = 10

-- `binding` is `none` for `None` and for an empty object.
pub record Proposal : Type 0 where
  pub skill : Text
  pub action : Text
  pub detail : Text
  pub reason : Text
  pub ttl_seconds : ℤ
  pub binding : Option Text
  pub operation : Text
  pub capability : Text
  pub channel : Text

unfoldable pub count_undecided :
    List (Text × Option AuthDecision) → List (Text × Option AuthRequest) → ℕ
unfolding find
count_undecided decisions [] = 0
count_undecided decisions ((name, request) ∷ requests) =
    (if is_some (find name decisions) then 0 else 1) + count_undecided decisions requests

-- `_count_pending`.
unfoldable pub count_pending : AuthFiles → ℕ
unfolding count_undecided
count_pending files = count_undecided files.decisions files.requests

-- Is there room for one more?
unfoldable pub may_ask : AuthFiles → Bool
unfolding count_pending
may_ask files = ltb (count_pending files) max_pending_requests

unfoldable pub is_elevated : Option Evaluation → Bool
is_elevated none = false
is_elevated (some e) = text_eq e.approval (codes "owner_elevated")

unfoldable pub is_irreversible : Option Evaluation → Bool
is_irreversible none = false
is_irreversible (some e) = text_eq e.approval (codes "owner_irreversible")

-- `max(1, int(ttl_seconds))`.
unfoldable pub at_least_one : ℤ → ℕ
at_least_one (pos n) = max 1 n
at_least_one (negsuc n) = 1

-- `ELEVATED_TTL_SECONDS` and `IRREVERSIBLE_TTL_SECONDS`.
unfoldable pub effective_ttl : Option Evaluation → ℤ → ℕ
unfolding is_elevated is_irreversible at_least_one
effective_ttl evaluation ttl_seconds =
    if is_elevated evaluation
    then 180
    else if is_irreversible evaluation
    then 120
    else at_least_one ttl_seconds

unfoldable pub needs_two : Option Evaluation → Bool
unfolding is_elevated is_irreversible
needs_two evaluation = is_elevated evaluation || is_irreversible evaluation

-- `binding or {...}`.
unfoldable pub bound_text : (Text → Text → Text → Text) → Proposal → Text
bound_text encode_detail p = elim p.binding [
  | some binding ↦ binding
  | none ↦ encode_detail p.skill p.action p.detail
]

module _ (digest : Text → Text) (encode_detail : Text → Text → Text → Text)
    (policy : Text → Text → Option Evaluation) where
  unfoldable pub build_auth_request : ℕ → Text → Proposal → AuthRequest
  unfolding effective_ttl needs_two is_irreversible whole_seconds evaluated bound_text
  build_auth_request now hex p =
      let evaluation = policy p.capability p.operation in
      let ttl = effective_ttl evaluation p.ttl_seconds in
      record {
        id = codes "auth-" ++ hex;
        skill = p.skill;
        action = p.action;
        detail = p.detail;
        reason = p.reason;
        channel = p.channel;
        binding = object (bound_text encode_detail p);
        fingerprint = digest (bound_text encode_detail p);
        created_at = some (whole_seconds now);
        expires_at = some (whole_seconds (now + ttl * 1000000));
        ttl_seconds = integer (pos ttl);
        required_approvers = if needs_two evaluation then integer (pos 2) else missing;
        require_distinct_humans = needs_two evaluation;
        second_confirmation_required = not (is_elevated evaluation) && is_irreversible evaluation;
        policy_version = evaluated (λ e. e.policy_version) evaluation;
        approval_mode = evaluated (λ e. e.approval) evaluation;
      }

  -- The exclusive `_write`.
  unfoldable pub write_request : AuthRequest → Exec AuthFiles ProposeError Text
  unfolding find
  write_request request files =
      if is_some (find request.id files.requests)
      then (err creation_failed, files)
      else (ok request.id, record files { requests = (request.id, some request) ∷ files.requests })

  unfoldable pub request_auth : ℕ → Text → Proposal → Exec AuthFiles ProposeError Text
  unfolding may_ask build_auth_request write_request
  request_auth now hex p files =
      if may_ask files
      then write_request (build_auth_request now hex p) files
      else (err too_many_pending, files)
