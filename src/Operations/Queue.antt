-- ===== src/Operations/Queue.antt =====
-- Reading the queue (app/core/operations.py): `_request_payload_matches`,
-- `find_reusable_operation` and `get_operation`. The fingerprint of a payload is an argument: it
-- is the `hashlib` digest of the canonical encoding.
use agenelf.Base.{
  ℕ, Bool, true, false, not, ◌&&◌, ◌||◌, Option, none, some, Text, List, [], ◌∷◌, codes, text_eq,
  is_some, strip, after_prefix, matches_hex, if◌then◌else◌,
}
use agenelf.Operations.Requests.{
  Request, Decision, Payload, Queue, find, read_json, canonical_payload,
}
use agenelf.Operations.Lifetime.{Environment, request_expired, decision_expired}

-- `get_operation` answers with one of these; a result speaks for itself.
pub data OperationStatus : Type 0 where
  not_found expired denied approval_expired approved collecting_approval awaiting_approval queued :
      OperationStatus
  finished : Text → OperationStatus

-- `_validate_operation_id`: the stripped text, if it has the shape of an identifier.
unfoldable pub is_operation_id : Text → Bool
is_operation_id = after_prefix (codes "op-") (matches_hex 16)

-- Is a decision no obstacle to using the request again?
unfoldable pub decision_allows : Option Decision → ℕ → Bool
unfolding decision_expired
decision_allows none now = true
decision_allows (some d) now =
    if text_eq d.decision (codes "deny")
    then false
    else if text_eq d.decision (codes "approve") || text_eq d.decision (codes "collecting")
    then not (decision_expired d now)
    else true

module _ (env : Environment) (digest : Payload → Text) where
  unfoldable pub request_payload_matches : Request → Text → Bool
  unfolding canonical_payload
  request_payload_matches request fingerprint = elim request.parameters [
    | none ↦ false
    | some parameters ↦
        text_eq
          (digest (
            canonical_payload request.capability request.operation request.target
              (some parameters)))
          fingerprint
        && text_eq fingerprint request.fingerprint
  ]

  -- The tests that skip a candidate, in the order of the source.
  unfoldable pub is_reusable : Queue → Text → Text → ℕ → Text → Request → Bool
  unfolding request_payload_matches request_expired decision_allows read_json
  is_reusable q fingerprint risk now name request =
      text_eq request.id name
      && text_eq request.risk risk
      && request_payload_matches request fingerprint
      && not (is_some (find request.id q.results))
      && not (request_expired env request now true)
      && decision_allows (read_json request.id q.decisions) now

  unfoldable pub first_reusable :
      Queue → Text → Text → ℕ → List (Text × Option Request) → Option Request
  unfolding is_reusable
  first_reusable q fingerprint risk now [] = none
  first_reusable q fingerprint risk now ((name, none) ∷ files) =
      first_reusable q fingerprint risk now files
  first_reusable q fingerprint risk now ((name, some request) ∷ files) =
      let rest = first_reusable q fingerprint risk now files in
      if is_reusable q fingerprint risk now name request then some request else rest

  unfoldable pub find_reusable_operation : Queue → Payload → Text → ℕ → Option Request
  unfolding first_reusable
  find_reusable_operation q payload risk now = first_reusable q (digest payload) risk now q.requests

-- The status of a request that has no result and has not expired.
unfoldable pub decided_status : Option Decision → Text → ℕ → OperationStatus
unfolding decision_expired
decided_status none risk now = if text_eq risk (codes "read") then queued else awaiting_approval
decided_status (some d) risk now =
    if text_eq d.decision (codes "deny")
    then denied
    else if (text_eq d.decision (codes "approve") || text_eq d.decision (codes "collecting"))
        && decision_expired d now
    then approval_expired
    else if text_eq d.decision (codes "approve")
    then approved
    else if text_eq d.decision (codes "collecting")
    then collecting_approval
    else awaiting_approval

-- `get_operation` for an identifier that has been validated.
unfoldable pub operation_status : Environment → Queue → Text → ℕ → OperationStatus
unfolding read_json request_expired decided_status
operation_status env q id now = elim (read_json id q.requests) [
  | none ↦ not_found
  | some request ↦ elim (read_json id q.results) [
    | some outcome ↦ finished outcome.status
    | none ↦
        if request_expired env request now true
        then expired
        else decided_status (read_json id q.decisions) request.risk now
  ]
]

-- `none` is the error that `_validate_operation_id` raises.
unfoldable pub get_operation : Environment → Queue → Text → ℕ → Option OperationStatus
unfolding is_operation_id operation_status
get_operation env q operation_id now =
    let id = strip operation_id in
    if is_operation_id id then some (operation_status env q id now) else none
