-- ===== src/Owner/Files.antt =====
-- The files that a decision rests on, and what may stand in them: `validate_request_id`,
-- `load_request`, `canonical_binding` and `request_fingerprint` of app/core/owner_approval.py.
use agenelf.Base.{
  ℕ, Bool, false, not, ◌&&◌, ◌||◌, Option, none, some, Text, List, codes, text_eq, strip, lower,
  is_empty, starts_with, after_prefix, matches_hex, leb, ltb, length, take, all_chars, is_alnum,
  ◌==◌, split, join_words, if◌then◌else◌, Result, ok, err, bind,
}
use agenelf.Operations.Requests.{Request, Payload, RawNumber, missing, read_json, canonical_payload}
use agenelf.Permissions.Files.{object, AuthRequest, AuthDecision, Vote}

-- What is raised: `ApprovalError`, and as `not_comparable` the `TypeError` of `hmac.compare_digest`
-- on a text that is not ASCII.
pub data ApprovalError : Type 0 where
  illegal_request_id missing_request id_differs parameters_not_object request_tampered :
      ApprovalError
  illegal_action illegal_actor already_decided raced : ApprovalError
  not_comparable : ApprovalError

-- A file of `ops-requests` or of `auth-requests`.
pub data OwnerRequest : Type 0 where
  op : Request → OwnerRequest
  auth : AuthRequest → OwnerRequest

-- A file of `auth-decisions`, as the owner writes and reads it. The times of single votes, which
-- nothing reads, are left out.
pub record OwnerDecision : Type 0 where
  pub request_id : Text
  pub decision : Text
  pub required_approvers : Option ℕ
  pub approvals : List Vote
  pub fingerprint : Text
  pub decided_at : ℕ
  pub decided_by : Text
  pub expires_at : Option ℕ
  pub second_confirmation_required : Bool
  pub reason : Text

-- `approval_paths`; `none` is a file that `read_json` cannot read, or a decision that is an empty
-- object.
pub record OwnerFiles : Type 0 where
  pub ops : List (Text × Option Request)
  pub auths : List (Text × Option AuthRequest)
  pub decisions : List (Text × Option OwnerDecision)

-- The same file as core/permissions.py reads it.
unfoldable pub as_auth : OwnerDecision → AuthDecision
as_auth d = record {
  decision = d.decision;
  approvals = d.approvals;
  fingerprint = d.fingerprint;
  expires_at = d.expires_at;
}

-- `_REQUEST_ID_RE.fullmatch`.
unfoldable pub is_request_id : Text → Bool
is_request_id id =
    after_prefix (codes "op-") (matches_hex 16) id
    || after_prefix (codes "auth-") (matches_hex 12) id

unfoldable pub validate_request_id : Text → Result ApprovalError Text
unfolding is_request_id
validate_request_id value =
    let id = lower (strip value) in if is_request_id id then ok id else err illegal_request_id

-- `_ACTOR_RE.fullmatch`.
abbrev pub is_actor_char : ℕ → Bool
is_actor_char c = is_alnum c || c == b'.' || c == b'_' || c == b'@' || c == b':' || c == b'-'

unfoldable pub is_actor : Text → Bool
is_actor s = not (is_empty s) && leb (length s) 96 && all_chars is_actor_char s

-- `_sanitize_text`.
unfoldable pub sanitize_text : Text → ℕ → Text
sanitize_text value limit = take limit (join_words (split (strip value)))

unfoldable pub id_of : OwnerRequest → Text
id_of (op r) = r.id
id_of (auth r) = r.id

unfoldable pub declared_fingerprint : OwnerRequest → Text
declared_fingerprint (op r) = r.fingerprint
declared_fingerprint (auth r) = r.fingerprint

unfoldable pub ttl_of : OwnerRequest → RawNumber
ttl_of (op r) = r.ttl_seconds
ttl_of (auth r) = r.ttl_seconds

-- A request of the operation queue asks for no number of approvers.
unfoldable pub approvers_of : OwnerRequest → RawNumber
approvers_of (op r) = missing
approvers_of (auth r) = r.required_approvers

unfoldable pub asks_second_confirmation : OwnerRequest → Bool
asks_second_confirmation (op r) = false
asks_second_confirmation (auth r) = r.second_confirmation_required

unfoldable pub request_file : Text → OwnerFiles → Option OwnerRequest
unfolding read_json
request_file id files =
    if starts_with (codes "op-") id
    then (elim (read_json id files.ops) [ none ↦ none | some r ↦ some (op r) ])
    else (elim (read_json id files.auths) [ none ↦ none | some r ↦ some (auth r) ])

-- `load_request` of an identifier that has been validated.
unfoldable pub load_request : Text → OwnerFiles → Result ApprovalError OwnerRequest
unfolding request_file id_of
load_request id files = elim (request_file id files) [
  | none ↦ err missing_request
  | some request ↦ if text_eq (strip (id_of request)) id then ok request else err id_differs
]

-- What is hashed: `json.dumps` and `hashlib` stand behind these.
pub record Codec : Type 0 where
  pub payload_digest : Payload → Text
  pub digest : Text → Text
  pub encode_detail : Text → Text → Text → Text

module _ (codec : Codec) where
  -- The digest of `canonical_binding`.
  unfoldable pub binding_print : OwnerRequest → Result ApprovalError Text
  unfolding canonical_payload
  binding_print (op r) = elim r.parameters [
    | none ↦ err parameters_not_object
    | some p ↦
        ok (codec.payload_digest (canonical_payload r.capability r.operation r.target (some p)))
  ]
  binding_print (auth r) = elim r.binding [
    | object b ↦ ok (codec.digest b)
    | _ ↦ ok (codec.digest (codec.encode_detail r.skill r.action r.detail))
  ]

  unfoldable pub request_fingerprint : OwnerRequest → Result ApprovalError Text
  unfolding binding_print declared_fingerprint
  request_fingerprint request = bind (binding_print request) λ fingerprint.
      let declared = strip (declared_fingerprint request) in
      if is_empty declared
      then ok fingerprint
      else if not (all_chars (λ c. ltb c 128) declared)
      then err not_comparable
      else if text_eq declared fingerprint
      then ok fingerprint
      else err request_tampered
