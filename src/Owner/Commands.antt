-- ===== src/Owner/Commands.antt =====
-- Signed commands of the owner: `submit_owner_command`, `verify_owner_command` and
-- `process_owner_command` of app/core/owner_approval.py. The signature stands for `hmac` over the
-- canonical encoding.
use agenelf.Base.{
  ℕ, ◌+◌, ◌*◌, ◌==◌, Bool, not, Option, none, some, Text, ◌++◌, codes, text_eq, lower, ltb, length,
  after_prefix, matches_hex, if◌then◌else◌, Result, ok, err, bind,
}
use agenelf.Operations.Requests.{RawNumber}
use agenelf.Operations.Lifetime.{bounded_int, whole_seconds}
use agenelf.Owner.Files.{
  ApprovalError, illegal_action, illegal_actor, OwnerRequest, OwnerFiles, Codec,
  validate_request_id, is_actor, sanitize_text, load_request, request_fingerprint,
}
use agenelf.Owner.Decide.{Action, approve, deny, action_name, parse_action, parse_actor}

pub data CommandError : Type 0 where
  key_unavailable key_too_short : CommandError
  wrong_version illegal_command_id wrong_source bad_signature no_expiry command_expired :
      CommandError
  request_changed command_exists : CommandError
  approval : ApprovalError → CommandError

-- What is signed.
pub record CommandPayload : Type 0 where
  pub schema_version : ℕ
  pub id : Text
  pub source : Text
  pub request_id : Text
  pub request_fingerprint : Text
  pub action : Text
  pub reason : Text
  pub decided_by : Text
  pub supersede_duplicates : Bool
  pub issued_at : ℕ
  pub expires_at : Option ℕ
  pub nonce : Text

pub record OwnerCommand : Type 0 where
  pub payload : CommandPayload
  pub signature : Text

-- `_COMMAND_ID_RE.fullmatch`.
unfoldable pub is_command_id : Text → Bool
is_command_id = after_prefix (codes "owner-decision-") (matches_hex 16)

-- `_control_key_bytes`; `none` is a key file that cannot be read.
unfoldable pub control_key : Option Text → Result CommandError Text
control_key none = err key_unavailable
control_key (some key) = if ltb (length key) 32 then err key_too_short else ok key

unfoldable pub raised {ℓ} : {A : Type ℓ} → Result ApprovalError A → Result CommandError A
raised (ok a) = ok a
raised (err e) = err (approval e)

-- `str(command.get("action", "")).lower()`, with no default and no strip.
unfoldable pub command_action : Text → Result CommandError Action
command_action action =
    let s = lower action in
    if text_eq s (codes "approve")
    then ok approve
    else if text_eq s (codes "deny")
    then ok deny
    else err (approval illegal_action)

unfoldable pub check_command_form : CommandPayload → Result CommandError (Unit {0})
unfolding is_command_id
check_command_form p =
    if not (p.schema_version == 1)
    then err wrong_version
    else if not (is_command_id p.id)
    then err illegal_command_id
    else if not (text_eq p.source (codes "interactive_cli"))
    then err wrong_source
    else ok tt

unfoldable pub check_actor : Text → Result CommandError (Unit {0})
unfolding is_actor
check_actor who = if is_actor who then ok tt else err (approval illegal_actor)

unfoldable pub check_expiry : Option ℕ → ℕ → Result CommandError (Unit {0})
check_expiry none now = err no_expiry
check_expiry (some t) now = if ltb t now then err command_expired else ok tt

-- What is asked of the caller.
pub record Order : Type 0 where
  pub request_id : Text
  pub action : Text
  pub reason : Text
  pub decided_by : Text
  pub ttl_seconds : RawNumber
  pub supersede_duplicates : Bool

module _ (codec : Codec) (sign : Text → CommandPayload → Text) where
  unfoldable pub build_command :
      ℕ → Text → Text → Order → Text → Text → Action → Text → CommandPayload
  unfolding bounded_int whole_seconds sanitize_text action_name
  build_command now hex nonce order id fingerprint action actor = record {
    schema_version = 1;
    id = codes "owner-decision-" ++ hex;
    source = codes "interactive_cli";
    request_id = id;
    request_fingerprint = fingerprint;
    action = action_name action;
    reason = sanitize_text order.reason 1000;
    decided_by = actor;
    supersede_duplicates = order.supersede_duplicates;
    issued_at = whole_seconds now;
    expires_at = some (whole_seconds (now + bounded_int order.ttl_seconds 120 15 300 * 1000000));
    nonce = nonce;
  }

  -- The command that is written, before the exclusive creation of its file.
  unfoldable pub prepare_command :
      ℕ → Text → Text → Option Text → Order → OwnerFiles → Result CommandError OwnerCommand
  unfolding build_command control_key raised validate_request_id parse_action parse_actor
      load_request request_fingerprint
  prepare_command now hex nonce key order files =
      bind (raised (validate_request_id order.request_id)) λ id.
        bind (raised (parse_action order.action)) λ action.
          bind (raised (parse_actor order.decided_by)) λ actor.
            bind (raised (load_request id files)) λ request.
              bind (raised (request_fingerprint codec request)) λ fingerprint.
                bind (control_key key) λ secret.
                  let p = build_command now hex nonce order id fingerprint action actor in
                  ok (record { payload = p; signature = sign secret p })

  -- The request file that the command names, once its signature and its time have been checked.
  unfoldable pub check_request :
      CommandPayload → Text → OwnerFiles → Result CommandError OwnerRequest
  unfolding raised load_request request_fingerprint
  check_request p id files = bind (raised (load_request id files)) λ request.
      bind (raised (request_fingerprint codec request)) λ fingerprint.
        if text_eq p.request_fingerprint fingerprint then ok request else err request_changed

  unfoldable pub verify_owner_command :
      ℕ → Option Text → OwnerCommand → OwnerFiles → Result CommandError OwnerRequest
  unfolding check_command_form raised validate_request_id command_action check_actor control_key
      check_expiry check_request
  verify_owner_command now key command files =
      let p = command.payload in
      bind (check_command_form p) λ _. bind (raised (validate_request_id p.request_id)) λ id.
        bind (command_action p.action) λ _. bind (check_actor p.decided_by) λ _.
          bind (control_key key) λ secret.
            if not (text_eq command.signature (sign secret p))
            then err bad_signature
            else bind (check_expiry p.expires_at now) λ _. check_request p id files
