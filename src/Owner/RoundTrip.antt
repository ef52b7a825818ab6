-- ===== src/Owner/RoundTrip.antt =====
-- A command that `submit_owner_command` writes, as `verify_owner_command` reads it
-- (app/core/owner_approval.py).
use agenelf.Base.{
  ℕ, ◌≡◌, refl, sym, ap, subst, ◌∙◌, true, Option, some, Text, text_eq, text_eq_refl, strip, lower,
  lower-strip_idem, ltb, arith, ◌+◌, ◌*◌, Result-cases, inl, inr, if◌then◌else◌, ok, err, bind,
  matches_hex,
}
use agenelf.Operations.Lifetime.{bounded_int, whole_seconds}
use agenelf.Owner.Files.{
  OwnerRequest, OwnerFiles, Codec, is_request_id, validate_request_id, is_actor, load_request,
  request_fingerprint,
}
use agenelf.Owner.Decide.{Action, approve, deny, action_name, parse_action, parse_actor}
use agenelf.Owner.Commands.{
  CommandPayload, OwnerCommand, Order, is_command_id, control_key, raised, command_action,
  check_command_form, check_actor, check_expiry, build_command, prepare_command, check_request,
  verify_owner_command, command_expired, request_changed,
}

validate_request_id_idem :
    (value : Text) {id : Text} → validate_request_id value ≡ ok id → validate_request_id id ≡ ok id
unfolding validate_request_id
validate_request_id_idem value {id = id} h =
    let same : lower (strip value) ≡ id = ground arith in
    let good : is_request_id (lower (strip value)) ≡ true = ground arith in
    subst (λ (x : Text). validate_request_id x ≡ ok x) same
      (rw (lower-strip_idem value) (rw good refl))

command_action-name : (a : Action) → command_action (action_name a) ≡ ok a
unfolding command_action action_name
command_action-name approve = refl
command_action-name deny = refl

parse_actor-is_actor :
    (who : Text) {actor : Text} → parse_actor who ≡ ok actor → is_actor actor ≡ true
unfolding parse_actor
parse_actor-is_actor who {actor = actor} h = ground arith

module _ (codec : Codec) (sign : Text → CommandPayload → Text) where
  -- What a prepared command went through.
  record Prepared (now : ℕ) (hex nonce : Text) (key : Option Text) (order : Order)
      (files : OwnerFiles) (command : OwnerCommand) : Type 0 where
    id : Text
    action : Action
    actor : Text
    request : OwnerRequest
    fingerprint : Text
    secret : Text
    valid : validate_request_id order.request_id ≡ ok id
    named : parse_actor order.decided_by ≡ ok actor
    loaded : load_request id files ≡ ok request
    printed : request_fingerprint codec request ≡ ok fingerprint
    keyed : control_key key ≡ ok secret
    made :
        (let p = build_command codec sign now hex nonce order id fingerprint action actor in
          record { payload = p; signature = sign secret p })
        ≡ command

  prepare_command-Prepared :
      (now : ℕ) (hex nonce : Text) (key : Option Text) (order : Order) (files : OwnerFiles)
      {command : OwnerCommand}
      → prepare_command codec sign now hex nonce key order files ≡ ok command
      → Prepared now hex nonce key order files command
  unfolding prepare_command raised
  prepare_command-Prepared now hex nonce key order files h =
      elim (Result-cases (validate_request_id order.request_id)) [
        | inr (e, bad) ↦ ground arith
        | inl (id, valid) ↦ elim (Result-cases (parse_action order.action)) [
          | inr (e, bad) ↦ ground arith
          | inl (action, parsed) ↦ elim (Result-cases (parse_actor order.decided_by)) [
            | inr (e, bad) ↦ ground arith
            | inl (actor, named) ↦ elim (Result-cases (load_request id files)) [
              | inr (e, bad) ↦ ground arith
              | inl (request, loaded) ↦ elim (Result-cases (request_fingerprint codec request)) [
                | inr (e, bad) ↦ ground arith
                | inl (fingerprint, printed) ↦ elim (Result-cases (control_key key)) [
                  | inr (e, bad) ↦ ground arith
                  | inl (secret, keyed) ↦ record {
                    id = id;
                    action = action;
                    actor = actor;
                    request = request;
                    fingerprint = fingerprint;
                    secret = secret;
                    valid = valid;
                    named = named;
                    loaded = loaded;
                    printed = printed;
                    keyed = keyed;
                    made = ground arith;
                  }
                ]
              ]
            ]
          ]
        ]
      ]

  check_command_form-built :
      (now : ℕ) (hex nonce : Text) (order : Order) (id fingerprint : Text) (action : Action)
      (actor : Text)
      → matches_hex 16 hex ≡ true
      → check_command_form
          (build_command codec sign now hex nonce order id fingerprint action actor)
        ≡ ok tt
  unfolding check_command_form build_command is_command_id
  check_command_form-built now hex nonce order id fingerprint action actor h = rw h refl

  verify-checked :
      (later : ℕ) (key : Option Text) (p : CommandPayload) (secret : Text) (action : Action)
      (files : OwnerFiles)
      → check_command_form p ≡ ok tt
      → validate_request_id p.request_id ≡ ok p.request_id
      → command_action p.action ≡ ok action
      → is_actor p.decided_by ≡ true
      → control_key key ≡ ok secret
      → verify_owner_command codec sign later key
          (record { payload = p; signature = sign secret p })
          files
        ≡ bind (check_expiry p.expires_at later) λ _. check_request codec sign p p.request_id files
  unfolding verify_owner_command raised check_actor
  verify-checked later key p secret action files form valid acts who keyed =
      rw form (rw valid (rw acts (rw who (rw keyed (rw (text_eq_refl (sign secret p)) refl)))))

  -- What the verification of a command makes of it that was written with the same key.
  verify-Prepared :
      (now later : ℕ) (hex nonce : Text) (key : Option Text) (order : Order) (files at : OwnerFiles)
      {command : OwnerCommand}
      → Prepared now hex nonce key order files command
      → matches_hex 16 hex ≡ true
      → verify_owner_command codec sign later key command at
        ≡ bind
            (check_expiry command.payload.expires_at later)
            λ _. check_request codec sign command.payload command.payload.request_id at
  unfolding build_command
  verify-Prepared now later hex nonce key order files at prepared h =
      let p =
        build_command codec sign now hex nonce order prepared.id prepared.fingerprint
          prepared.action prepared.actor in
      subst
        (λ (c : OwnerCommand).
          verify_owner_command codec sign later key c at
          ≡ bind (check_expiry c.payload.expires_at later)
              λ _. check_request codec sign c.payload c.payload.request_id at)
        prepared.made
        (verify-checked later key p prepared.secret prepared.action at
          (check_command_form-built now hex nonce order prepared.id prepared.fingerprint
            prepared.action prepared.actor h)
          (validate_request_id_idem order.request_id prepared.valid)
          (command_action-name prepared.action)
          (parse_actor-is_actor order.decided_by prepared.named) prepared.keyed)

  check_request-printed :
      (p : CommandPayload) (id : Text) (files : OwnerFiles) {request : OwnerRequest}
      {fingerprint : Text}
      → load_request id files ≡ ok request
      → request_fingerprint codec request ≡ ok fingerprint
      → check_request codec sign p id files
        ≡ (if text_eq p.request_fingerprint fingerprint then ok request else err request_changed)
  unfolding check_request raised
  check_request-printed p id files loaded printed = rw loaded (rw printed refl)

  -- A command that was written is accepted with the same key until it expires, as long as the
  -- request file has the fingerprint that it had: verification then gives the request of the file.
  -- It answers that the request has changed where the fingerprint is another, and that the command
  -- has expired from then on.
  pub prepare_command-verify :
      (now later : ℕ) (hex nonce : Text) (key : Option Text) (order : Order) (files at : OwnerFiles)
      {command : OwnerCommand} {request : OwnerRequest} {fingerprint : Text}
      → matches_hex 16 hex ≡ true
      → prepare_command codec sign now hex nonce key order files ≡ ok command
      → load_request command.payload.request_id at ≡ ok request
      → request_fingerprint codec request ≡ ok fingerprint
      → (asked : OwnerRequest) × (load_request command.payload.request_id files ≡ ok asked)
        × (request_fingerprint codec asked ≡ ok command.payload.request_fingerprint)
        × (verify_owner_command codec sign later key command at ≡ (
            if ltb (whole_seconds (now + bounded_int order.ttl_seconds 120 15 300 * 1000000)) later
            then err command_expired
            else if text_eq command.payload.request_fingerprint fingerprint
            then ok request
            else err request_changed))
  unfolding build_command check_expiry
  prepare_command-verify now later hex nonce key order files at {command = command} h made loaded
        printed =
      let prepared = prepare_command-Prepared now hex nonce key order files made in
      let p =
        build_command codec sign now hex nonce order prepared.id prepared.fingerprint
          prepared.action prepared.actor in
      let payload : p ≡ command.payload = ap (λ (c : OwnerCommand). c.payload) prepared.made in
      let until : some (whole_seconds (now + bounded_int order.ttl_seconds 120 15 300 * 1000000))
          ≡ command.payload.expires_at =
        ap (λ (x : CommandPayload). x.expires_at) payload in
      (
        prepared.request,
        subst (λ (x : CommandPayload). load_request x.request_id files ≡ ok prepared.request)
            payload prepared.loaded,
        subst
            (λ (x : CommandPayload).
              request_fingerprint codec prepared.request ≡ ok x.request_fingerprint)
            payload prepared.printed,
        verify-Prepared now later hex nonce key order files at prepared h
            ∙ (rw
                (check_request-printed command.payload command.payload.request_id at loaded printed)
                (rw (sym until) (ground arith))),
      )
