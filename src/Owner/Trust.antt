-- ===== src/Owner/Trust.antt =====
-- What the runner of the owner's commands (scripts/approval_runner.py) makes of a directory of
-- commands that the agent may write: it decides by signed commands only.
use agenelf.Base.{
  ℕ, ◌≡◌, refl, ◌∙◌, Bool, true, false, not, ◌&&◌, Option, none, some, Text, List, [], ◌∷◌, text_eq,
  one_of, is_some, arith, Result, ok, err, Result-cases, Bool-cases, inl, inr, continue, ◌>>=◌,
}
use agenelf.Operations.Requests.{find}
use agenelf.Owner.Files.{OwnerFiles, Codec, validate_request_id}
use agenelf.Owner.Commands.{
  CommandError, OwnerCommand, CommandPayload, is_command_id, control_key, raised, command_action,
  check_command_form, check_actor, verify_owner_command,
}
use agenelf.Owner.Broker.{
  CommandResult, failed, BrokerFiles, BrokerOutcome, write_command_result, write_failure,
  process_owner_command, attempt, handled, process_locked, process, run_once,
}

write_command_result-owner :
    (id : Text) (result : CommandResult) (files : BrokerFiles)
    → (write_command_result id result files).1.owner ≡ files.owner
unfolding write_command_result
write_command_result-owner id result files = elim (Bool-cases (is_command_id id)) [
  | inr bad ↦ rw bad refl
  | inl good ↦ elim (Bool-cases (is_some (find id files.results))) [
    | inl there ↦ rw good (rw there refl)
    | inr free ↦ rw good (rw free refl)
  ]
]

module _ (codec : Codec) (sign : Text → CommandPayload → Text) where
  -- Does a command have the signature that the key makes?
  unfoldable pub is_signed : Option Text → OwnerCommand → Bool
  unfolding control_key
  is_signed key command = elim (control_key key) [
    | err e ↦ false
    | ok secret ↦ text_eq command.signature (sign secret command.payload)
  ]

  verify-unsigned :
      (now : ℕ) (key : Option Text) (command : OwnerCommand) (files : OwnerFiles)
      → is_signed key command ≡ false
      → (e : CommandError) × (verify_owner_command codec sign now key command files ≡ err e)
  unfolding verify_owner_command is_signed
  verify-unsigned now key command files h =
      elim (Result-cases (check_command_form command.payload)) [
        | inr (e, bad) ↦ (e, rw bad refl)
        | inl (_, form) ↦
            elim (Result-cases (raised (validate_request_id command.payload.request_id))) [
              | inr (e, bad) ↦ (e, rw form (rw bad refl))
              | inl (id, valid) ↦ elim (Result-cases (command_action command.payload.action)) [
                | inr (e, bad) ↦ (e, rw form (rw valid (rw bad refl)))
                | inl (action, acts) ↦
                    elim (Result-cases (check_actor command.payload.decided_by)) [
                      | inr (e, bad) ↦ (e, rw form (rw valid (rw acts (rw bad refl))))
                      | inl (_, who) ↦ elim (Result-cases (control_key key)) [
                        | inr (e, bad) ↦ (e, rw form (rw valid (rw acts (rw who (rw bad refl)))))
                        | inl (secret, keyed) ↦
                            let forged : text_eq command.signature (sign secret command.payload)
                                ≡ false =
                              ground arith in
                            (
                              CommandError.bad_signature,
                              rw form (rw valid (rw acts (rw who (rw keyed (rw forged refl))))),
                            )
                      ]
                    ]
              ]
            ]
      ]

  attempt-unsigned :
      (now : ℕ) (key : Option Text) (command : OwnerCommand) (files : BrokerFiles)
      → is_signed key command ≡ false
      → (e : CommandError) × (attempt codec sign now key command files ≡ (err e, files))
  unfolding attempt process_owner_command
  attempt-unsigned now key command files h =
      let (e, refused) = verify-unsigned now key command files.owner h in (e, rw refused refl)

  process-unsigned :
      (now : ℕ) (key : Option Text) (command : OwnerCommand) (files : BrokerFiles)
      → is_signed key command ≡ false
      → (process codec sign now key (some command) files).1.owner ≡ files.owner
  unfolding process process_locked handled write_failure
  process-unsigned now key command files h =
      let taken = record files { locks = command.payload.id ∷ files.locks } in
      let (e, refused) = attempt-unsigned now key command taken h in
      elim (Bool-cases (is_some (find command.payload.id files.results))) [
        | inl there ↦ rw there refl
        | inr free ↦ elim (Bool-cases (one_of files.locks command.payload.id)) [
          | inl held ↦ rw free (rw held refl)
          | inr unheld ↦ rw free (
              rw unheld
                (rw refused (write_command_result-owner command.payload.id (failed e) taken)))
        ]
      ]

  -- Is no command of the directory signed? A file that cannot be read is none.
  abbrev pub none_signed : Option Text → List (Option OwnerCommand) → Bool
  none_signed key [] = true
  none_signed key (none ∷ commands) = none_signed key commands
  none_signed key (some command ∷ commands) =
      not (is_signed key command) && none_signed key commands

  then_owner :
      (now : ℕ) (key : Option Text) (commands : List (Option OwnerCommand))
      (first : Result CommandError BrokerOutcome) (files : BrokerFiles)
      → (run_once codec sign now key commands files).1.owner ≡ files.owner
      → (continue first
          (λ o.
            run_once codec sign now key commands >>= λ os. λ (f : BrokerFiles). (ok (o ∷ os), f))
          files).1.owner
        ≡ files.owner
  then_owner now key commands (err e) files h = refl
  then_owner now key commands (ok o) files h =
      elim (Result-cases (run_once codec sign now key commands files).0) [
        | inr (e, raised) ↦ rw raised h
        | inl (os, went) ↦ rw went h
      ]

  -- Commands that nobody signed with the key decide nothing: whatever the directory holds of them,
  -- a run of the runner leaves the requests and the decisions as they are.
  pub run_once-unsigned :
      (now : ℕ) (key : Option Text) (commands : List (Option OwnerCommand)) (files : BrokerFiles)
      → none_signed key commands ≡ true
      → (run_once codec sign now key commands files).1.owner ≡ files.owner
  unfolding run_once
  run_once-unsigned now key [] files h = refl
  run_once-unsigned now key (none ∷ commands) files h =
      then_owner now key commands (process codec sign now key none files).0 files
        (run_once-unsigned now key commands files h)
  run_once-unsigned now key (some command ∷ commands) files h =
      let after = (process codec sign now key (some command) files).1 in
      then_owner now key commands (process codec sign now key (some command) files).0 after
        (run_once-unsigned now key commands after (ground arith))
      ∙ process-unsigned now key command files (ground arith)
