-- ===== src/Owner/Replay.antt =====
-- A command is processed once, and a command whose identifier has another form stops the runner
-- (scripts/approval_runner.py).
use agenelf.Base.{
  ℕ, ◌≡◌, refl, ap, ◌∙◌, true, false, ◌==◌, Option, some, Text, List, ◌∷◌, text_eq_refl, one_of,
  is_some, ok, err, Result-cases, Bool-cases, inl, inr,
}
use agenelf.Operations.Requests.{find}
use agenelf.Owner.Files.{OwnerFiles, Codec}
use agenelf.Owner.Commands.{
  CommandError, OwnerCommand, CommandPayload, is_command_id, check_command_form,
  verify_owner_command,
}
use agenelf.Owner.Broker.{
  CommandResult, failed, BrokerFiles, BrokerOutcome, write_command_result, write_failure, remove,
  process_owner_command, attempt, handled, process_locked, after_failure, process, run_once,
}

module _ (codec : Codec) (sign : Text → CommandPayload → Text) where
  verify-ill_formed :
      (now : ℕ) (key : Option Text) (command : OwnerCommand) (files : OwnerFiles)
      → is_command_id command.payload.id ≡ false
      → (e : CommandError) × (verify_owner_command codec sign now key command files ≡ err e)
  unfolding verify_owner_command check_command_form
  verify-ill_formed now key command files h =
      elim (Bool-cases (command.payload.schema_version == 1)) [
        | inr other ↦ (CommandError.wrong_version, rw other refl)
        | inl one ↦ (CommandError.illegal_command_id, rw one (rw h refl))
      ]

  process-ill_formed :
      (now : ℕ) (key : Option Text) (command : OwnerCommand) (files : BrokerFiles)
      → is_command_id command.payload.id ≡ false
      → is_some (find command.payload.id files.results) ≡ false
      → one_of files.locks command.payload.id ≡ false
      → process codec sign now key (some command) files ≡ (
        err CommandError.illegal_command_id,
        record files { locks = remove command.payload.id (command.payload.id ∷ files.locks) },
      )
  unfolding process process_locked attempt process_owner_command handled write_failure
      write_command_result after_failure
  process-ill_formed now key command files bad free unheld =
      let (e, refused) = verify-ill_formed now key command files.owner bad in
      rw free (rw unheld (rw refused (rw bad refl)))

  -- A file whose command has an identifier of another form stops the run: the failure cannot be
  -- written down under such an identifier, and the error leaves `process` and `run_once`. The
  -- files after it are never reached, and nothing of theirs is decided or answered.
  pub run_once-stops :
      (now : ℕ) (key : Option Text) (command : OwnerCommand) (commands : List (Option OwnerCommand))
      (files : BrokerFiles)
      → is_command_id command.payload.id ≡ false
      → is_some (find command.payload.id files.results) ≡ false
      → one_of files.locks command.payload.id ≡ false
      → ((run_once codec sign now key (some command ∷ commands) files).0
          ≡ err CommandError.illegal_command_id)
        × ((run_once codec sign now key (some command ∷ commands) files).1.owner ≡ files.owner)
        × ((run_once codec sign now key (some command ∷ commands) files).1.results ≡ files.results)
  unfolding run_once
  run_once-stops now key command commands files bad free unheld =
      let stopped = process-ill_formed now key command files bad free unheld in
      (rw stopped refl, rw stopped refl, rw stopped refl)

write_command_result-find :
    (id : Text) (result : CommandResult) (files : BrokerFiles)
    → is_command_id id ≡ true
    → is_some (find id (write_command_result id result files).1.results) ≡ true
unfolding write_command_result find
write_command_result-find id result files good =
    elim (Bool-cases (is_some (find id files.results))) [
      | inl there ↦ rw good (rw there there)
      | inr free ↦ rw good (rw free (rw (text_eq_refl id) refl))
    ]

module _ (codec : Codec) (sign : Text → CommandPayload → Text) where
  process_locked-find :
      (now : ℕ) (key : Option Text) (command : OwnerCommand) (files : BrokerFiles)
      → is_command_id command.payload.id ≡ true
      → is_some
          (find command.payload.id (process_locked codec sign now key command files).1.results)
        ≡ true
  unfolding process_locked attempt handled write_failure
  process_locked-find now key command files good =
      let id = command.payload.id in
      let taken = record files { locks = id ∷ files.locks } in
      elim (Result-cases (process_owner_command codec sign now key command taken).0) [
        | inr (e, refused) ↦ rw refused (
            write_command_result-find id (failed e)
              (process_owner_command codec sign now key command taken).1 good)
        | inl (result, went) ↦
            let f = (process_owner_command codec sign now key command taken).1 in
            elim (Result-cases (write_command_result id result f).0) [
              | inr (e, there) ↦ rw went (
                  rw there (
                    write_command_result-find id (failed e) (write_command_result id result f).1
                      good))
              | inl (_, stored) ↦ rw went (rw stored (write_command_result-find id result f good))
            ]
      ]

  -- A command is processed once. After `process` of a command whose identifier has the right form
  -- and is not locked, `process` of any command of that identifier answers that it is done and
  -- changes nothing, at any time and with any key.
  pub process-once :
      (now later : ℕ) (key key' : Option Text) (command again : OwnerCommand) (files : BrokerFiles)
      → is_command_id command.payload.id ≡ true
      → one_of files.locks command.payload.id ≡ false
      → again.payload.id ≡ command.payload.id
      → let after = (process codec sign now key (some command) files).1 in
        process codec sign later key' (some again) after ≡ (ok BrokerOutcome.done, after)
  unfolding process
  process-once now later key key' command again files good unheld same =
      let id = command.payload.id in
      elim (Bool-cases (is_some (find id files.results))) [
        | inl there ↦
            rw there (rw (ap (λ (x : Text). is_some (find x files.results)) same ∙ there) refl)
        | inr free ↦
            let f = (process_locked codec sign now key command files).1 in
            rw free (
              rw unheld (
                rw
                  (ap (λ (x : Text). is_some (find x f.results)) same
                    ∙ process_locked-find now key command files good)
                  refl))
      ]
