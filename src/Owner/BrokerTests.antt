-- ===== src/Owner/BrokerTests.antt =====
-- Commands of the owner as the runner processes them, and the theorems at these.
use agenelf.Base.{
  if◌then◌else◌, ℕ, ◌*◌, ◌==◌, arith, ◌≡◌, refl, true, Option, none, some, Text, [], ◌∷◌, ◌++◌,
  codes, ok, err, pos,
}
use agenelf.Operations.Requests.{find, read_json, canonical_payload, integer}
use agenelf.Operations.Lifetime.{bounded_int, clamp_int, whole_seconds}
use agenelf.Operations.Lookup.{put}
use agenelf.Permissions.Files.{distinct}
use agenelf.Owner.Files.{
  OwnerRequest, op, is_request_id, validate_request_id, is_actor, sanitize_text, id_of,
  declared_fingerprint, ttl_of, approvers_of, asks_second_confirmation, request_file, load_request,
  binding_print, request_fingerprint,
}
use agenelf.Owner.Decide.{
  action_name, parse_action, parse_actor, is_final, required_approvers, single_decision,
  named_votes, earlier_votes, with_vote, has_quorum, joint_decision, fresh_plan, repeats, make_plan,
  store, after_race, commit, cast, read_ballot, apply_owner_decision,
}
use agenelf.Owner.Commands.{
  CommandError, CommandPayload, OwnerCommand, Order, is_command_id, control_key, raised,
  command_action, check_command_form, check_actor, check_expiry, build_command, prepare_command,
  check_request, verify_owner_command,
}
use agenelf.Owner.RoundTrip.{prepare_command-verify}
use agenelf.Owner.Broker.{
  BrokerFiles, BrokerOutcome, CommandResult, failed, is_decided, operation_is_pending,
  write_command_result, after_failure, write_failure, remove, pending_of, list_pending_operations,
  with_row, denied, decide, deny_one, deny_each, deny_identical_pending, with_superseded, supersede,
  process_owner_command, attempt, handled, process_locked, process, run_once,
}
use agenelf.Owner.Wait.{
  Waited, answered, not_negative, pause, turns_for, after_look, wait_until, wait_for_command_result,
  IsOutcome, wait_for_command_result-ends,
}
use agenelf.Owner.Trust.{is_signed, run_once-unsigned}
use agenelf.Owner.Replay.{run_once-stops, process-once}
use agenelf.Owner.Tests.{codec, host_request, first, second, no_files}

program : Unit {0}
unfolding find read_json canonical_payload bounded_int clamp_int whole_seconds put distinct
    is_request_id validate_request_id is_actor sanitize_text id_of declared_fingerprint ttl_of
    approvers_of asks_second_confirmation request_file load_request binding_print
    request_fingerprint action_name parse_action parse_actor is_final required_approvers
    single_decision named_votes earlier_votes with_vote has_quorum joint_decision fresh_plan repeats
    make_plan store after_race commit cast read_ballot apply_owner_decision is_command_id
    control_key raised command_action check_command_form check_actor check_expiry build_command
    prepare_command check_request verify_owner_command is_decided operation_is_pending
    write_command_result after_failure write_failure remove pending_of list_pending_operations
    with_row denied decide deny_one deny_each deny_identical_pending with_superseded supersede
    process_owner_command attempt handled process_locked process run_once is_signed not_negative
    pause turns_for after_look wait_until wait_for_command_result
program = tt

-- Stands in for the signature: the key, what it is for, and until when.
abbrev sign : Text → CommandPayload → Text
sign secret p = secret ++ p.id ++ p.request_id ++ p.action

abbrev key : Option Text
key = some (codes "0123456789abcdef0123456789abcdef")

abbrev hex : Text
hex = codes "00112233445566ff"

abbrev order : Order
order = record {
  request_id = codes " OP-0123456789abcdef ";
  action = [];
  reason = codes "  looks   fine ";
  decided_by = codes "cli:ann";
  ttl_seconds = integer (pos 5);
  supersede_duplicates = true;
}

abbrev command : OwnerCommand
command =
    let p : CommandPayload = record {
      schema_version = 1;
      id = codes "owner-decision-" ++ hex;
      source = codes "interactive_cli";
      request_id = first;
      request_fingerprint = codec.payload_digest (
          canonical_payload (codes "host_ops") (codes "restart") (codes "web") (some (codes "{}")));
      action = codes "approve";
      reason = codes "looks fine";
      decided_by = codes "cli:ann";
      supersede_duplicates = true;
      issued_at = 8000000;
      expires_at = some 23000000;
      nonce = codes "n";
    } in
    record { payload = p; signature = sign (codes "0123456789abcdef0123456789abcdef") p }

written : prepare_command codec sign 8000000 hex (codes "n") key order no_files ≡ ok command
unfolding program
written = refl

abbrev broker : BrokerFiles
broker = record { owner = no_files; op_results = []; results = []; locks = [] }

abbrev forged : OwnerCommand
forged = record command { signature = codes "guess" }

-- The request is approved, and its duplicate is denied.
applied_and_superseded :
    let after =
      (run_once codec sign 9000000 key (none ∷ some command ∷ some command ∷ []) broker) in
    (after.0 ≡ ok (BrokerOutcome.invalid ∷ BrokerOutcome.applied ∷ BrokerOutcome.done ∷ []))
    × (is_decided (read_json first after.1.owner.decisions) ≡ true)
    × (is_decided (read_json second after.1.owner.decisions) ≡ true)
unfolding program
applied_and_superseded = (refl, refl, refl)

prepare_command-verify_example :
    (asked : OwnerRequest) × (load_request first no_files ≡ ok asked)
    × (request_fingerprint codec asked ≡ ok command.payload.request_fingerprint)
    × (verify_owner_command codec sign 9000000 key command no_files ≡ ok (op (host_request first)))
unfolding program
prepare_command-verify_example =
    prepare_command-verify codec sign 8000000 9000000 hex (codes "n") key order no_files no_files
      refl written refl refl

run_once-unsigned_example :
    (run_once codec sign 9000000 key (none ∷ some forged ∷ []) broker).1.owner ≡ no_files
unfolding program
run_once-unsigned_example =
    run_once-unsigned codec sign 9000000 key (none ∷ some forged ∷ []) broker refl

abbrev poison : OwnerCommand
poison = record command { payload = record command.payload { id = codes "owner-decision-x" } }

run_once-stops_example :
    let after = run_once codec sign 9000000 key (some poison ∷ some command ∷ []) broker in
    (after.0 ≡ err CommandError.illegal_command_id)
    × (after.1.owner ≡ no_files)
    × (after.1.results ≡ [])
unfolding program
run_once-stops_example =
    run_once-stops codec sign 9000000 key poison (some command ∷ []) broker refl refl refl

process-once_example :
    let after = (process codec sign 9000000 key (some command) broker).1 in
    process codec sign 10000000 none (some forged) after ≡ (ok BrokerOutcome.done, after)
unfolding program
process-once_example =
    process-once codec sign 9000000 10000000 key none command forged broker refl refl refl

-- The answer comes at the third turn, after the deadline has passed.
abbrev look : ℕ → Option CommandResult
look i = if i == 2 then some (failed CommandError.bad_signature) else none

abbrev clock : ℕ → ℕ
clock i = i * 30000

waited :
    wait_for_command_result look clock (turns_for (pos 50000)) command.payload.id 0 (pos 50000)
    ≡ ok (some (answered (failed CommandError.bad_signature)))
unfolding program
waited = refl

wait_for_command_result-ends_example :
    (w : Waited) × (wait_for_command_result look clock 4 command.payload.id 0 (pos 50000)
      ≡ ok (some w))
    × IsOutcome look clock 50000 w
unfolding program
wait_for_command_result-ends_example =
    wait_for_command_result-ends look clock command.payload.id 0 (pos 50000) (pos 30000) refl
      (omega arith) (λ j. omega arith)
