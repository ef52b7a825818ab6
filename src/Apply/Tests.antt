-- ===== src/Apply/Tests.antt =====
-- A request that the program has queued, as the runner applies it, and the theorems at that request.
use agenelf.Base.{
  ◌≤◌, ◌≡◌, refl, ◌⊎◌, true, false, Option, none, some, Text, [], ◌∷◌, codes, text_eq,
  if◌then◌else◌, is_some, ok, err, arith,
}
use agenelf.Operations.Requests.{find, read_json}
use agenelf.Upgrade.Session.{UpgradeSession, ApplyRequest, Stage, UpgradeWorld, is_session_id}
use agenelf.Upgrade.Advance.{submit_apply, advance_session}
use agenelf.Upgrade.ScopeTests.{program as upgrade_program, print, records}
use agenelf.Upgrade.Tests.{outside, session_name, session, approved_world}
use agenelf.Apply.Disk.{
  Store, os_error, Disk, put_target, drop_file, next_write, write_target, copy_body, unlinked,
  unlink_target, found_target, target_path,
}
use agenelf.Apply.Backup.{
  saved, back_up, back_up_at, back_up_all, backup_in, backup_targets, manifest_written,
  with_manifest, copy_back, restore, restore_entry, rollback,
}
use agenelf.Apply.Install.{
  rolled_back, needs_restart, paths_of, matches, check_written, install_at, install_all,
  after_rollback, finish, apply_backed_up, apply_files,
}
use agenelf.Apply.World.{
  RunnerState, RunnerWorld, require, list_eq, bool_eq, record_eq, records_eq, scope_eq,
  candidate_eq, binding_eq,
}
use agenelf.Apply.Validate.{
  can_apply, compare_session, validate_request, check_body, has_digest, check_baseline,
  check_target, check_at, verify_records, verify_bound, verify_candidate,
}
use agenelf.Apply.Process.{
  put_result, without_lock, release_lock, candidate_file, installed, apply_request_files,
  after_consume, after_tests, after_verify, after_check, with_binding, validated, handle, report,
  under_lock, process_new, process_read, process_file, process_request,
}
use agenelf.Apply.Touch.{leads_to, touches}
use agenelf.Apply.Complete.{apply_files-all_or_none}
use agenelf.Apply.Refused.{AllReady}
use agenelf.Apply.Steady.{refusals}
use agenelf.Apply.Installed.{Installed}
use agenelf.Apply.Calls.{is_succeeded}
use agenelf.Apply.Authorized.{IsAuthorized}
use agenelf.Apply.Atomic.{Atomic, apply_files-Atomic}
use agenelf.Apply.Writes.{process_request-IsAuthorized}
use agenelf.Apply.Success.{Success, process_request-succeeded}
use agenelf.Apply.RoundTrip.{Accepted, submit_apply-validate_request}
use agenelf.Apply.Again.{is_ended, process_request-again}

program : Unit {0}
unfolding upgrade_program put_target drop_file next_write write_target copy_body unlinked
    unlink_target found_target target_path saved back_up back_up_at back_up_all backup_in
    backup_targets manifest_written with_manifest copy_back restore restore_entry rollback
    needs_restart paths_of matches check_written install_at install_all after_rollback finish
    apply_backed_up apply_files require list_eq bool_eq record_eq records_eq scope_eq candidate_eq
    binding_eq can_apply compare_session validate_request check_body has_digest check_baseline
    check_target check_at verify_records verify_bound verify_candidate put_result without_lock
    release_lock candidate_file installed apply_request_files after_consume after_tests after_verify
    after_check with_binding validated handle report under_lock process_new process_read
    process_file process_request leads_to touches is_succeeded is_ended
program = tt

abbrev resolve : Text → Option Text
resolve name = some name

abbrev targets : Store
targets q = if text_eq q (codes "app/core/a.py") then some (codes "old") else none

abbrev queued_world : UpgradeWorld
queued_world =
    (advance_session outside 3000000 (codes "00") (codes "01") session_name approved_world).1

abbrev runner_world : RunnerWorld
runner_world = record {
  upgrade = queued_world;
  mounted = true;
  links = λ name. false;
  disk = record { targets = targets; backups = []; faults = [] };
  locks = [];
}

abbrev request_name : Text
request_name = codes "self-upgrade-01"

runs :
    (process_request outside resolve 4000000 5000000 request_name runner_world).0
    ≡ RunnerState.succeeded
unfolding program
runs = refl

abbrev end_world : RunnerWorld
end_world = (process_request outside resolve 4000000 5000000 request_name runner_world).1

final_files :
    (end_world.disk.targets (codes "app/core/a.py") ≡ some (codes "new"))
    × (end_world.disk.targets (codes "app/tests/test_a.py") ≡ some (codes "t"))
    × (end_world.locks ≡ [])
unfolding program
final_files = (refl, refl, refl)

-- The second copy is refused: what was copied first is put back.
abbrev faulty_disk : Disk
faulty_disk = record { targets = targets; backups = []; faults = false ∷ false ∷ false ∷ true ∷ [] }

abbrev source : Text → Option Text
source name =
    if text_eq name (codes "app/core/a.py")
    then some (codes "new")
    else if text_eq name (codes "app/tests/test_a.py")
    then some (codes "t")
    else none

rolls_back :
    let after = apply_files resolve print source request_name records faulty_disk in
    (after.0 ≡ err (rolled_back os_error))
    × (after.1.targets (codes "app/core/a.py") ≡ some (codes "old"))
    × (after.1.targets (codes "app/tests/test_a.py") ≡ none)
unfolding program
rolls_back = (refl, refl, refl)

apply_files-Atomic_example :
    let after = apply_files resolve print source request_name records faulty_disk in
    Atomic resolve print source records targets after.1.targets after.0
apply_files-Atomic_example =
    apply_files-Atomic resolve print source request_name records faulty_disk

all_ready : AllReady resolve print source records
unfolding program
all_ready = (
  record {
    path = codes "app/core/a.py";
    body = codes "new";
    target = refl;
    present = refl;
    hashed = refl;
  },
  (
    record {
      path = codes "app/tests/test_a.py";
      body = codes "t";
      target = refl;
      present = refl;
      hashed = refl;
    },
    tt,
  ),
)

few_refusals : refusals faulty_disk.faults ≤ 1
unfolding program refusals
few_refusals = omega arith

apply_files-all_or_none_example :
    let after = apply_files resolve print source request_name records faulty_disk in
    ((after.0 ≡ ok (paths_of records))
      × ((q : Text) → Installed resolve print source records targets after.1.targets q))
    ⊎ ((refusals faulty_disk.faults ≡ 1) × ((q : Text) → after.1.targets q ≡ targets q))
apply_files-all_or_none_example =
    apply_files-all_or_none resolve print source request_name records faulty_disk refl all_ready
      few_refusals

process_request-IsAuthorized_example :
    let after =
      (process_request outside resolve 4000000 5000000 request_name runner_world).1.disk.targets in
    ((q : Text) → after q ≡ runner_world.disk.targets q)
    ⊎ ((request : ApplyRequest) × (session : UpgradeSession) × (read_json request_name
            runner_world.upgrade.requests
          ≡ some request)
        × (read_json request.payload.session_id runner_world.upgrade.sessions ≡ some session)
        × IsAuthorized outside resolve 5000000 runner_world session
        × ((q : Text)
            → (touches resolve (paths_of session.changed_file_records) q ≡ true)
              ⊎ (after q ≡ runner_world.disk.targets q)))
process_request-IsAuthorized_example =
    process_request-IsAuthorized outside resolve 4000000 5000000 request_name runner_world

runs_well :
    is_succeeded (process_request outside resolve 4000000 5000000 request_name runner_world).0
    ≡ true
unfolding program
runs_well = refl

process_request-succeeded_example :
    (request : ApplyRequest) × (session : UpgradeSession) × (read_json request_name
        runner_world.upgrade.requests
      ≡ some request)
    × (read_json request.payload.session_id runner_world.upgrade.sessions ≡ some session)
    × IsAuthorized outside resolve 5000000 runner_world session
    × Success outside resolve runner_world request session end_world
process_request-succeeded_example =
    process_request-succeeded outside resolve 4000000 5000000 request_name runner_world runs_well

runs_out :
    is_ended (process_request outside resolve 4000000 5000000 request_name runner_world).0 ≡ true
unfolding program
runs_out = refl

process_request-again_example :
    process_request outside resolve 6000000 7000000 request_name end_world
    ≡ (RunnerState.done, end_world)
process_request-again_example =
    process_request-again outside resolve 4000000 5000000 6000000 7000000 request_name runner_world
      runs_out

abbrev ready : Option UpgradeSession → Stage
ready none = record { session = session; world = approved_world }
ready (some found) = record { session = found; world = approved_world }

abbrev stage : Stage
stage = ready (read_json session_name approved_world.sessions)

stage_named : is_session_id stage.session.id ≡ true
unfolding program
stage_named = refl

stage_consumed : stage.session.intent_consumed ≡ true
unfolding program
stage_consumed = refl

queues :
    is_some (find request_name (submit_apply outside 3000000 (codes "01") stage).1.world.requests)
    ≡ true
unfolding program
queues = refl

submit_apply-validate_request_example :
    let t = (submit_apply outside 3000000 (codes "01") stage).1 in
    (t.world.requests ≡ stage.world.requests) ⊎ Accepted outside stage t
submit_apply-validate_request_example =
    submit_apply-validate_request outside 3000000 (codes "01") stage (omega arith) stage_named
      stage_consumed
