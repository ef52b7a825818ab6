-- ===== src/Owner/Broker.antt =====
-- The pending operations, `_deny_identical_pending`, `process_owner_command` and
-- `write_command_result` (app/core/owner_approval.py), and the runner of the owner's commands
-- (scripts/approval_runner.py). An identifier has no path separator in it, and that of a file of
-- the queue begins with "op-".
use agenelf.Base.{
  ℕ, Bool, false, not, ◌&&◌, ◌||◌, Option, none, some, Text, List, [], ◌∷◌, ◌++◌, codes, text_eq,
  one_of, is_some, starts_with, if◌then◌else◌, Result, ok, err, bind, Exec, ◌>>=◌,
}
use agenelf.Operations.Requests.{Request, find, read_json}
use agenelf.Owner.Files.{
  ApprovalError, OwnerRequest, op, OwnerDecision, OwnerFiles, Codec, request_fingerprint,
}
use agenelf.Owner.Decide.{is_final, apply_owner_decision}
use agenelf.Owner.Commands.{
  CommandError, command_exists, approval, OwnerCommand, CommandPayload, is_command_id, raised,
  verify_owner_command,
}

-- A file of the results of commands.
pub data CommandResult : Type 0 where
  succeeded : OwnerDecision → List Text → CommandResult
  failed : CommandError → CommandResult

-- `op_results`, `locks`: the names that are there.
pub record BrokerFiles : Type 0 where
  pub owner : OwnerFiles
  pub op_results : List Text
  pub results : List (Text × CommandResult)
  pub locks : List Text

pub record PendingOperation : Type 0 where
  pub id : Text
  pub fingerprint : Text

unfoldable pub is_decided : Option OwnerDecision → Bool
unfolding is_final
is_decided none = false
is_decided (some d) = is_final d

-- `_operation_is_pending`.
unfoldable pub operation_is_pending : Request → BrokerFiles → Bool
unfolding is_decided read_json
operation_is_pending request files =
    not (one_of files.op_results request.id)
    && not (is_decided (read_json request.id files.owner.decisions))
    && not (text_eq request.risk (codes "read"))

unfoldable pub write_command_result :
    Text → CommandResult → Exec BrokerFiles CommandError (Unit {0})
unfolding is_command_id find
write_command_result id result files =
    if not (is_command_id id)
    then (err CommandError.illegal_command_id, files)
    else if is_some (find id files.results)
    then (err CommandError.command_exists, files)
    else (ok tt, record files { results = (id, result) ∷ files.results })

-- What `process` returns.
pub data BrokerOutcome : Type 0 where
  invalid done locked applied rejected : BrokerOutcome

-- `_write_failure`: a result that is there already is no error.
unfoldable pub after_failure : Result CommandError (Unit {0}) → Result CommandError BrokerOutcome
after_failure (ok _) = ok rejected
after_failure (err command_exists) = ok rejected
after_failure (err other) = err other

unfoldable pub write_failure : Text → CommandError → Exec BrokerFiles CommandError BrokerOutcome
unfolding write_command_result after_failure
write_failure id e files =
    let (r, files') = write_command_result id (failed e) files in (after_failure r, files')

unfoldable pub remove : Text → List Text → List Text
remove name [] = []
remove name (other ∷ names) =
    let rest = remove name names in if text_eq other name then rest else other ∷ rest

module _ (codec : Codec) where
  -- A row, when the fingerprint of its request could be computed. `ApprovalError` skips the request;
  -- another exception ends the loop.
  unfoldable pub with_row :
      Text
      → Result ApprovalError Text
      → List PendingOperation
      → Result CommandError (List PendingOperation)
  with_row id (ok fingerprint) rest = ok (record { id = id; fingerprint = fingerprint } ∷ rest)
  with_row id (err ApprovalError.not_comparable) rest = err (approval ApprovalError.not_comparable)
  with_row id (err e) rest = ok rest

  -- The rows of `list_pending_operations`, in the order of the queue.
  unfoldable pub pending_of :
      BrokerFiles → List (Text × Option Request) → Result CommandError (List PendingOperation)
  unfolding operation_is_pending request_fingerprint with_row
  pending_of files [] = ok []
  pending_of files ((name, none) ∷ requests) = pending_of files requests
  pending_of files ((name, some request) ∷ requests) = bind (pending_of files requests) λ rest.
      if not (operation_is_pending request files)
      then ok rest
      else with_row request.id (request_fingerprint codec (op request)) rest

  unfoldable pub list_pending_operations : BrokerFiles → Result CommandError (List PendingOperation)
  unfolding pending_of
  list_pending_operations files = pending_of files files.owner.ops

  unfoldable pub decide :
      ℕ → Text → Text → Text → Text → Exec BrokerFiles CommandError OwnerDecision
  unfolding apply_owner_decision raised
  decide now id action reason actor files =
      let (r, owner) = apply_owner_decision codec now id action reason actor files.owner in
      (raised r, record files { owner = owner })

  -- What a denial adds to the list; `except ApprovalError` goes on without it.
  unfoldable pub denied : Text → Result CommandError OwnerDecision → Result CommandError (List Text)
  denied id (ok _) = ok (id ∷ [])
  denied id (err (approval ApprovalError.not_comparable)) =
      err (approval ApprovalError.not_comparable)
  denied id (err e) = ok []

  -- One turn of the loop of `_deny_identical_pending`.
  unfoldable pub deny_one :
      ℕ → Text → Text → Text → PendingOperation → Exec BrokerFiles CommandError (List Text)
  unfolding decide denied
  deny_one now approved fingerprint actor item files =
      if text_eq item.id approved || not (text_eq item.fingerprint fingerprint)
      then (ok [], files)
      else let (r, files') =
          decide now item.id (codes "deny") (codes "superseded by approved duplicate " ++ approved)
            actor files in
        (denied item.id r, files')

  unfoldable pub deny_each :
      ℕ → Text → Text → Text → List PendingOperation → Exec BrokerFiles CommandError (List Text)
  unfolding deny_one
  deny_each now approved fingerprint actor [] = λ files. (ok [], files)
  deny_each now approved fingerprint actor (item ∷ items) = do
    own ← deny_one now approved fingerprint actor item
    ids ← deny_each now approved fingerprint actor items
    λ files. (ok (own ++ ids), files)

  unfoldable pub deny_identical_pending :
      ℕ → Text → Text → Text → Exec BrokerFiles CommandError (List Text)
  unfolding deny_each list_pending_operations
  deny_identical_pending now approved fingerprint actor = do
    items ← λ files. (list_pending_operations files, files)
    deny_each now approved fingerprint actor items

  unfoldable pub with_superseded :
      ℕ
      → CommandPayload
      → OwnerRequest
      → OwnerDecision
      → Exec BrokerFiles CommandError CommandResult
  unfolding deny_identical_pending request_fingerprint raised
  with_superseded now p request decision = do
    fingerprint ← λ files. (raised (request_fingerprint codec request), files)
    ids ← deny_identical_pending now p.request_id fingerprint p.decided_by
    λ files. (ok (succeeded decision ids), files)

  unfoldable pub supersede :
      ℕ
      → CommandPayload
      → OwnerRequest
      → OwnerDecision
      → Exec BrokerFiles CommandError CommandResult
  unfolding with_superseded
  supersede now p request decision files =
      if text_eq p.action (codes "approve")
        && p.supersede_duplicates
        && starts_with (codes "op-") p.request_id
      then with_superseded now p request decision files
      else (ok (succeeded decision []), files)

  module _ (sign : Text → CommandPayload → Text) where
    unfoldable pub process_owner_command :
        ℕ → Option Text → OwnerCommand → Exec BrokerFiles CommandError CommandResult
    unfolding verify_owner_command decide supersede
    process_owner_command now key command = do
      let p = command.payload
      request ← λ files. (verify_owner_command codec sign now key command files.owner, files)
      decision ← decide now p.request_id p.action p.reason p.decided_by
      supersede now p request decision

    -- The body of the `try`.
    unfoldable pub attempt :
        ℕ → Option Text → OwnerCommand → Exec BrokerFiles CommandError BrokerOutcome
    unfolding process_owner_command write_command_result
    attempt now key command = do
      result ← process_owner_command now key command
      _ ← write_command_result command.payload.id result
      λ files. (ok applied, files)

    unfoldable pub handled :
        Text
        → Result CommandError BrokerOutcome
        → BrokerFiles
        → Result CommandError BrokerOutcome × BrokerFiles
    unfolding write_failure
    handled id (ok outcome) files = (ok outcome, files)
    handled id (err e) files = write_failure id e files

    -- The work under the lock, which is removed whatever becomes of it.
    unfoldable pub process_locked :
        ℕ → Option Text → OwnerCommand → Exec BrokerFiles CommandError BrokerOutcome
    unfolding attempt handled remove
    process_locked now key command files =
        let id = command.payload.id in
        let (r, files') = attempt now key command (record files { locks = id ∷ files.locks }) in
        let (outcome, files'') = handled id r files' in
        (outcome, record files'' { locks = remove id files''.locks })

    -- `ApprovalRunner.process` of a file, as `read_json` reads it.
    unfoldable pub process :
        ℕ → Option Text → Option OwnerCommand → Exec BrokerFiles CommandError BrokerOutcome
    unfolding process_locked find
    process now key none files = (ok invalid, files)
    process now key (some command) files =
        if is_some (find command.payload.id files.results)
        then (ok done, files)
        else if one_of files.locks command.payload.id
        then (ok locked, files)
        else process_locked now key command files

    -- `run_once`, up to the counts: what `process` returns for each file, in the order of the names.
    unfoldable pub run_once :
        ℕ
        → Option Text
        → List (Option OwnerCommand)
        → Exec BrokerFiles CommandError (List BrokerOutcome)
    unfolding process
    run_once now key [] = λ files. (ok [], files)
    run_once now key (command ∷ commands) = do
      outcome ← process now key command
      outcomes ← run_once now key commands
      λ files. (ok (outcome ∷ outcomes), files)
