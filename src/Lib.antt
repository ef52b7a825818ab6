-- ===== src/Lib.antt =====
-- Agenelf: the governed core of a self-improving personal agent. The agent plans work as tasks
-- (app/core/task_engine.py) and asks for what it may not do by itself as operations
-- (app/core/operations.py): a request that the owner decides on and that a runner answers, with a
-- risk that the policy engine (app/core/policy.py) can raise or refuse, and that the owner can revoke
-- (app/core/operation_revocation.py). What is not an operation it may use once, by an authorization of
-- the owner (app/core/permissions.py). The owner decides by commands with a signature, which a runner
-- (scripts/approval_runner.py) checks and carries out (app/core/owner_approval.py). Where the agent
-- upgrades its own code, two such authorizations are asked for: one for the intent, and one for the
-- exact candidate (app/core/authorized_upgrade.py); a runner of its own then copies the files of the
-- candidate into the repository (scripts/self_upgrade_runner.py). Every tool of the agent has a contract
-- (app/core/execution_policy.py) that the policy engine judges before the tool runs. Tasks and
-- operations are JSON files; a step of a task names the operation that it waits for.
--
-- The files:
--   Base                  tests on numbers, lists, texts as code points, results, integers
--   Storage, Storage.Write
--                         app/core/storage.py: the hygiene of stored texts, read_json and
--                         atomic_write_json
--   Storage.Bounds, Crash the length of stored texts, and what a write leaves wherever it ends
--   Tasks.States          the state machines of tasks and steps, as the tables of the source
--   Tasks.Data            a task file, the directory of them with the audit log, and the errors
--   Tasks.Normalize       _normalize_steps: a raw plan becomes steps, or an error
--   Tasks.Create, Files, Evidence, Transition, Steps, Next
--                         create; get, _write, _check_revision, _event, _audit; add_evidence;
--                         transition; update_step; next_action and summary
--   Tasks.Atomic to Tasks.Approval
--                         what one call changes and keeps, then what every sequence of calls keeps
--   Operations.Requests   the files of the queue: requests, decisions and results
--   Operations.Lifetime   how long a request and a decision are valid
--   Operations.Queue      find_reusable_operation and get_operation
--   Operations.Submit     submit_operation with the risk that the policy asks for
--   Operations.Safety, Operations.Resubmit
--                         what is reused, what counts as approved, and what is submitted twice
--   Operations.Lookup     what a directory holds after a write
--   Permissions.Files, Check, Propose
--                         check_auth and consume_auth, and request_auth, of app/core/permissions.py
--   Permissions.Binding, Voters, Exactly, Once, Limit, Race
--                         what stands behind an approval, callers in any order, open proposals
--   Owner.Files, Decide   app/core/owner_approval.py: load_request, request_fingerprint and
--                         apply_owner_decision
--   Owner.Turns, Final, Register, People, Votes, Approved, Payload
--                         sequences of decisions, and what permissions.py makes of them
--   Owner.Commands, Broker
--                         submit_owner_command, verify_owner_command, process_owner_command, and
--                         scripts/approval_runner.py
--   Owner.Words           parse_owner_decision
--   Owner.RoundTrip, Trust, Replay, Wait
--                         a command as it is written and read, a directory of any commands, and
--                         wait_for_command_result
--   Upgrade.Paths, Plan, Changes
--                         app/core/authorized_upgrade.py: validate_repo_path, make_plan and
--                         _prepare_changes
--   Upgrade.Session, Create, Generate, Advance
--                         the session of an upgrade: create_or_get_session and advance_session
--   Upgrade.Scoped, Written, InScope, Keep, Settled, Queue, Authorized
--                         what a candidate changes, and what stands behind a request to the runner
--   Apply.Disk, Backup, Install
--                         scripts/self_upgrade_runner.py: target_path, atomic_copy, backup_targets,
--                         rollback and apply_files
--   Apply.World, Validate, Process
--                         validate_request, verify_candidate, process_request and run_once
--   Apply.Touch, Restore, Keeping, BackedUp, Installed, Elsewhere
--                         which files a write, a rollback, a backup and the loop of apply_files change
--   Apply.Atomic, Steady, Refused, Complete
--                         apply_files as a whole, and where writes are refused
--   Apply.Passed, Checked, Calls, Authorized, Writes, Success, Again
--                         the checks that a call has made, what it writes, and a second call
--   Apply.RoundTrip       a request from _submit_apply to validate_request
--   Revocation.World, Runner, Owner, Schedule
--                         process_request of scripts/ops_runner_entry.py and scripts/ops_runner.py,
--                         revoke_operation of app/core/operation_revocation.py, and their schedules
--   Revocation.Exclusion, Answers, Late
--                         the lock, what a confirmed revocation means, and executions after it
--   Policy.Rules, Evaluate, Paths
--                         app/core/policy.py: evaluate, evaluate_declared and is_protected_path
--   Policy.Denial         what the engine allows
--   Execution.Contracts, Table, Resolve, Dispatch
--                         app/core/execution_policy.py: the table of contracts, resolve_contract and
--                         evaluate_contract
--   Execution.Audit       audit_dispatch
--   Execution.Coherence   risk and mode of a contract
--
-- How state is modelled: a call takes the state and returns a result with the next state, so a call
-- that raises still shows what it has written before. A directory of task files is a list from an
-- identifier to a file, and a file is a task or a text that is no task. Each call reads the file
-- again, as the source does.
--
-- Runner and revocation share the result file and the lock file of a request. Each is a process cut
-- at the calls that touch these, a schedule is a list that says which process steps next and what it
-- finds then; any number of processes can take part. The callers of consume_auth are cut in the same
-- way between the check and the mark of the use.
--
-- The agent can write the request files and the directory of commands. Calls of apply_owner_decision
-- therefore come in sequences in which each call finds any request files, and the runner of the
-- commands gets any list of them. Digests, encodings and the signature are arguments (Codec, sign).
--
-- The runner of the upgrades works on the files below its target and on the directory of its
-- backups; a list says which of its next writes the system refuses, so apply_files can fail at each
-- of them. How the system resolves a path below the target is an argument. A write of storage.py is
-- cut at its system calls, each with an answer, and a crash is the end of the answers.
--
-- Values: a text is the list of its code points; a JSON value that the code only stores or hashes is
-- its canonical encoding. Clock, uuid, digest and environment variables are arguments, and so is the
-- policy engine where an operation is submitted; what an upgrade needs of the language model, of the
-- tests of a candidate and of parsers is the record Outside. Each operation reads its clock once,
-- except the runner of the upgrades, which reads it again after the tests.
-- Times of tasks are numbers, times of operations microseconds.
-- Every function is by structural recursion; only the loop of wait_for_command_result, which reads a
-- clock, runs on fuel: turns_for gives as much as it can use, as each turn pauses 20 milliseconds.
--
-- Not modelled: errors of the file system outside Storage and Apply (a call of the task engine raises
-- by one of its own checks only, and all its writes succeed), the texts for the owner, the web
-- and the command line, the language model, the choice of a pending operation, the retries around an
-- upgrade (app/core/authorized_upgrade_recovery.py), the run of a candidate's tests
-- (scripts/run_authorized_upgrade_tests.py), and what a runner does on a server, which is an input of
-- its step, as are the validation of a request and its authorization there. Names of files are taken
-- as texts: two names for one file in a backup lead to one target, and a request's id is one name.
-- The other modules of app/core (the agent's loop, its memory and context, autonomy and model routing,
-- self-development, health and configuration), the skills, the interfaces, the policies on upgrades of
-- single services, node/ and web/ are not modelled: they call the parts above, language models and
-- services, or format texts.
pub mod Base
pub mod Storage
pub mod Tasks
pub mod Operations
pub mod Revocation
pub mod Policy
pub mod Execution
pub mod Permissions
pub mod Owner
pub mod Upgrade
pub mod Apply
