-- ===== src/Execution/Tests.antt =====
-- Contracts as the program resolves and judges them, and the theorems at them.
use agenelf.Base.{◌≡◌, refl, true, false, some, none, List, [], ◌∷◌, codes}
use agenelf.Policy.Tests.{file}
use agenelf.Policy.Rules.{Verdict, privileged}
use agenelf.Policy.Evaluate.{subject_of, evaluate_declared}
use agenelf.Execution.Contracts.{
  pure, queued_runner, exact_operation, ToolExecutionContract, contract,
}
use agenelf.Execution.Table.{explicit_contracts}
use agenelf.Execution.Resolve.{Arguments, SkillModule, lookup, resolve_contract, from_source}
use agenelf.Execution.Dispatch.{evaluate_contract}
use agenelf.Execution.Audit.{DispatchLine, audit_dispatch}
use agenelf.Execution.Coherence.{fits, serves, evaluate_contract-allowed}

program : Unit {0}
unfolding audit_dispatch resolve_contract evaluate_contract evaluate_declared contract lookup
    explicit_contracts from_source fits serves
program = tt

abbrev install_docker : ToolExecutionContract
install_docker =
    contract (codes "install_docker") (codes "server.operations") (codes "docker_install")
      (codes "privileged") queued_runner

abbrev shell : SkillModule
shell = record {
  capability = some (
    codes "shell",
    record { name = codes "run"; risk = codes "Privileged"; execution_mode = codes "pure" } ∷ [],
  );
  skill_name = codes "shell";
}

abbrev no_arguments : Arguments
no_arguments = record { action = []; apply_changes = false }

resolved : resolve_contract (codes "install_docker ") no_arguments shell ≡ some install_docker
unfolding program
resolved = refl

-- A skill may declare a privileged operation as pure; the judgement is what stops it.
declared :
    resolve_contract (codes "run") no_arguments shell
    ≡ some (
        from_source exact_operation
          (codes "run")
          (codes "shell")
          (codes "run")
          (codes "privileged")
          pure)
unfolding program
declared = refl

abbrev verdict : Verdict
verdict = record {
  allowed = true;
  risk = privileged;
  approval = codes "owner_elevated";
  auto_execute = false;
  requires_textual_confirmation = false;
  second_confirmation_required = false;
  rollback_required = true;
  policy_version = codes "1";
}

evaluate_contract-allowed_example :
    (fits install_docker.execution_mode install_docker.risk ≡ true)
    × (serves install_docker.execution_mode (subject_of (codes "cli")) ≡ true)
    × ((evaluate_declared
          (some file)
          install_docker.operation
          install_docker.risk
          (subject_of (codes "cli"))).allowed
        ≡ true)
unfolding program
evaluate_contract-allowed_example =
    evaluate_contract-allowed (some file) install_docker (codes "cli") verdict refl refl

-- A log that cannot be written stays as it is.
unlogged :
    (log : List DispatchLine)
    → audit_dispatch
        (codes "t")
        (codes "run")
        none
        (codes "cli")
        (record { allowed = true; reason = []; policy_version = codes "1" })
        false
        log
      ≡ log
unfolding program
unlogged log = refl
