-- ===== src/Execution/Table.antt =====
-- The table `_EXPLICIT` of app/core/execution_policy.py, in its parts.
use agenelf.Base.{List, [], ◌∷◌, ◌++◌, codes}
use agenelf.Execution.Contracts.{
  pure, local_state, queued_runner, controlled_sandbox, host_controlled, prohibited,
  ToolExecutionContract, contract,
}

unfoldable pub server_contracts : List ToolExecutionContract
unfolding contract
server_contracts =
    contract (codes "list_managed_servers") (codes "server.operations") (codes "catalog")
      (codes "read") pure
    ∷ contract (codes "get_server_operation") (codes "server.operations") (codes "get_result")
        (codes "read") pure
    ∷ contract (codes "inspect_server") (codes "server.operations") (codes "inspect") (codes "read")
        queued_runner
    ∷ contract (codes "list_docker_containers") (codes "server.operations") (codes "docker_ps")
        (codes "read") queued_runner
    ∷ contract (codes "update_apt_index") (codes "server.operations") (codes "apt_update")
        (codes "change") queued_runner
    ∷ contract (codes "install_docker") (codes "server.operations") (codes "docker_install")
        (codes "privileged") queued_runner
    ∷ contract (codes "deploy_compose_project") (codes "server.operations") (codes "compose_deploy")
        (codes "change") queued_runner
    ∷ contract (codes "down_compose_project") (codes "server.operations") (codes "compose_down")
        (codes "change") queued_runner
    ∷ []

unfoldable pub docker_contracts : List ToolExecutionContract
unfolding contract
docker_contracts =
    contract (codes "list_docker_runtime") (codes "docker.operations") (codes "catalog")
      (codes "read") pure
    ∷ contract (codes "get_docker_operation") (codes "docker.operations") (codes "get_result")
        (codes "read") pure
    ∷ contract (codes "get_docker_logs") (codes "docker.operations") (codes "get_docker_logs")
        (codes "read") queued_runner
    ∷ contract (codes "inspect_docker_container") (codes "docker.operations")
        (codes "inspect_docker_container") (codes "read") queued_runner
    ∷ contract (codes "run_docker_check") (codes "docker.operations") (codes "run_docker_check")
        (codes "read") queued_runner
    ∷ contract (codes "restart_docker_container") (codes "docker.operations")
        (codes "restart_docker_container") (codes "change") queued_runner
    ∷ []

unfoldable pub validation_contracts : List ToolExecutionContract
unfolding contract
validation_contracts =
    contract (codes "list_validation_checks") (codes "software.validation") (codes "catalog")
      (codes "read") pure
    ∷ contract (codes "run_validation_check") (codes "software.validation") (codes "run_check")
        (codes "read") queued_runner
    ∷ contract (codes "run_validation_suite") (codes "software.validation") (codes "run_suite")
        (codes "read") queued_runner
    ∷ contract (codes "get_validation_result") (codes "software.validation") (codes "get_result")
        (codes "read") pure
    ∷ []

unfoldable pub repair_contracts : List ToolExecutionContract
unfolding contract
repair_contracts =
    contract (codes "list_code_repair_repositories") (codes "code.repair") (codes "catalog")
      (codes "read") pure
    ∷ contract (codes "submit_code_repair_patch") (codes "code.repair") (codes "submit_patch")
        (codes "read") queued_runner
    ∷ contract (codes "get_code_repair_result") (codes "code.repair") (codes "get_result")
        (codes "read") pure
    ∷ []

unfoldable pub workflow_contracts : List ToolExecutionContract
unfolding contract
workflow_contracts =
    contract (codes "workflow_create_task") (codes "agent.workflow") (codes "create")
      (codes "change") local_state
    ∷ contract (codes "workflow_list_tasks") (codes "agent.workflow") (codes "list") (codes "read")
        pure
    ∷ contract (codes "workflow_get_task") (codes "agent.workflow") (codes "get") (codes "read")
        pure
    ∷ contract (codes "workflow_transition_task") (codes "agent.workflow") (codes "transition")
        (codes "change") local_state
    ∷ contract (codes "workflow_update_step") (codes "agent.workflow") (codes "update_step")
        (codes "change") local_state
    ∷ contract (codes "workflow_add_evidence") (codes "agent.workflow") (codes "add_evidence")
        (codes "change") local_state
    ∷ contract (codes "workflow_next_action") (codes "agent.workflow") (codes "next_action")
        (codes "read") pure
    ∷ []

unfoldable pub continuation_contracts : List ToolExecutionContract
unfolding contract
continuation_contracts =
    contract (codes "checkpoint_task_continuation") (codes "agent.task_continuation")
      (codes "checkpoint") (codes "change") local_state
    ∷ contract (codes "task_continuation_status") (codes "agent.task_continuation") (codes "status")
        (codes "read") pure
    ∷ contract (codes "complete_task_continuation") (codes "agent.task_continuation")
        (codes "complete") (codes "change") local_state
    ∷ contract (codes "retry_task_continuation") (codes "agent.task_continuation") (codes "retry")
        (codes "change") local_state
    ∷ contract (codes "cancel_task_continuation") (codes "agent.task_continuation") (codes "cancel")
        (codes "change") local_state
    ∷ []

unfoldable pub context_contracts : List ToolExecutionContract
unfolding contract
context_contracts =
    contract (codes "get_local_context_status") (codes "owner.context") (codes "status")
      (codes "read") pure
    ∷ contract (codes "reload_local_context") (codes "owner.context") (codes "reload")
        (codes "read") local_state
    ∷ contract (codes "remember_owner_context") (codes "owner.context") (codes "remember")
        (codes "change") local_state
    ∷ contract (codes "recall_owner_context") (codes "owner.context") (codes "recall")
        (codes "read") pure
    ∷ []

unfoldable pub development_contracts : List ToolExecutionContract
unfolding contract
development_contracts =
    contract (codes "self_development_status") (codes "agent.self_development")
      (codes "development_status") (codes "read") pure
    ∷ contract (codes "reflect_and_sediment") (codes "agent.self_development")
        (codes "reflect_and_sediment") (codes "change") local_state
    ∷ contract (codes "list_self_reflections") (codes "agent.self_development")
        (codes "list_reflections") (codes "read") pure
    ∷ contract (codes "list_improvement_intentions") (codes "agent.self_development")
        (codes "list_intentions") (codes "read") pure
    ∷ contract (codes "create_improvement_intention") (codes "agent.self_development")
        (codes "create_intention") (codes "change") local_state
    ∷ contract (codes "capability_health_snapshot") (codes "agent.self_development")
        (codes "capability_health") (codes "read") pure
    ∷ contract (codes "improvement_roadmap") (codes "agent.self_development")
        (codes "improvement_roadmap") (codes "read") pure
    ∷ []

unfoldable pub upgrade_contracts : List ToolExecutionContract
unfolding contract
upgrade_contracts =
    contract (codes "request_authorized_self_upgrade") (codes "agent.authorized_self_upgrade")
      (codes "request_intent") (codes "change") local_state
    ∷ contract (codes "continue_authorized_self_upgrade") (codes "agent.authorized_self_upgrade")
        (codes "continue_upgrade") (codes "change") controlled_sandbox
    ∷ contract (codes "authorized_self_upgrade_status") (codes "agent.authorized_self_upgrade")
        (codes "status") (codes "read") pure
    ∷ contract (codes "list_authorized_upgrade_scopes") (codes "agent.authorized_self_upgrade")
        (codes "list_scopes") (codes "read") pure
    ∷ []

unfoldable pub tuning_contracts : List ToolExecutionContract
unfolding contract
tuning_contracts =
    contract (codes "optimize_status") (codes "agent.self_optimization") (codes "optimize_status")
      (codes "read") pure
    ∷ contract (codes "optimize_apply") (codes "agent.self_optimization") (codes "optimize_apply")
        (codes "change") local_state
    ∷ contract (codes "optimize_rollback") (codes "agent.self_optimization")
        (codes "optimize_rollback") (codes "change") local_state
    ∷ contract (codes "optimize_auto") (codes "agent.self_optimization") (codes "optimize_auto")
        (codes "change") local_state
    ∷ []

unfoldable pub board_contracts : List ToolExecutionContract
unfolding contract
board_contracts =
    contract (codes "task_list") (codes "agent.task_board") (codes "task_list") (codes "read") pure
    ∷ contract (codes "task_create") (codes "agent.task_board") (codes "task_create")
        (codes "change") local_state
    ∷ contract (codes "task_advance") (codes "agent.task_board") (codes "task_advance")
        (codes "change") local_state
    ∷ contract (codes "task_complete") (codes "agent.task_board") (codes "task_complete")
        (codes "change") local_state
    ∷ contract (codes "task_block") (codes "agent.task_board") (codes "task_block") (codes "change")
        local_state
    ∷ contract (codes "task_link_intention") (codes "agent.task_board")
        (codes "task_link_intention") (codes "change") local_state
    ∷ contract (codes "create_todo") (codes "task_handler") (codes "create_todo") (codes "change")
        local_state
    ∷ contract (codes "save_note") (codes "task_handler") (codes "save_note") (codes "change")
        local_state
    ∷ contract (codes "read_note") (codes "task_handler") (codes "read_note") (codes "read") pure
    ∷ []

unfoldable pub forge_contracts : List ToolExecutionContract
unfolding contract
forge_contracts =
    contract (codes "write_code_file") (codes "code.scratch") (codes "write_code_file")
      (codes "change") local_state
    ∷ contract (codes "run_python") (codes "code.scratch") (codes "run_python") (codes "forbidden")
        prohibited
    ∷ contract (codes "forge_skill") (codes "agent.skill_forge") (codes "forge_skill")
        (codes "change") host_controlled
    ∷ contract (codes "list_forged_skills") (codes "agent.skill_forge") (codes "list_forged_skills")
        (codes "read") pure
    ∷ contract (codes "remove_forged_skill") (codes "agent.skill_forge")
        (codes "remove_forged_skill") (codes "change") host_controlled
    ∷ []

unfoldable pub evolution_contracts : List ToolExecutionContract
unfolding contract
evolution_contracts =
    contract (codes "evolution_begin") (codes "agent.evolution") (codes "begin") (codes "change")
      controlled_sandbox
    ∷ contract (codes "evolution_write_file") (codes "agent.evolution") (codes "write_file")
        (codes "change") controlled_sandbox
    ∷ contract (codes "evolution_run_tests") (codes "agent.evolution") (codes "run_tests")
        (codes "change") controlled_sandbox
    ∷ contract (codes "evolution_request_promotion") (codes "agent.evolution")
        (codes "request_promotion") (codes "change") controlled_sandbox
    ∷ contract (codes "evolution_status") (codes "agent.evolution") (codes "status") (codes "read")
        pure
    ∷ []

unfoldable pub explicit_contracts : List ToolExecutionContract
unfolding server_contracts docker_contracts validation_contracts repair_contracts workflow_contracts
    continuation_contracts context_contracts development_contracts upgrade_contracts
    tuning_contracts board_contracts forge_contracts evolution_contracts
explicit_contracts =
    server_contracts ++ docker_contracts ++ validation_contracts ++ repair_contracts
    ++ workflow_contracts ++ continuation_contracts ++ context_contracts ++ development_contracts
    ++ upgrade_contracts ++ tuning_contracts ++ board_contracts ++ forge_contracts
    ++ evolution_contracts
