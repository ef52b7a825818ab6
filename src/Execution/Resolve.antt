-- ===== src/Execution/Resolve.antt =====
-- `resolve_contract` of app/core/execution_policy.py.
use agenelf.Base.{
  Bool, false, Option, none, some, Text, List, [], ◌∷◌, codes, text_eq, one_of, all, is_empty,
  strip, lower, if◌then◌else◌,
}
use agenelf.Execution.Contracts.{
  Mode, pure, local_state, queued_runner, controlled_sandbox, prohibited, Source,
  dynamic_placeholder, exact_operation, read_only_capability, legacy_pure_allowlist,
  ToolExecutionContract, parse_mode, contract,
}
use agenelf.Execution.Table.{explicit_contracts}

-- An operation of `CAPABILITY_META`: its name, its risk ("read" if there is none) and its mode.
pub record DeclaredOperation : Type 0 where
  pub name : Text
  pub risk : Text
  pub execution_mode : Text

-- What a skill's module says of itself: the capability's name with its operations, if it has
-- `CAPABILITY_META`, and the name of the skill.
pub record SkillModule : Type 0 where
  pub capability : Option (Text × List DeclaredOperation)
  pub skill_name : Text

-- The two arguments that are read: `action` and `apply_changes`.
pub record Arguments : Type 0 where
  pub action : Text
  pub apply_changes : Bool

unfoldable pub lookup : Text → List ToolExecutionContract → Option ToolExecutionContract
lookup name [] = none
lookup name (c ∷ cs) = let rest = lookup name cs in if text_eq c.tool name then some c else rest

unfoldable pub from_source : Source → Text → Text → Text → Text → Mode → ToolExecutionContract
from_source source tool capability operation risk mode = record {
  tool = tool;
  capability = capability;
  operation = operation;
  risk = risk;
  execution_mode = mode;
  source = source;
}

-- `manage_system_service`.
unfoldable pub service_contract : Text → Text → Option ToolExecutionContract
unfolding contract from_source
service_contract tool action =
    if text_eq action (codes "status")
    then some (
        contract tool (codes "server.operations") (codes "service_status") (codes "read")
          queued_runner)
    else if text_eq action (codes "restart")
    then some (
        contract tool (codes "server.operations") (codes "service_restart") (codes "change")
          queued_runner)
    else if is_empty action
    then some (
        from_source dynamic_placeholder tool (codes "server.operations") (codes "dynamic:action")
          (codes "read") queued_runner)
    else none

-- `pursue_improvement_intention`.
unfoldable pub intention_contract : Text → Bool → ToolExecutionContract
unfolding contract
intention_contract tool apply_changes =
    contract tool (codes "agent.self_development") (codes "pursue_intention") (codes "change")
      (if apply_changes then controlled_sandbox else local_state)

unfoldable pub declared_risk : DeclaredOperation → Text
declared_risk item = lower (strip item.risk)

-- A mode that is not declared follows from the risk.
unfoldable pub default_mode : Text → Mode
default_mode risk =
    if text_eq risk (codes "read")
    then pure
    else if text_eq risk (codes "change")
    then local_state
    else if text_eq risk (codes "forbidden")
    then prohibited
    else queued_runner

unfoldable pub declared_mode : DeclaredOperation → Mode
unfolding parse_mode default_mode declared_risk
declared_mode item = elim (parse_mode (strip item.execution_mode)) [
  | some mode ↦ mode
  | none ↦ default_mode (declared_risk item)
]

unfoldable pub exact_contract : Text → Text → List DeclaredOperation → Option ToolExecutionContract
unfolding declared_mode declared_risk from_source
exact_contract tool capability [] = none
exact_contract tool capability (item ∷ items) =
    let rest = exact_contract tool capability items in
    if text_eq (strip item.name) tool
    then some
        (from_source exact_operation tool capability tool (declared_risk item) (declared_mode item))
    else rest

unfoldable pub is_read_only : List DeclaredOperation → Bool
unfolding declared_risk
is_read_only [] = false
is_read_only items = all (λ item. text_eq (declared_risk item) (codes "read")) items

unfoldable pub capability_contract :
    Text → Text → List DeclaredOperation → Option ToolExecutionContract
unfolding exact_contract is_read_only from_source
capability_contract tool capability items = elim (exact_contract tool capability items) [
  | some c ↦ some c
  | none ↦
      if is_read_only items
      then some (from_source read_only_capability tool capability tool (codes "read") pure)
      else none
]

unfoldable pub legacy_pure_tools : List Text
legacy_pure_tools = codes "ask_llm" ∷ codes "growth_pulse" ∷ codes "summarize" ∷ []

unfoldable pub legacy_contract : Text → Text → Option ToolExecutionContract
unfolding legacy_pure_tools from_source
legacy_contract tool skill_name =
    if one_of legacy_pure_tools tool
    then some (from_source legacy_pure_allowlist tool (strip skill_name) tool (codes "read") pure)
    else none

unfoldable pub module_contract : Text → SkillModule → Option ToolExecutionContract
unfolding capability_contract legacy_contract
module_contract tool skill = elim skill.capability [
  | none ↦ legacy_contract tool skill.skill_name
  | some (capability, items) ↦ elim (capability_contract tool (strip capability) items) [
    | some c ↦ some c
    | none ↦ legacy_contract tool skill.skill_name
  ]
]

unfoldable pub resolve_contract : Text → Arguments → SkillModule → Option ToolExecutionContract
unfolding service_contract intention_contract lookup explicit_contracts module_contract
resolve_contract tool_name arguments skill =
    let tool = strip tool_name in
    if text_eq tool (codes "manage_system_service")
    then service_contract tool (lower (strip arguments.action))
    else if text_eq tool (codes "pursue_improvement_intention")
    then some (intention_contract tool arguments.apply_changes)
    else (elim (lookup tool explicit_contracts) [
      | some c ↦ some c
      | none ↦ module_contract tool skill
    ])
