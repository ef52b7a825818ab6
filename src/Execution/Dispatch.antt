-- ===== src/Execution/Dispatch.antt =====
-- `evaluate_contract` of app/core/execution_policy.py.
use agenelf.Base.{
  Bool, true, false, not, ◌||◌, Option, none, some, Text, codes, text_eq, if◌then◌else◌,
}
use agenelf.Policy.Rules.{PolicyEngine, Verdict, is_restricted}
use agenelf.Policy.Evaluate.{subject_of, evaluate_declared}
use agenelf.Execution.Contracts.{
  Mode, pure, local_state, controlled_sandbox, host_controlled, prohibited, ToolExecutionContract,
}

-- `unbound` allows, for a runtime without a policy engine; `refused` does not.
pub data Dispatch : Type 0 where
  unbound refused : Dispatch
  judged : Verdict → Dispatch

unfoldable pub deny : Verdict → Verdict
deny v = record v { allowed = false }

unfoldable pub bars : Mode → Text → Bool
bars prohibited risk = true
bars _ risk = text_eq risk (codes "forbidden")

unfoldable pub is_prohibited : ToolExecutionContract → Bool
unfolding bars
is_prohibited c = bars c.execution_mode c.risk

-- What the mode makes of the policy's verdict.
unfoldable pub limit_to_mode : Mode → Text → Text → Verdict → Verdict
unfolding deny
limit_to_mode pure risk subject v = if text_eq risk (codes "read") then v else deny v
limit_to_mode local_state risk subject v =
    if not (text_eq risk (codes "read") || text_eq risk (codes "change"))
    then deny v
    else if v.allowed
    then record v { auto_execute = true; approval = codes "none" }
    else v
limit_to_mode controlled_sandbox risk subject v = if is_restricted subject then deny v else v
limit_to_mode host_controlled risk subject v =
    if text_eq subject (codes "cli") || text_eq subject (codes "host") then v else deny v
limit_to_mode _ risk subject v = v

unfoldable pub evaluate_contract :
    Option PolicyEngine → Option ToolExecutionContract → Text → Dispatch
unfolding is_prohibited limit_to_mode
evaluate_contract none none subject = unbound
evaluate_contract (some engine) none subject = refused
evaluate_contract none (some c) subject = if is_prohibited c then refused else unbound
evaluate_contract (some engine) (some c) subject =
    if is_prohibited c
    then refused
    else judged (
        limit_to_mode c.execution_mode c.risk (subject_of subject)
          (evaluate_declared engine c.operation c.risk (subject_of subject)))
