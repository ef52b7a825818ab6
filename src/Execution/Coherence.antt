-- ===== src/Execution/Coherence.antt =====
-- Risk and mode of a contract, in the table and in what is allowed to run
-- (app/core/execution_policy.py).
use agenelf.Base.{
  ◌≡◌, refl, ap, ◌∙◌, subst, Bool, true, false, not, ◌||◌, some, Text, List, [], ◌∷◌, codes,
  text_eq, text_eq_iff, all, arith, Bool-cases, inl, inr,
}
use agenelf.Policy.Rules.{PolicyEngine, Verdict, is_restricted}
use agenelf.Policy.Evaluate.{subject_of, evaluate_declared}
use agenelf.Execution.Contracts.{
  Mode, pure, local_state, queued_runner, controlled_sandbox, host_controlled, prohibited,
  ToolExecutionContract,
}
use agenelf.Execution.Table.{explicit_contracts}
use agenelf.Execution.Resolve.{lookup}
use agenelf.Execution.Dispatch.{judged, bars, is_prohibited, limit_to_mode, deny, evaluate_contract}

-- Only reads are pure, and only reads and changes stay in the local state.
unfoldable pub fits : Mode → Text → Bool
fits pure risk = text_eq risk (codes "read")
fits local_state risk = text_eq risk (codes "read") || text_eq risk (codes "change")
fits prohibited risk = text_eq risk (codes "forbidden")
fits _ risk = not (text_eq risk (codes "forbidden"))

-- The subjects that may start a mode.
unfoldable pub serves : Mode → Text → Bool
serves controlled_sandbox subject = not (is_restricted subject)
serves host_controlled subject = text_eq subject (codes "cli") || text_eq subject (codes "host")
serves _ subject = true

contract_fits : ToolExecutionContract → Bool
unfolding fits
contract_fits c = fits c.execution_mode c.risk

lookup-fits :
    (name : Text) (cs : List ToolExecutionContract) {c : ToolExecutionContract}
    → all contract_fits cs ≡ true
    → lookup name cs ≡ some c
    → (c.tool ≡ name) × (fits c.execution_mode c.risk ≡ true)
unfolding lookup contract_fits
lookup-fits name [] good h = ground arith
lookup-fits name (d ∷ cs) {c = c} good h = elim (Bool-cases (text_eq d.tool name)) [
  | inl named ↦
      let same : d ≡ c = ground arith in
      subst (λ (x : ToolExecutionContract). (x.tool ≡ name) × (fits x.execution_mode x.risk ≡ true))
        same (ground (arith, text_eq_iff d.tool name), ground arith)
  | inr other ↦ lookup-fits name cs {c = c} (ground arith) (ground arith)
]

table_fits : all contract_fits explicit_contracts ≡ true
unfolding contract_fits explicit_contracts
table_fits = refl

-- Whatever the table holds for a tool is that tool's contract, and its mode fits its risk.
explicit_contracts-fits :
    (name : Text) (c : ToolExecutionContract)
    → lookup name explicit_contracts ≡ some c
    → (c.tool ≡ name) × (fits c.execution_mode c.risk ≡ true)
explicit_contracts-fits name c h = lookup-fits name explicit_contracts table_fits h

limit_to_mode-allowed :
    (mode : Mode) (risk subject : Text) (v : Verdict)
    → bars mode risk ≡ false
    → (limit_to_mode mode risk subject v).allowed ≡ true
    → (fits mode risk ≡ true) × (serves mode subject ≡ true) × (v.allowed ≡ true)
unfolding limit_to_mode fits serves deny bars
limit_to_mode-allowed pure risk subject v lawful h = (ground arith, refl, ground arith)
limit_to_mode-allowed local_state risk subject v lawful h = (ground arith, refl, ground arith)
limit_to_mode-allowed queued_runner risk subject v lawful h = (ground arith, refl, h)
limit_to_mode-allowed controlled_sandbox risk subject v lawful h =
    (ground arith, ground arith, ground arith)
limit_to_mode-allowed host_controlled risk subject v lawful h =
    (ground arith, ground arith, ground arith)
limit_to_mode-allowed prohibited risk subject v lawful h = ground arith

-- With a policy engine, a contract is allowed only if its mode fits its risk, the subject may start
-- this mode, and the policy allows the declared risk.
pub evaluate_contract-allowed :
    (engine : PolicyEngine) (c : ToolExecutionContract) (subject : Text) (v : Verdict)
    → evaluate_contract (some engine) (some c) subject ≡ judged v
    → v.allowed ≡ true
    → (fits c.execution_mode c.risk ≡ true)
      × (serves c.execution_mode (subject_of subject) ≡ true)
      × ((evaluate_declared engine c.operation c.risk (subject_of subject)).allowed ≡ true)
unfolding evaluate_contract is_prohibited
evaluate_contract-allowed engine c subject v h allowed =
    let policy = evaluate_declared engine c.operation c.risk (subject_of subject) in
    elim (Bool-cases (bars c.execution_mode c.risk)) [
      | inl barred ↦ ground arith
      | inr open_to ↦
          let same : limit_to_mode c.execution_mode c.risk (subject_of subject) policy ≡ v =
            ground arith in
          limit_to_mode-allowed c.execution_mode c.risk (subject_of subject) policy open_to
            (ap (λ (x : Verdict). x.allowed) same ∙ allowed)
    ]
