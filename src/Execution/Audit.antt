-- ===== src/Execution/Audit.antt =====
-- `audit_dispatch` of app/core/execution_policy.py: a line of the log for each dispatch.
use agenelf.Base.{Bool, true, false, Option, Text, List, [], ◌∷◌, ◌++◌, take}
use agenelf.Execution.Contracts.{ToolExecutionContract}

-- What `audit_dispatch` reads of the answer of `evaluate_contract`.
pub record DispatchDecision : Type 0 where
  pub allowed : Bool
  pub reason : Text
  pub policy_version : Text

pub record DispatchLine : Type 0 where
  pub timestamp : Text
  pub tool : Text
  pub subject : Text
  pub decision : DispatchDecision
  pub tool_contract : Option ToolExecutionContract

-- The Boolean says whether the log can be written; an error is ignored.
unfoldable pub audit_dispatch :
    Text
    → Text
    → Option ToolExecutionContract
    → Text
    → DispatchDecision
    → Bool
    → List DispatchLine
    → List DispatchLine
audit_dispatch timestamp tool contract subject decision false log = log
audit_dispatch timestamp tool contract subject decision true log =
    log
    ++ (record {
      timestamp = timestamp;
      tool = tool;
      subject = subject;
      decision = record decision { reason = take 1000 decision.reason };
      tool_contract = contract;
    }
        ∷ [])
