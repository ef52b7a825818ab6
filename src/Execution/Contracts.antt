-- ===== src/Execution/Contracts.antt =====
-- Contracts and the modes of execution (app/core/execution_policy.py).
use agenelf.Base.{Option, none, some, Text, codes, text_eq, if◌then◌else◌}

-- `VALID_EXECUTION_MODES`.
pub data Mode : Type 0 where
  pure local_state queued_runner controlled_sandbox host_controlled prohibited : Mode

pub data Source : Type 0 where
  explicit dynamic_placeholder exact_operation read_only_capability legacy_pure_allowlist : Source

-- A declared risk may be any text, so it is one here.
pub record ToolExecutionContract : Type 0 where
  pub tool : Text
  pub capability : Text
  pub operation : Text
  pub risk : Text
  pub execution_mode : Mode
  pub source : Source

unfoldable pub parse_mode : Text → Option Mode
parse_mode s =
    if text_eq s (codes "pure")
    then some pure
    else if text_eq s (codes "local_state")
    then some local_state
    else if text_eq s (codes "queued_runner")
    then some queued_runner
    else if text_eq s (codes "controlled_sandbox")
    then some controlled_sandbox
    else if text_eq s (codes "host_controlled")
    then some host_controlled
    else if text_eq s (codes "forbidden")
    then some prohibited
    else none

-- `_contract`, for a valid risk and mode.
unfoldable pub contract : Text → Text → Text → Text → Mode → ToolExecutionContract
contract tool capability operation risk mode = record {
  tool = tool;
  capability = capability;
  operation = operation;
  risk = risk;
  execution_mode = mode;
  source = explicit;
}
