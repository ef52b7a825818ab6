-- ===== src/Policy/Rules.antt =====
-- What the policy engine reads from the policy file, and its verdicts (app/core/policy.py). The
-- text `reason` of a verdict, which is for people, is left out.
use agenelf.Base.{Bool, Option, Text, List, [], ◌∷◌, codes, one_of}

-- `_RISK_ORDER`.
pub data PolicyRisk : Type 0 where
  read change privileged irreversible forbidden : PolicyRisk

unfoldable pub policy_risk_name : PolicyRisk → Text
policy_risk_name read = codes "read"
policy_risk_name change = codes "change"
policy_risk_name privileged = codes "privileged"
policy_risk_name irreversible = codes "irreversible"
policy_risk_name forbidden = codes "forbidden"

-- An entry of `risk_levels`, with the defaults of what is not there.
pub record Level : Type 0 where
  pub approval : Text
  pub auto_execute : Bool
  pub second_confirmation_required : Bool
  pub rollback_required : Bool
  pub examples : List Text

-- `levels` gives `none` for a level that is no object or an empty one.
pub record PolicyFile : Type 0 where
  pub policy_version : Text
  pub current_channels : List Text
  pub forbidden_behaviors : List Text
  pub protected_paths : List Text
  pub levels : PolicyRisk → Option Level

-- `none` is the degraded engine.
abbrev pub PolicyEngine : Type 0
PolicyEngine = Option PolicyFile

pub record Verdict : Type 0 where
  pub allowed : Bool
  pub risk : PolicyRisk
  pub approval : Text
  pub auto_execute : Bool
  pub requires_textual_confirmation : Bool
  pub second_confirmation_required : Bool
  pub rollback_required : Bool
  pub policy_version : Text

unfoldable pub builtin_subjects : List Text
builtin_subjects = codes "agent" ∷ codes "cli" ∷ codes "http" ∷ codes "api" ∷ []

unfoldable pub restricted_subjects : List Text
restricted_subjects = codes "mobile_device" ∷ codes "voice" ∷ []

unfoldable pub is_restricted : Text → Bool
unfolding restricted_subjects
is_restricted = one_of restricted_subjects
