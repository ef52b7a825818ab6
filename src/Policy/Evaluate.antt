-- ===== src/Policy/Evaluate.antt =====
-- `evaluate` and `evaluate_declared` of app/core/policy.py.
use agenelf.Base.{
  Bool, true, false, not, ◌&&◌, ◌||◌, Option, none, some, Text, List, [], ◌∷◌, codes, one_of,
  text_eq, if◌then◌else◌, strip, is_empty, lower,
}
use agenelf.Policy.Rules.{
  PolicyRisk, read, change, privileged, irreversible, forbidden, Level, PolicyFile, PolicyEngine,
  Verdict, builtin_subjects, is_restricted,
}

unfoldable pub denial : Text → Verdict
denial version = record {
  allowed = false;
  risk = forbidden;
  approval = codes "impossible";
  auto_execute = false;
  requires_textual_confirmation = false;
  second_confirmation_required = false;
  rollback_required = false;
  policy_version = version;
}

unfoldable pub empty_version : Text
empty_version = codes "0.0.0-empty"

unfoldable pub is_opened : PolicyFile → Text → Bool
unfolding builtin_subjects is_restricted
is_opened file subject =
    one_of builtin_subjects subject || is_restricted subject || one_of file.current_channels subject

unfoldable pub is_read : PolicyRisk → Bool
is_read read = true
is_read _ = false

unfoldable pub is_high : PolicyRisk → Bool
is_high privileged = true
is_high irreversible = true
is_high _ = false

unfoldable pub is_forbidden : PolicyRisk → Bool
is_forbidden forbidden = true
is_forbidden _ = false

-- The verdict of a level for a subject that is not restricted.
unfoldable pub level_verdict : Text → PolicyRisk → Level → Verdict
level_verdict version risk level = record {
  allowed = not (text_eq level.approval (codes "impossible"));
  risk = risk;
  approval = level.approval;
  auto_execute = level.auto_execute;
  requires_textual_confirmation = false;
  second_confirmation_required = level.second_confirmation_required;
  rollback_required = level.rollback_required;
  policy_version = version;
}

-- A restricted subject confirms anything but a read in writing, and a high risk twice.
unfoldable pub restrict : Text → Verdict → Verdict
unfolding is_restricted is_read is_high
restrict subject v =
    if is_restricted subject && not (is_read v.risk)
    then record v {
      requires_textual_confirmation = true;
      second_confirmation_required = v.second_confirmation_required || is_high v.risk;
    }
    else v

unfoldable pub names_operation : Text → Option Level → Bool
names_operation operation none = false
names_operation operation (some level) = one_of level.examples operation

unfoldable pub match_risk : PolicyFile → Text → List PolicyRisk → Option PolicyRisk
unfolding names_operation
match_risk file operation [] = none
match_risk file operation (risk ∷ risks) =
    let rest = match_risk file operation risks in
    if names_operation operation (file.levels risk) then some risk else rest

unfoldable pub risks_in_order : List PolicyRisk
risks_in_order = read ∷ change ∷ privileged ∷ irreversible ∷ forbidden ∷ []

-- A level that is not there denies.
unfoldable pub apply_level : Text → Text → PolicyRisk → Option Level → Verdict
unfolding level_verdict denial restrict is_forbidden
apply_level version subject risk none = denial version
apply_level version subject risk (some level) =
    let verdict = level_verdict version risk level in
    if is_forbidden risk then verdict else restrict subject verdict

-- `str(subject or "agent").strip()`.
unfoldable pub subject_of : Text → Text
subject_of subject = if is_empty subject then codes "agent" else strip subject

unfoldable pub judge : PolicyFile → Text → Text → Verdict
unfolding denial is_opened match_risk risks_in_order apply_level
judge file operation subject =
    if not (is_opened file subject)
    then denial file.policy_version
    else if one_of file.forbidden_behaviors operation
    then denial file.policy_version
    else (elim (match_risk file operation risks_in_order) [
      | none ↦ denial file.policy_version
      | some risk ↦ apply_level file.policy_version subject risk (file.levels risk)
    ])

unfoldable pub evaluate : PolicyEngine → Text → Text → Verdict
unfolding judge subject_of denial empty_version
evaluate none operation subject = denial empty_version
evaluate (some file) operation subject = judge file (strip operation) (subject_of subject)

-- The risks with a level of their own; "forbidden" is denied before a level is looked up.
unfoldable pub parse_policy_risk : Text → Option PolicyRisk
parse_policy_risk s =
    if text_eq s (codes "read")
    then some read
    else if text_eq s (codes "change")
    then some change
    else if text_eq s (codes "privileged")
    then some privileged
    else if text_eq s (codes "irreversible")
    then some irreversible
    else none

unfoldable pub judge_declared : PolicyFile → Text → Text → Text → Verdict
unfolding denial is_opened parse_policy_risk apply_level
judge_declared file operation declared subject =
    if not (is_opened file subject || text_eq subject (codes "host"))
    then denial file.policy_version
    else if one_of file.forbidden_behaviors operation || text_eq declared (codes "forbidden")
    then denial file.policy_version
    else (elim (parse_policy_risk declared) [
      | none ↦ denial file.policy_version
      | some risk ↦ apply_level file.policy_version subject risk (file.levels risk)
    ])

unfoldable pub evaluate_declared : PolicyEngine → Text → Text → Text → Verdict
unfolding judge_declared subject_of denial empty_version
evaluate_declared none operation declared subject = denial empty_version
evaluate_declared (some file) operation declared subject =
    judge_declared file (strip operation) (lower (strip declared)) (subject_of subject)
