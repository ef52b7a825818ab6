-- ===== src/Policy/Denial.antt =====
-- What stands behind a verdict of the policy engine that allows something (app/core/policy.py).
use agenelf.Base.{
  ◌≡◌, refl, sym, ◌∙◌, ap, subst, Bool, true, false, not, ◌&&◌, ◌||◌, Option, none, some, Text,
  List, [], ◌∷◌, codes, one_of, text_eq, arith, strip, lower, Bool-cases, Option-cases, inl, inr,
}
use agenelf.Policy.Rules.{PolicyRisk, Level, PolicyFile, PolicyEngine, Verdict, is_restricted}
use agenelf.Policy.Evaluate.{
  denial, is_opened, is_read, is_forbidden, level_verdict, restrict, names_operation, match_risk,
  risks_in_order, apply_level, subject_of, judge, evaluate, parse_policy_risk, judge_declared,
  evaluate_declared,
}

match_risk-names :
    (file : PolicyFile) (operation : Text) (risks : List PolicyRisk) {risk : PolicyRisk}
    → match_risk file operation risks ≡ some risk
    → names_operation operation (file.levels risk) ≡ true
unfolding match_risk
match_risk-names file operation [] h = ground arith
match_risk-names file operation (r ∷ risks) {risk = risk} h =
    elim (Bool-cases (names_operation operation (file.levels r))) [
      | inl named ↦
          let same : r ≡ risk = ground arith in
          ap (λ x. names_operation operation (file.levels x)) (sym same) ∙ named
      | inr other ↦ match_risk-names file operation risks (ground arith)
    ]

restrict_allowed :
    (subject : Text) (v : Verdict)
    → ((restrict subject v).allowed ≡ v.allowed)
      × ((restrict subject v).risk ≡ v.risk)
      × ((restrict subject v).approval ≡ v.approval)
unfolding restrict
restrict_allowed subject v = elim (Bool-cases (is_restricted subject && not (is_read v.risk))) [
  | inl e ↦ (rw e refl, rw e refl, rw e refl)
  | inr e ↦ (rw e refl, rw e refl, rw e refl)
]

-- Is a restricted channel let through without a confirmation in writing, with more than a read?
unfoldable pub skips_confirmation : Text → Verdict → Bool
skips_confirmation subject v =
    is_restricted subject
    && not (is_read v.risk)
    && not (is_forbidden v.risk)
    && not v.requires_textual_confirmation

-- What stands behind a verdict that allows something at a level of risk.
pub record Allows (file : PolicyFile) (subject : Text) (v : Verdict) : Type 0 where
  pub level : Level
  pub listed : file.levels v.risk ≡ some level
  pub approval : v.approval ≡ level.approval
  pub possible : text_eq v.approval (codes "impossible") ≡ false
  pub confirmed : skips_confirmation subject v ≡ false

restrict-confirmed :
    (subject : Text) (v : Verdict) → skips_confirmation subject (restrict subject v) ≡ false
unfolding restrict skips_confirmation
restrict-confirmed subject v = elim (Bool-cases (is_restricted subject && not (is_read v.risk))) [
  | inl e ↦ rw e (ground arith)
  | inr e ↦ rw e (ground arith)
]

level_verdict-Allows :
    (file : PolicyFile) (subject : Text) (risk : PolicyRisk) (level : Level)
    → file.levels risk ≡ some level
    → (restrict subject (level_verdict file.policy_version risk level)).allowed ≡ true
    → Allows file subject (restrict subject (level_verdict file.policy_version risk level))
unfolding level_verdict
level_verdict-Allows file subject risk level listed h =
    let v = level_verdict file.policy_version risk level in
    let (allowed, same, approval) = restrict_allowed subject v in
    record {
      level = level;
      listed = ap file.levels same ∙ listed;
      approval = approval;
      possible = ap (λ a. text_eq a (codes "impossible")) approval ∙ ground arith;
      confirmed = restrict-confirmed subject v;
    }

forbidden-Allows :
    (file : PolicyFile) (subject : Text) (risk : PolicyRisk) (level : Level)
    → file.levels risk ≡ some level
    → is_forbidden risk ≡ true
    → (level_verdict file.policy_version risk level).allowed ≡ true
    → Allows file subject (level_verdict file.policy_version risk level)
unfolding level_verdict skips_confirmation
forbidden-Allows file subject risk level listed forbids h = record {
  level = level;
  listed = listed;
  approval = refl;
  possible = ground arith;
  confirmed = rw forbids (ground arith);
}

-- If the verdict allows anything, it does so at this level of risk.
Judges : PolicyFile → Text → PolicyRisk → Verdict → Type 0
Judges file subject risk v = v.allowed ≡ true → Allows file subject v × (v.risk ≡ risk)

apply_level-Judges :
    (file : PolicyFile) (subject : Text) (risk : PolicyRisk) (o : Option Level)
    → file.levels risk ≡ o
    → Judges file subject risk (apply_level file.policy_version subject risk o)
unfolding Judges apply_level denial level_verdict
apply_level-Judges file subject risk none missing = λ h. ground arith
apply_level-Judges file subject risk (some level) listed = elim (Bool-cases (is_forbidden risk)) [
  | inl forbids ↦
      rw forbids (λ h. (forbidden-Allows file subject risk level listed forbids h, refl))
  | inr permits ↦ rw permits (λ h. (
    level_verdict-Allows file subject risk level listed h,
    (restrict_allowed subject (level_verdict file.policy_version risk level)).1,
  ))
]

-- The engine allows an operation only with a policy file, on an opened channel, if it is no
-- behaviour that is always forbidden and a level names it whose approval is possible; a restricted
-- channel then confirms in writing, unless the level is "read" or "forbidden".
pub evaluate-Allows :
    (engine : PolicyEngine) (operation subject : Text)
    → (evaluate engine operation subject).allowed ≡ true
    → (file : PolicyFile) × (risk : PolicyRisk) × (engine ≡ some file)
      × (is_opened file (subject_of subject) ≡ true)
      × (one_of file.forbidden_behaviors (strip operation) ≡ false)
      × (names_operation (strip operation) (file.levels risk) ≡ true)
      × ((evaluate engine operation subject).risk ≡ risk)
      × Allows file (subject_of subject) (evaluate engine operation subject)
unfolding evaluate judge denial Judges
evaluate-Allows none operation subject h = ground arith
evaluate-Allows (some file) operation subject h =
    elim (Option-cases (match_risk file (strip operation) risks_in_order)) [
      | inl unmatched ↦ ground arith
      | inr (risk, matched) ↦
          let opened : is_opened file (subject_of subject) ≡ true = ground arith in
          let lawful : one_of file.forbidden_behaviors (strip operation) ≡ false = ground arith in
          let same : judge file (strip operation) (subject_of subject)
              ≡ apply_level file.policy_version (subject_of subject) risk (file.levels risk) =
            ground arith in
          let (allows, level) =
            apply_level-Judges file (subject_of subject) risk (file.levels risk) refl
              (ap (λ (v : Verdict). v.allowed) (sym same) ∙ h) in
          (
            file,
            risk,
            refl,
            opened,
            lawful,
            match_risk-names file (strip operation) risks_in_order matched,
            ap (λ (v : Verdict). v.risk) same ∙ level,
            subst (Allows file (subject_of subject)) (sym same) allows,
          )
    ]

-- For a declared risk too, the engine allows an operation only with a policy file, on an opened
-- channel or for the host, if it is no behaviour that is always forbidden and the declared risk is
-- one below "forbidden" with a level whose approval is possible; a restricted channel then confirms
-- anything but a read in writing.
evaluate_declared-Allows :
    (engine : PolicyEngine) (operation declared subject : Text)
    → (evaluate_declared engine operation declared subject).allowed ≡ true
    → (file : PolicyFile) × (risk : PolicyRisk) × (engine ≡ some file)
      × ((is_opened file (subject_of subject) || text_eq (subject_of subject) (codes "host"))
          ≡ true)
      × (one_of file.forbidden_behaviors (strip operation) ≡ false)
      × (parse_policy_risk (lower (strip declared)) ≡ some risk)
      × ((evaluate_declared engine operation declared subject).risk ≡ risk)
      × Allows file (subject_of subject) (evaluate_declared engine operation declared subject)
unfolding evaluate_declared judge_declared denial Judges
evaluate_declared-Allows none operation declared subject h = ground arith
evaluate_declared-Allows (some file) operation declared subject h =
    elim (Option-cases (parse_policy_risk (lower (strip declared)))) [
      | inl unknown ↦ ground arith
      | inr (risk, parsed) ↦
          let opened : (is_opened file (subject_of subject)
                || text_eq (subject_of subject) (codes "host"))
              ≡ true =
            ground arith in
          let lawful : one_of file.forbidden_behaviors (strip operation) ≡ false = ground arith in
          let same : judge_declared file (strip operation) (lower (strip declared))
                (subject_of subject)
              ≡ apply_level file.policy_version (subject_of subject) risk (file.levels risk) =
            ground arith in
          let (allows, level) =
            apply_level-Judges file (subject_of subject) risk (file.levels risk) refl
              (ap (λ (v : Verdict). v.allowed) (sym same) ∙ h) in
          (
            file,
            risk,
            refl,
            opened,
            lawful,
            parsed,
            ap (λ (v : Verdict). v.risk) same ∙ level,
            subst (Allows file (subject_of subject)) (sym same) allows,
          )
    ]
