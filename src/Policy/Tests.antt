-- ===== src/Policy/Tests.antt =====
-- A small policy file, and the theorems at it.
use agenelf.Base.{◌≡◌, refl, true, false, Option, none, some, [], ◌∷◌, codes, one_of, strip}
use agenelf.Policy.Rules.{PolicyRisk, read, privileged, Level, PolicyFile}
use agenelf.Policy.Evaluate.{is_opened, names_operation, subject_of, evaluate, evaluate_declared}
use agenelf.Policy.Denial.{Allows, evaluate-Allows}
use agenelf.Policy.Paths.{is_protected_path, begins_dotted, is_protected_path-dotted}

program : Unit {0}
unfolding evaluate evaluate_declared begins_dotted is_protected_path
program = tt

abbrev levels : PolicyRisk → Option Level
levels read = some (record {
  approval = codes "none";
  auto_execute = true;
  second_confirmation_required = false;
  rollback_required = false;
  examples = codes "docker_ps" ∷ [];
})
levels privileged = some (record {
  approval = codes "owner_elevated";
  auto_execute = false;
  second_confirmation_required = false;
  rollback_required = true;
  examples = codes "docker_install" ∷ [];
})
levels _ = none

abbrev pub file : PolicyFile
file = record {
  policy_version = codes "1";
  current_channels = codes "console" ∷ [];
  forbidden_behaviors = codes "self_approval" ∷ [];
  protected_paths = codes "policy/" ∷ [];
  levels = levels;
}

by_voice : evaluate (some file) (codes " docker_install") (codes "voice") ≡ record {
  allowed = true;
  risk = privileged;
  approval = codes "owner_elevated";
  auto_execute = false;
  requires_textual_confirmation = true;
  second_confirmation_required = true;
  rollback_required = true;
  policy_version = codes "1";
}
unfolding program
by_voice = refl

evaluate-Allows_example :
    (f : PolicyFile) × (risk : PolicyRisk) × (some file ≡ some f)
    × (is_opened f (subject_of (codes "voice")) ≡ true)
    × (one_of f.forbidden_behaviors (strip (codes "docker_install")) ≡ false)
    × (names_operation (strip (codes "docker_install")) (f.levels risk) ≡ true)
    × ((evaluate (some file) (codes "docker_install") (codes "voice")).risk ≡ risk)
    × Allows f
        (subject_of (codes "voice"))
        (evaluate (some file) (codes "docker_install") (codes "voice"))
unfolding program
evaluate-Allows_example = evaluate-Allows (some file) (codes "docker_install") (codes "voice") refl

-- The policy file of the repository protects `.env`, among others, in this way.
is_protected_path-dotted_example :
    is_protected_path
      (some (record file { protected_paths = codes ".env" ∷ codes "policy/" ∷ [] }))
      (codes ".env")
    ≡ is_protected_path
        (some (record file { protected_paths = codes "policy/" ∷ [] }))
        (codes ".env")
unfolding program
is_protected_path-dotted_example =
    is_protected_path-dotted file (codes ".env") (codes "policy/" ∷ []) (codes ".env") refl

env_is_open :
    is_protected_path (some (record file { protected_paths = codes ".env" ∷ [] })) (codes ".env")
    ≡ false
unfolding program
env_is_open = refl
