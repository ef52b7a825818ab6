-- ===== src/Upgrade/Plan.antt =====
-- The plan of an upgrade: `classify_scopes`, `expand_allowed_paths` and `make_plan` of
-- app/core/authorized_upgrade.py. Whether a goal mentions a scope is what `re` finds.
use agenelf.Base.{
  ℕ, Bool, true, false, not, ◌&&◌, ◌||◌, Text, List, [], ◌∷◌, ◌++◌, codes, text_eq, strip, split,
  join_words, take, is_empty, any, if◌then◌else◌, Result, ok, err, ℤ,
}
use agenelf.Operations.Lifetime.{clamp_int}
use agenelf.Upgrade.Paths.{UpgradeError, empty_goal}

-- The keys of `_SCOPE_PATHS`, in the order of their names.
pub data Scope : Type 0 where
  app_runtime authorization_control ci compose docs policy runners skills tests : Scope

abbrev pub all_scopes : List Scope
all_scopes =
    app_runtime ∷ authorization_control ∷ ci ∷ compose ∷ docs ∷ policy ∷ runners ∷ skills ∷ tests
    ∷ []

unfoldable pub scope_name : Scope → Text
scope_name app_runtime = codes "app_runtime"
scope_name authorization_control = codes "authorization_control"
scope_name ci = codes "ci"
scope_name compose = codes "compose"
scope_name docs = codes "docs"
scope_name policy = codes "policy"
scope_name runners = codes "runners"
scope_name skills = codes "skills"
scope_name tests = codes "tests"

-- `_SCOPE_PATHS`.
unfoldable pub scope_paths : Scope → List Text
scope_paths app_runtime = codes "app/core/" ∷ []
scope_paths skills = codes "app/skills/" ∷ []
scope_paths tests = codes "app/tests/" ∷ []
scope_paths runners = codes "scripts/" ∷ []
scope_paths policy = codes "policy/" ∷ []
scope_paths compose =
    codes "docker-compose.yml"
    ∷ codes "Dockerfile"
    ∷ codes ".env.example"
    ∷ codes ".ops-runner.env.example"
    ∷ []
scope_paths ci = codes ".github/workflows/" ∷ codes ".gitleaks.toml" ∷ []
scope_paths docs = codes "docs/" ∷ codes "README.md" ∷ codes "Makefile" ∷ []
scope_paths authorization_control =
    codes "app/core/owner_approval.py"
    ∷ codes "app/core/permissions.py"
    ∷ codes "app/core/cli_approval.py"
    ∷ codes "scripts/approval_runner.py"
    ∷ codes "scripts/approve.py"
    ∷ codes "scripts/approve.ps1"
    ∷ codes "scripts/approve.sh"
    ∷ codes "scripts/init_approval_key.py"
    ∷ []

unfoldable pub stripped_in : Text → List Text → Bool
stripped_in name [] = false
stripped_in name (hint ∷ hints) = text_eq name (strip hint) || stripped_in name hints

unfoldable pub is_default : Scope → Bool
is_default app_runtime = true
is_default skills = true
is_default _ = false

unfoldable pub is_docs : Scope → Bool
is_docs docs = true
is_docs _ = false

unfoldable pub is_tests : Scope → Bool
is_tests tests = true
is_tests _ = false

-- `tests` has no pattern in `_SCOPE_PATTERNS`.
unfoldable pub has_pattern : Scope → Bool
has_pattern tests = false
has_pattern _ = true

unfoldable pub select : (Scope → Bool) → List Scope → List Scope
select p [] = []
select p (s ∷ ss) = let rest = select p ss in if p s then s ∷ rest else rest

unfoldable pub normalized_goal : Text → Text
normalized_goal goal = take 4000 (join_words (split (strip goal)))

pub record Plan : Type 0 where
  pub goal : Text
  pub goal_sha256 : Text
  pub scopes : List Scope
  pub allowed_paths : List Text
  pub max_files : ℕ
  pub max_changed_lines : ℕ
  pub fingerprint : Text

-- `expand_allowed_paths`, for scopes that are known. The order of the paths and repetitions do not
-- matter to the tests that use them.
unfoldable pub expand_allowed_paths : List Scope → List Text
unfolding scope_paths
expand_allowed_paths [] = []
expand_allowed_paths (s ∷ ss) = scope_paths s ++ expand_allowed_paths ss

module _ (mentions : Scope → Text → Bool) (digest : Text → Text) (plan_digest : Plan → Text) where
  unfoldable pub named_scopes : Text → List Text → List Scope
  unfolding stripped_in scope_name has_pattern select
  named_scopes goal hints =
      select (λ s. stripped_in (scope_name s) hints || (has_pattern s && mentions s goal))
        all_scopes

  -- `classify_scopes`.
  unfoldable pub classify_scopes : Text → List Text → List Scope
  unfolding named_scopes normalized_goal select is_default is_docs is_tests
  classify_scopes goal hints =
      let named = named_scopes (normalized_goal goal) hints in
      let selected = if is_empty named then select is_default all_scopes else named in
      let needs_tests = any (λ s. not (is_docs s)) selected in
      select
        (λ s.
          any (λ t. text_eq (scope_name s) (scope_name t)) selected || (needs_tests && is_tests s))
        all_scopes

  unfoldable pub make_plan : Text → List Text → ℤ → ℤ → Result UpgradeError Plan
  unfolding normalized_goal classify_scopes expand_allowed_paths clamp_int
  make_plan goal scopes max_files max_changed_lines =
      let normalized = normalized_goal goal in
      if is_empty normalized
      then err empty_goal
      else let selected = classify_scopes normalized scopes in
        let plan : Plan = record {
          goal = normalized;
          goal_sha256 = digest normalized;
          scopes = selected;
          allowed_paths = expand_allowed_paths selected;
          max_files = clamp_int max_files 1 20;
          max_changed_lines = clamp_int max_changed_lines 50 4000;
          fingerprint = [];
        } in
        ok (record plan { fingerprint = plan_digest plan })
