-- ===== src/Apply/World.antt =====
-- What the runner of the upgrades works on, and what it raises (scripts/self_upgrade_runner.py).
use agenelf.Base.{
  ◌==◌, Bool, true, false, ◌&&◌, Option, none, some, Text, List, [], ◌∷◌, text_eq, Result, ok, err,
}
use agenelf.Permissions.Check.{AuthStatus, BindingError}
use agenelf.Upgrade.Paths.{UpgradeError}
use agenelf.Upgrade.Plan.{Scope, scope_name}
use agenelf.Upgrade.Changes.{ChangeRecord}
use agenelf.Upgrade.Session.{Candidate, UpgradeWorld}
use agenelf.Apply.Disk.{Disk, WriteError}
use agenelf.Apply.Install.{ApplyError}

pub data RunnerError : Type 0 where
  invalid_id fingerprint_mismatch unsupported_version no_session wrong_status : RunnerError
  intent_not_consumed intent_id_mismatch candidate_id_mismatch : RunnerError
  candidate_binding_mismatch manifest_mismatch : RunnerError
  no_binding_key binding_missing candidate_repo_missing tree_changed tree_not_bound : RunnerError
  path_refused : UpgradeError → RunnerError
  candidate_file_missing candidate_redline candidate_hash_mismatch : RunnerError
  target_refused : WriteError → RunnerError
  stale_target target_exists revalidation_failed not_consumed result_exists : RunnerError
  not_approved : AuthStatus → RunnerError
  auth_raised : BindingError → RunnerError
  apply_raised : ApplyError → RunnerError

-- What `process_request` returns.
pub data RunnerState : Type 0 where
  invalid done locked pending succeeded failed : RunnerState

-- `mounted` is `CANDIDATE_REPO.is_dir()`, and `links` are the names in it that are symbolic links.
pub record RunnerWorld : Type 0 where
  pub upgrade : UpgradeWorld
  pub mounted : Bool
  pub links : Text → Bool
  pub disk : Disk
  pub locks : List Text

unfoldable pub require : Bool → RunnerError → Result RunnerError (Unit {0})
require true e = ok tt
require false e = err e

unfoldable pub list_eq : {A : Type 0} → (A → A → Bool) → List A → List A → Bool
list_eq eq [] [] = true
list_eq eq [] (y ∷ ys) = false
list_eq eq (x ∷ xs) [] = false
list_eq eq (x ∷ xs) (y ∷ ys) = eq x y && list_eq eq xs ys

unfoldable pub bool_eq : Bool → Bool → Bool
bool_eq true b = b
bool_eq false true = false
bool_eq false false = true

unfoldable pub record_eq : ChangeRecord → ChangeRecord → Bool
unfolding bool_eq
record_eq r s =
    text_eq r.path s.path
    && text_eq r.before_sha256 s.before_sha256
    && text_eq r.after_sha256 s.after_sha256
    && r.changed_lines == s.changed_lines
    && bool_eq r.created s.created

unfoldable pub records_eq : List ChangeRecord → List ChangeRecord → Bool
unfolding list_eq record_eq
records_eq = list_eq record_eq

unfoldable pub scope_eq : Scope → Scope → Bool
unfolding scope_name
scope_eq s t = text_eq (scope_name s) (scope_name t)

-- `==` on two bindings, key by key.
unfoldable pub candidate_eq : Candidate → Candidate → Bool
unfolding list_eq records_eq scope_eq
candidate_eq c d =
    text_eq c.session_id d.session_id
    && text_eq c.intent_auth_id d.intent_auth_id
    && text_eq c.goal_sha256 d.goal_sha256
    && list_eq scope_eq c.scopes d.scopes
    && list_eq text_eq c.allowed_paths d.allowed_paths
    && records_eq c.changed_files d.changed_files
    && text_eq c.candidate_tree_sha256 d.candidate_tree_sha256
    && text_eq c.test_report_sha256 d.test_report_sha256
    && text_eq c.baseline_manifest_sha256 d.baseline_manifest_sha256

unfoldable pub binding_eq : Option Candidate → Option Candidate → Bool
unfolding candidate_eq
binding_eq none none = true
binding_eq none (some d) = false
binding_eq (some c) none = false
binding_eq (some c) (some d) = candidate_eq c d
