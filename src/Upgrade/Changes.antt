-- ===== src/Upgrade/Changes.antt =====
-- `_prepare_changes` of app/core/authorized_upgrade.py: the answer of the language model becomes
-- files of the candidate, or an error. Parsers, patterns, digests and differences of texts are
-- arguments.
use agenelf.Base.{
  ℕ, ◌+◌, Bool, false, not, ◌&&◌, ◌||◌, Option, none, some, Text, List, [], ◌∷◌, codes, text_eq,
  starts_with, is_some, is_empty, any, ltb, length, if◌then◌else◌, Result, ok, err, bind,
}
use agenelf.Operations.Requests.{find}
use agenelf.Upgrade.Paths.{
  UpgradeError, path_escapes, no_changes, too_many_files, file_too_long, existing_test,
  wrong_test_name, invalid_syntax, redline, no_new_test, too_many_lines, split_path, last_part,
  validate_repo_path,
}
use agenelf.Upgrade.Plan.{Plan}

-- `ast`, `yaml`, `json` and `tomllib`; `re`; `difflib`; `hashlib`.
pub record Tools : Type 0 where
  pub is_valid : Text → Text → Bool
  pub hits_redline : Text → Bool
  pub changed_lines : Text → Text → ℕ
  pub digest : Text → Text

-- The working copy: the digests of the baseline, the texts of the files, and the paths that lead
-- out of it by a symbolic link.
pub record Repo : Type 0 where
  pub baseline : List (Text × Text)
  pub texts : List (Text × Text)
  pub leaves : Text → Bool

pub record ChangeRecord : Type 0 where
  pub path : Text
  pub before_sha256 : Text
  pub after_sha256 : Text
  pub changed_lines : ℕ
  pub created : Bool

abbrev pub max_file_chars : ℕ
max_file_chars = 120000

unfoldable pub text_or_empty : Option Text → Text
text_or_empty none = []
text_or_empty (some s) = s

unfoldable pub ends_with_py : Text → Bool
ends_with_py [] = false
ends_with_py (c ∷ s) = text_eq (c ∷ s) (codes ".py") || ends_with_py s

unfoldable pub is_test_path : Text → Bool
is_test_path path = starts_with (codes "app/tests/") path

-- Existing tests are protected, and a new one has a name that the runner collects.
unfoldable pub check_test : Text → Repo → Result UpgradeError (Unit {0})
unfolding is_test_path find last_part split_path ends_with_py
check_test path repo =
    if not (is_test_path path)
    then ok tt
    else if is_some (find path repo.baseline)
    then err existing_test
    else if not (starts_with (codes "test_") (last_part (split_path path)) && ends_with_py path)
    then err wrong_test_name
    else ok tt

unfoldable pub is_document : ChangeRecord → Bool
is_document r = starts_with (codes "docs/") r.path || starts_with (codes "README.md") r.path

unfoldable pub total_lines : List ChangeRecord → ℕ
total_lines [] = 0
total_lines (r ∷ rs) = r.changed_lines + total_lines rs

-- `write_text` of one file.
unfoldable pub put_text : Text → Text → List (Text × Text) → List (Text × Text)
put_text path content [] = (path, content) ∷ []
put_text path content ((other, old) ∷ files) =
    let rest = put_text path content files in
    if text_eq other path then (path, content) ∷ files else (other, old) ∷ rest

module _ (tools : Tools) (plan : Plan) where
  unfoldable pub build_record : Text → Text → Repo → ChangeRecord
  unfolding text_or_empty find
  build_record path content repo = record {
    path = path;
    before_sha256 = text_or_empty (find path repo.baseline);
    after_sha256 = tools.digest content;
    changed_lines = tools.changed_lines (text_or_empty (find path repo.texts)) content;
    created = not (is_some (find path repo.baseline));
  }

  -- The checks of one file whose path is known, in the order of the source.
  unfoldable pub check_content : Text → Text → Repo → Result UpgradeError ChangeRecord
  unfolding check_test build_record
  check_content path content repo =
      if ltb max_file_chars (length content)
      then err file_too_long
      else bind (check_test path repo) λ _.
        if not (tools.is_valid path content)
        then err invalid_syntax
        else if tools.hits_redline content
        then err redline
        else if repo.leaves path
        then err path_escapes
        else ok (build_record path content repo)

  unfoldable pub check_change : Text → Text → Repo → Result UpgradeError ChangeRecord
  unfolding validate_repo_path check_content
  check_change raw content repo =
      bind (validate_repo_path raw plan.allowed_paths) λ path. check_content path content repo

  unfoldable pub check_changes : List (Text × Text) → Repo → Result UpgradeError (List ChangeRecord)
  unfolding check_change
  check_changes [] repo = ok []
  check_changes ((raw, content) ∷ changes) repo =
      bind (check_change raw content repo) λ r. bind (check_changes changes repo) λ rs. ok (r ∷ rs)

  -- The second loop: every path has been validated before.
  unfoldable pub write_changes : List (Text × Text) → Repo → Repo
  unfolding validate_repo_path put_text
  write_changes [] repo = repo
  write_changes ((raw, content) ∷ changes) repo = elim (validate_repo_path raw plan.allowed_paths) [
    | err _ ↦ repo
    | ok path ↦ write_changes changes (record repo { texts = put_text path content repo.texts })
  ]

  unfoldable pub check_records : List ChangeRecord → Result UpgradeError (Unit {0})
  unfolding is_document is_test_path total_lines
  check_records records =
      if any (λ r. not (is_document r)) records
        && not (any (λ (r : ChangeRecord). is_test_path r.path) records)
      then err no_new_test
      else if ltb plan.max_changed_lines (total_lines records)
      then err too_many_lines
      else ok tt

  unfoldable pub prepare_changes :
      List (Text × Text) → Repo → Result UpgradeError (List ChangeRecord) × Repo
  unfolding check_changes check_records write_changes
  prepare_changes changes repo =
      if is_empty changes
      then (err no_changes, repo)
      else if ltb plan.max_files (length changes)
      then (err too_many_files, repo)
      else elim (bind (check_changes changes repo) λ rs. bind (check_records rs) λ _. ok rs) [
        | err e ↦ (err e, repo)
        | ok records ↦ (ok records, write_changes changes repo)
      ]
