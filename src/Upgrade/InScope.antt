-- ===== src/Upgrade/InScope.antt =====
-- What an accepted candidate changes (app/core/authorized_upgrade.py).
use agenelf.Base.{
  suc, ◌≤◌, ◌≡◌, refl, sym, ap, ◌∙◌, subst, Bool, true, false, not, ◌&&◌, ◌||◌, Text, List, [], ◌∷◌,
  codes, one_of, strip, is_some, is_empty, any, ltb, length, arith, ok, err, Result-cases, inl, inr,
  if◌then◌else◌,
}
use agenelf.Operations.Requests.{find}
use agenelf.Upgrade.Paths.{
  path_escapes, path_forbidden_ever, path_out_of_scope, wrong_file_type, with_slashes, split_path,
  real_parts, join_path, bare_path, last_part, path_forbidden, path_matches, has_file_type,
  check_parts, validate_repo_path,
}
use agenelf.Upgrade.Scoped.{
  AvoidsAll, protected, Covers, path_forbidden-avoids, path_matches-Covers,
}
use agenelf.Upgrade.Written.{pairs, last_text, write_changes-Written}
use agenelf.Upgrade.Plan.{Plan}
use agenelf.Upgrade.Changes.{
  Tools, Repo, ChangeRecord, max_file_chars, is_test_path, check_test, is_document, total_lines,
  build_record, check_content, check_change, check_changes, write_changes, check_records,
  prepare_changes,
}

length-nonempty {ℓ} : {A : Type ℓ} (xs : List A) → is_empty xs ≡ false → 1 ≤ length xs
length-nonempty [] h = ground arith
length-nonempty (x ∷ xs) h = omega arith

-- A path that a plan allows. The entries are compared with the path after its leading dots and
-- slashes: it avoids the protected directories, and is or lies under an entry of the plan.
pub record IsAllowed (allowed : List Text) (path : Text) : Type 0 where
  pub parts : List Text
  pub joined : path ≡ join_path parts
  pub inside : one_of parts (codes "..") ≡ false
  pub typed : has_file_type (last_part parts) ≡ true
  pub permitted : AvoidsAll (bare_path path) protected
  pub matched : Covers (bare_path path) allowed

or_false : (a b : Bool) → (a || b) ≡ false → b ≡ false
or_false a b h = ground arith

-- Four tests, none of which raises.
all_passed :
    (a b c d : Bool) {x y : Text}
    → (if a
        then err path_escapes
        else if b
        then err path_forbidden_ever
        else if not c
        then err path_out_of_scope
        else if not d
        then err wrong_file_type
        else ok x)
      ≡ ok y
    → (a ≡ false) × (b ≡ false) × (c ≡ true) × (d ≡ true) × (x ≡ y)
all_passed a b c d h = (ground arith, ground arith, ground arith, ground arith, ground arith)

check_parts-IsAllowed :
    (parts allowed : List Text) {path : Text}
    → check_parts parts allowed ≡ ok path
    → IsAllowed allowed path
unfolding check_parts
check_parts-IsAllowed parts allowed {path = path} h =
    let (real, permitted, matched, typed, same) =
      all_passed (is_empty parts || one_of parts (codes "..")) (path_forbidden (join_path parts))
        (path_matches (join_path parts) allowed) (has_file_type (last_part parts)) h in
    record {
      parts = parts;
      joined = sym same;
      inside = or_false (is_empty parts) (one_of parts (codes "..")) real;
      typed = typed;
      permitted = path_forbidden-avoids path (ap path_forbidden (sym same) ∙ permitted);
      matched =
          path_matches-Covers path allowed
            (ap (λ (x : Text). path_matches x allowed) (sym same) ∙ matched);
    }

validate_repo_path-IsAllowed :
    (raw : Text) (allowed : List Text) {path : Text}
    → validate_repo_path raw allowed ≡ ok path
    → IsAllowed allowed path
unfolding validate_repo_path
validate_repo_path-IsAllowed raw allowed h =
    check_parts-IsAllowed (real_parts (split_path (strip (with_slashes raw)))) allowed
      (ground arith)

module _ (tools : Tools) (plan : Plan) where
  -- What holds of a change that is recorded, and of its text.
  pub record InScope (repo : Repo) (content : Text) (r : ChangeRecord) : Type 0 where
    pub allowed : IsAllowed plan.allowed_paths r.path
    pub short : length content ≤ max_file_chars
    pub valid : tools.is_valid r.path content ≡ true
    pub clean : tools.hits_redline content ≡ false
    pub stays : repo.leaves r.path ≡ false
    pub new_test : (not (is_test_path r.path) || r.created) ≡ true
    pub digested : r.after_sha256 ≡ tools.digest content

  pub data AllInScope (repo : Repo) : List (Text × Text) → List ChangeRecord → Type 0 where
    all_checked : AllInScope repo [] []
    also :
        {raw content : Text} {changes : List (Text × Text)} {r : ChangeRecord}
        {rs : List ChangeRecord}
        → InScope repo content r
        → AllInScope repo changes rs
        → AllInScope repo ((raw, content) ∷ changes) (r ∷ rs)

  check_test-new :
      (path : Text) (repo : Repo)
      → check_test path repo ≡ ok tt
      → (not (is_test_path path) || not (is_some (find path repo.baseline))) ≡ true
  unfolding check_test
  check_test-new path repo h = ground arith

  check_content-InScope :
      (path content : Text) (repo : Repo) {r : ChangeRecord}
      → IsAllowed plan.allowed_paths path
      → check_content tools plan path content repo ≡ ok r
      → InScope repo content r
  unfolding check_content build_record
  check_content-InScope path content repo {r = r} allowed h =
      elim (Result-cases (check_test path repo)) [
        | inr (e, bad) ↦ ground arith
        | inl (_, tested) ↦
            let made : build_record tools plan path content repo ≡ r = ground arith in
            subst (λ (x : ChangeRecord). InScope repo content x) made
              (record {
                allowed = allowed;
                short = ground arith;
                valid = ground arith;
                clean = ground arith;
                stays = ground arith;
                new_test = check_test-new path repo tested;
                digested = refl;
              })
      ]

  check_changes-InScope :
      (changes : List (Text × Text)) (repo : Repo) {records : List ChangeRecord}
      → check_changes tools plan changes repo ≡ ok records
      → (length records ≡ length changes) × AllInScope repo changes records
  unfolding check_changes check_change
  check_changes-InScope [] repo {records = records} h =
      let none_there : [] ≡ records = ground arith in
      subst (λ (rs : List ChangeRecord). (length rs ≡ 0) × AllInScope repo [] rs) none_there
        (refl, all_checked)
  check_changes-InScope ((raw, content) ∷ changes) repo {records = records} h =
      elim (Result-cases (validate_repo_path raw plan.allowed_paths)) [
        | inr (e, bad) ↦ ground arith
        | inl (path, valid) ↦ elim (Result-cases (check_content tools plan path content repo)) [
          | inr (e, bad) ↦ ground arith
          | inl (r, checked) ↦ elim (Result-cases (check_changes tools plan changes repo)) [
            | inr (e, bad) ↦ ground arith
            | inl (rs, rest) ↦
                let made : r ∷ rs ≡ records = ground arith in
                let (as_many, others) = check_changes-InScope changes repo rest in
                subst
                  (λ (xs : List ChangeRecord).
                    (length xs ≡ length ((raw, content) ∷ changes))
                    × AllInScope repo ((raw, content) ∷ changes) xs)
                  made
                  (
                    ap suc as_many,
                    also
                        (check_content-InScope path content repo
                          (validate_repo_path-IsAllowed raw plan.allowed_paths valid) checked)
                        others,
                  )
          ]
        ]
      ]

  prepare_changes-records :
      (changes : List (Text × Text)) (repo : Repo) {records : List ChangeRecord} {repo' : Repo}
      → prepare_changes tools plan changes repo ≡ (ok records, repo')
      → (is_empty changes ≡ false)
        × (ltb plan.max_files (length changes) ≡ false)
        × (check_changes tools plan changes repo ≡ ok records)
        × (check_records tools plan records ≡ ok tt)
        × (write_changes tools plan changes repo ≡ repo')
  unfolding prepare_changes
  prepare_changes-records changes repo h =
      elim (Result-cases (check_changes tools plan changes repo)) [
        | inr (e, bad) ↦ ground arith
        | inl (rs, checked) ↦ elim (Result-cases (check_records tools plan rs)) [
          | inr (e, bad) ↦ ground arith
          | inl (_, fits) ↦ ground arith
        ]
      ]

  check_records-fits :
      (records : List ChangeRecord)
      → check_records tools plan records ≡ ok tt
      → ((any (λ r. not (is_document r)) records
            && not (any (λ (r : ChangeRecord). is_test_path r.path) records))
          ≡ false)
        × (total_lines records ≤ plan.max_changed_lines)
  unfolding check_records
  check_records-fits records h = (ground arith, ground arith)

  -- A candidate that is accepted has one record for each change that the model gave, at least one
  -- and not more than the plan allows, and not more changed lines in all. Each record's path is
  -- an entry of the plan or lies under one that ends in a slash, both taken without their leading
  -- dots and slashes, and so taken it neither is nor lies under a protected directory; its text
  -- parses and hits no red line, and existing tests are left alone. Unless only documents change,
  -- one of the changes is a test. In the working copy each file has the text of the last change with
  -- its path, or the one it had; nothing else of it changes.
  pub prepare_changes-InScope :
      (changes : List (Text × Text)) (repo : Repo) {records : List ChangeRecord} {repo' : Repo}
      → prepare_changes tools plan changes repo ≡ (ok records, repo')
      → (length records ≡ length changes)
        × (1 ≤ length records)
        × (length records ≤ plan.max_files)
        × (total_lines records ≤ plan.max_changed_lines)
        × AllInScope repo changes records
        × ((any (λ r. not (is_document r)) records
              && not (any (λ (r : ChangeRecord). is_test_path r.path) records))
            ≡ false)
        × (repo'.baseline ≡ repo.baseline)
        × (repo'.leaves ≡ repo.leaves)
        × ((q : Text)
            → find q repo'.texts ≡ last_text q (pairs records changes) (find q repo.texts))
  prepare_changes-InScope changes repo {records = records} {repo' = repo'} h =
      let (some_there, few, checked, fits, after) = prepare_changes-records changes repo h in
      let (as_many, scope) = check_changes-InScope changes repo checked in
      let (tested, small) = check_records-fits records fits in
      let nonempty = length-nonempty changes some_there in
      let (frame, texts) = write_changes-Written tools plan changes repo repo checked in
      (
        as_many,
        omega (arith, as_many, nonempty),
        ground (arith, as_many, few),
        small,
        scope,
        tested,
        ap (λ (x : Repo). x.baseline) (sym after) ∙ frame.baseline,
        ap (λ (x : Repo). x.leaves) (sym after) ∙ frame.leaves,
        λ q. ap (λ (x : Repo). find q x.texts) (sym after) ∙ texts q,
      )
