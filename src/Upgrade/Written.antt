-- ===== src/Upgrade/Written.antt =====
-- What `_prepare_changes` of app/core/authorized_upgrade.py writes to the working copy.
use agenelf.Base.{
  ◌≡◌, refl, sym, ap, ◌∙◌, true, false, Option, some, text_eq, text_eq_iff, Bool-cases, Text, List,
  [], ◌∷◌, arith, ok, Result-cases, inl, inr, if◌then◌else◌,
}
use agenelf.Operations.Requests.{find}
use agenelf.Upgrade.Paths.{validate_repo_path}
use agenelf.Upgrade.Scoped.{clash}
use agenelf.Upgrade.Plan.{Plan}
use agenelf.Upgrade.Changes.{
  Tools, Repo, ChangeRecord, check_test, put_text, build_record, check_content, check_change,
  check_changes, write_changes,
}

-- The path of each record with the text of its change.
abbrev pub pairs : List ChangeRecord → List (Text × Text) → List (Text × Text)
pairs [] changes = []
pairs (r ∷ rs) [] = []
pairs (r ∷ rs) ((raw, content) ∷ changes) = (r.path, content) ∷ pairs rs changes

-- The last text that is given for a file, or the one before all.
abbrev pub last_text : Text → List (Text × Text) → Option Text → Option Text
last_text q [] before = before
last_text q ((path, content) ∷ written) before =
    last_text q written (if text_eq path q then some content else before)

path_differs :
    (other path q : Text)
    → text_eq other path ≡ false
    → text_eq other q ≡ true
    → text_eq path q ≡ false
path_differs other path q differs here = elim (Bool-cases (text_eq path q)) [
  | inr two ↦ two
  | inl mine ↦
      let same : other ≡ path = (text_eq_iff other q).0 here ∙ sym ((text_eq_iff path q).0 mine) in
      absurd (clash (sym ((text_eq_iff other path).1 same) ∙ differs))
]

find-put_text :
    (q path content : Text) (files : List (Text × Text))
    → find q (put_text path content files) ≡ (if text_eq path q then some content else find q files)
unfolding find put_text
find-put_text q path content [] = refl
find-put_text q path content ((other, old) ∷ files) =
    let rest = find-put_text q path content files in
    elim (Bool-cases (text_eq other path)) [
      | inl same ↦
          let e = (text_eq_iff other path).0 same in
          elim (Bool-cases (text_eq path q)) [
            | inl mine ↦ rw (same, mine) refl
            | inr two ↦ rw (same, two) (rw (ap (λ x. text_eq x q) e ∙ two) refl)
          ]
      | inr differs ↦ elim (Bool-cases (text_eq other q)) [
        | inl here ↦
            let two : text_eq path q ≡ false = path_differs other path q differs here in
            rw (differs, here, two) refl
        | inr away ↦ rw (differs, away) rest
      ]
    ]

module _ (tools : Tools) (plan : Plan) where
  -- A change that is written keeps the baseline and the links.
  pub record SameFrame (repo repo' : Repo) : Type 0 where
    pub baseline : repo'.baseline ≡ repo.baseline
    pub leaves : repo'.leaves ≡ repo.leaves

  check_change-path :
      (raw content : Text) (repo : Repo) {r : ChangeRecord}
      → check_change tools plan raw content repo ≡ ok r
      → validate_repo_path raw plan.allowed_paths ≡ ok r.path
  unfolding check_change check_content build_record
  check_change-path raw content repo {r = r} h =
      elim (Result-cases (validate_repo_path raw plan.allowed_paths)) [
        | inr (e, bad) ↦ ground arith
        | inl (path, valid) ↦ elim (Result-cases (check_test path repo)) [
          | inr (e, bad) ↦ ground arith
          | inl (u, tested) ↦
              let made : build_record tools plan path content repo ≡ r = ground arith in
              valid ∙ ap (λ (x : ChangeRecord). ok x.path) made
        ]
      ]

  pub write_changes-Written :
      (changes : List (Text × Text)) (start repo : Repo) {records : List ChangeRecord}
      → check_changes tools plan changes start ≡ ok records
      → let repo' = write_changes tools plan changes repo in
        SameFrame repo repo'
        × ((q : Text)
            → find q repo'.texts ≡ last_text q (pairs records changes) (find q repo.texts))
  unfolding check_changes write_changes
  write_changes-Written [] start repo h =
      (record { baseline = refl; leaves = refl }, λ q. ground (arith, h))
  write_changes-Written ((raw, content) ∷ changes) start repo {records = records} h =
      elim (Result-cases (check_change tools plan raw content start)) [
        | inr (e, bad) ↦ ground arith
        | inl (r, checked) ↦ elim (Result-cases (check_changes tools plan changes start)) [
          | inr (e, bad) ↦ ground arith
          | inl (rs, rest) ↦
              let made : r ∷ rs ≡ records = ground arith in
              let valid = check_change-path raw content start checked in
              let next = record repo { texts = put_text r.path content repo.texts } in
              let (frame, texts) = write_changes-Written changes start next rest in
              rw (valid, write_changes)
                (
                  record { baseline = frame.baseline; leaves = frame.leaves },
                  λ q.
                      texts q
                      ∙ ap (last_text q (pairs rs changes))
                          (find-put_text q r.path content repo.texts)
                      ∙ ap
                          (λ xs.
                            last_text q (pairs xs ((raw, content) ∷ changes)) (find q repo.texts))
                          made,
                )
        ]
      ]
