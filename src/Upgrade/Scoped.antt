-- ===== src/Upgrade/Scoped.antt =====
-- Which paths an upgrade may write (app/core/authorized_upgrade.py): what the tests of a path mean.
use agenelf.Base.{
  ◌≡◌, ◌≢◌, refl, sym, ap, ◌∙◌, Bool, true, false, not, ◌&&◌, ◌||◌, Text, List, [], ◌∷◌, ◌++◌,
  codes, text_eq, text_eq_iff, one_of, starts_with, arith, inl, inr, Bool-cases,
}
use agenelf.Upgrade.Paths.{
  forbidden_prefixes, forbidden_exact, bare_path, drop_trailing_slashes, under_forbidden,
  path_forbidden, ends_slash, matches_rule, path_matches,
}

-- A name is neither this directory nor below it.
pub record Avoids (name directory : Text) : Type 0 where
  pub differs : name ≢ directory
  pub outside : (rest : Text) → name ≢ directory ++ (b'/' ∷ rest)

abbrev pub AvoidsAll : Text → List Text → Type 0
AvoidsAll name [] = Unit {0}
AvoidsAll name (directory ∷ directories) = Avoids name directory × AvoidsAll name directories

-- The directories that no upgrade may change.
abbrev pub protected : List Text
protected =
    codes ".git"
    ∷ codes "local"
    ∷ codes "data"
    ∷ codes "logs"
    ∷ codes "workspace"
    ∷ codes "app-tmp"
    ∷ codes "app-space"
    ∷ codes "code-workspaces"
    ∷ codes "repair-space"
    ∷ codes "secrets"
    ∷ []

-- A name is that of an entry, or the entry ends in a slash and the name goes on after it.
pub data Covers (name : Text) : List Text → Type 0 where
  itself :
      {entry : Text} {entries : List Text} → name ≡ bare_path entry → Covers name (entry ∷ entries)
  below :
      {entry : Text} {entries : List Text}
      → (rest : Text) → ends_slash (bare_path entry) ≡ true
      → name ≡ bare_path entry ++ rest
      → Covers name (entry ∷ entries)
  further :
      {entry : Text} {entries : List Text} → Covers name entries → Covers name (entry ∷ entries)

starts_with-append : (p rest : Text) → starts_with p (p ++ rest) ≡ true
starts_with-append [] rest = refl
starts_with-append (c ∷ p) rest = ground (arith, starts_with-append p rest)

starts_with-rest : (p s : Text) → starts_with p s ≡ true → (rest : Text) × (s ≡ p ++ rest)
starts_with-rest [] s h = (s, refl)
starts_with-rest (c ∷ p) [] h = ground arith
starts_with-rest (c ∷ p) (d ∷ s) h =
    let (rest, e) = starts_with-rest p s (ground arith) in (rest, ground (arith, e))

or_second : (a b : Bool) → (a || b) ≡ false → b ≡ false
or_second a b h = ground arith

and_second : (a b : Bool) → (a && b) ≡ true → b ≡ true
and_second a b h = ground arith

pub clash : true ≡ false → ⊥
clash e = cc

slash_append : (p rest : Text) → (p ++ codes "/") ++ rest ≡ p ++ (b'/' ∷ rest)
slash_append [] rest = refl
slash_append (c ∷ p) rest = ap (λ s. c ∷ s) (slash_append p rest)

text_eq-Avoids :
    (name directory : Text)
    → text_eq name directory ≡ false
    → starts_with (directory ++ codes "/") name ≡ false
    → Avoids name directory
text_eq-Avoids name directory other out = record {
  differs = λ e. clash (sym ((text_eq_iff name directory).1 e) ∙ other);
  outside = λ rest e. clash (
      sym (starts_with-append (directory ++ codes "/") rest)
      ∙ ap (starts_with (directory ++ codes "/")) (slash_append directory rest ∙ sym e)
      ∙ out);
}

-- The entry of a directory, as the list of the source spells it.
abbrev spelled : List Text → List Text
spelled [] = []
spelled (directory ∷ directories) = (directory ++ codes "/") ∷ spelled directories

abbrev plain : List Text → Bool
plain [] = true
plain (directory ∷ directories) =
    text_eq (drop_trailing_slashes (directory ++ codes "/")) directory && plain directories

under_forbidden-avoids :
    (directories : List Text) (name : Text)
    → plain directories ≡ true
    → under_forbidden (spelled directories) name ≡ false
    → AvoidsAll name directories
unfolding under_forbidden
under_forbidden-avoids [] name p h = tt
under_forbidden-avoids (directory ∷ directories) name p h =
    let same : drop_trailing_slashes (directory ++ codes "/") ≡ directory =
      (text_eq_iff (drop_trailing_slashes (directory ++ codes "/")) directory).0 (ground arith) in
    let other : text_eq name directory ≡ false = ap (text_eq name) (sym same) ∙ ground arith in
    (
      text_eq-Avoids name directory other (ground arith),
      under_forbidden-avoids directories name (ground arith) (ground arith),
    )

protected-plain : plain protected ≡ true
unfolding drop_trailing_slashes
protected-plain = refl

pub path_forbidden-avoids :
    (path : Text) → path_forbidden path ≡ false → AvoidsAll (bare_path path) protected
unfolding path_forbidden
path_forbidden-avoids path h = under_forbidden-avoids protected (bare_path path) protected-plain (
    or_second (one_of forbidden_exact (bare_path path))
      (under_forbidden forbidden_prefixes (bare_path path)) h)

matches_rule-Covers :
    (name : Text) (entries : List Text) → matches_rule name entries ≡ true → Covers name entries
unfolding matches_rule
matches_rule-Covers name [] h = ground arith
matches_rule-Covers name (entry ∷ entries) h = elim (Bool-cases (text_eq name (bare_path entry))) [
  | inl same ↦ itself ((text_eq_iff name (bare_path entry)).0 same)
  | inr other ↦
      elim (Bool-cases (ends_slash (bare_path entry) && starts_with (bare_path entry) name)) [
        | inl under ↦
            let (rest, e) = starts_with-rest (bare_path entry) name (ground arith) in
            below rest (ground arith) e
        | inr out ↦ further (matches_rule-Covers name entries (ground arith))
      ]
]

pub path_matches-Covers :
    (path : Text) (allowed : List Text)
    → path_matches path allowed ≡ true
    → Covers (bare_path path) allowed
unfolding path_matches
path_matches-Covers path allowed h =
    matches_rule-Covers (bare_path path) allowed
      (and_second (not (path_forbidden (bare_path path))) (matches_rule (bare_path path) allowed) h)
