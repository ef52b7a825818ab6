-- ===== src/Policy/Paths.antt =====
-- `is_protected_path` of app/core/policy.py.
use agenelf.Base.{
  ℕ, ◌==◌, ◌≡◌, refl, Bool, true, false, not, ◌&&◌, ◌||◌, none, some, Text, List, [], ◌∷◌, strip,
  starts_with, is_empty, arith, if◌then◌else◌, Bool-cases, inl, inr,
}
use agenelf.Policy.Rules.{PolicyFile, PolicyEngine}

-- `lstrip("./")` and `lstrip("/")`, which drop characters and not a prefix.
unfoldable pub drop_leading : (ℕ → Bool) → Text → Text
drop_leading p [] = []
drop_leading p (c ∷ s) = let rest = drop_leading p s in if p c then rest else c ∷ s

abbrev pub dot_or_slash : ℕ → Bool
dot_or_slash c = c == b'.' || c == b'/'

abbrev pub slash : ℕ → Bool
slash c = c == b'/'

unfoldable pub normalized_path : Text → Text
unfolding drop_leading
normalized_path path = drop_leading slash (drop_leading dot_or_slash (strip path))

unfoldable pub has_prefix : List Text → Text → Bool
has_prefix [] path = false
has_prefix (entry ∷ entries) path =
    let prefix = strip entry in
    (not (is_empty prefix) && starts_with prefix path) || has_prefix entries path

unfoldable pub is_protected_path : PolicyEngine → Text → Bool
unfolding normalized_path has_prefix
is_protected_path none path = false
is_protected_path (some file) path =
    let normalized = normalized_path path in
    not (is_empty normalized) && has_prefix file.protected_paths normalized

-- Does a text begin with a dot or a slash?
unfoldable pub begins_dotted : Text → Bool
begins_dotted [] = false
begins_dotted (c ∷ s) = dot_or_slash c

drop_leading-plain : (s : Text) → begins_dotted (drop_leading dot_or_slash s) ≡ false
unfolding drop_leading begins_dotted
drop_leading-plain [] = refl
drop_leading-plain (c ∷ s) = ground (arith, drop_leading-plain s)

drop_slash-plain :
    (s : Text) → begins_dotted s ≡ false → begins_dotted (drop_leading slash s) ≡ false
unfolding drop_leading begins_dotted
drop_slash-plain [] h = refl
drop_slash-plain (c ∷ s) h = ground arith

starts_with-dotted :
    (p s : Text) → begins_dotted p ≡ true → begins_dotted s ≡ false → starts_with p s ≡ false
unfolding begins_dotted
starts_with-dotted [] s h k = ground arith
starts_with-dotted (c ∷ p) [] h k = refl
starts_with-dotted (c ∷ p) (d ∷ s) h k = ground arith

-- An entry of the protected paths that begins with a dot or a slash protects nothing: every path is
-- judged as if the entry were not there.
pub is_protected_path-dotted :
    (file : PolicyFile) (entry : Text) (entries : List Text) (path : Text)
    → begins_dotted (strip entry) ≡ true
    → is_protected_path (some (record file { protected_paths = entry ∷ entries })) path
      ≡ is_protected_path (some (record file { protected_paths = entries })) path
unfolding is_protected_path normalized_path
is_protected_path-dotted file entry entries path dotted =
    let start = drop_slash-plain _ (drop_leading-plain (strip path)) in
    rw (starts_with-dotted (strip entry) (normalized_path path) dotted start)
      (elim (Bool-cases (is_empty (strip entry))) [ inl e ↦ rw e refl | inr e ↦ rw e refl ])
