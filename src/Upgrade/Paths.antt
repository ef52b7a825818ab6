-- ===== src/Upgrade/Paths.antt =====
-- Which files an upgrade may change: `_path_forbidden`, `_path_matches` and `validate_repo_path` of
-- app/core/authorized_upgrade.py.
use agenelf.Base.{
  ℕ, ◌==◌, Bool, false, not, ◌&&◌, ◌||◌, Option, none, some, Text, List, [], ◌∷◌, ◌++◌, map, codes,
  text_eq, one_of, strip, lower, is_empty, starts_with, if◌then◌else◌, Result, ok, err,
}
use agenelf.Policy.Paths.{drop_leading, dot_or_slash}

pub data UpgradeError : Type 0 where
  not_relative path_escapes path_forbidden_ever path_out_of_scope wrong_file_type : UpgradeError
  empty_goal unknown_scope : UpgradeError
  no_changes too_many_files file_too_long existing_test wrong_test_name invalid_syntax redline
        no_new_test too_many_lines :
      UpgradeError

-- `replace("\\", "/")`.
unfoldable pub with_slashes : Text → Text
with_slashes = map (λ c. if c == b'\\' then b'/' else c)

unfoldable pub ends_slash : Text → Bool
ends_slash [] = false
ends_slash (c ∷ []) = c == b'/'
ends_slash (c ∷ d ∷ s) = ends_slash (d ∷ s)

-- `rstrip("/")`.
unfoldable pub drop_trailing_slashes : Text → Text
drop_trailing_slashes [] = []
drop_trailing_slashes (c ∷ s) =
    let rest = drop_trailing_slashes s in if c == b'/' && is_empty rest then [] else c ∷ rest

-- `split("/")`: one more part than there are slashes.
unfoldable pub extend_part : ℕ → List Text → List Text
extend_part c [] = (c ∷ []) ∷ []
extend_part c (part ∷ parts) = (c ∷ part) ∷ parts

unfoldable pub split_path : Text → List Text
unfolding extend_part
split_path [] = [] ∷ []
split_path (c ∷ s) = let rest = split_path s in if c == b'/' then [] ∷ rest else extend_part c rest

unfoldable pub join_path : List Text → Text
join_path [] = []
join_path (part ∷ []) = part
join_path (part ∷ next ∷ parts) = part ++ (b'/' ∷ join_path (next ∷ parts))

-- The parts that say something.
unfoldable pub real_parts : List Text → List Text
real_parts [] = []
real_parts (part ∷ parts) =
    let rest = real_parts parts in
    if is_empty part || text_eq part (codes ".") then rest else part ∷ rest

unfoldable pub last_part : List Text → Text
last_part [] = []
last_part (part ∷ []) = part
last_part (part ∷ next ∷ parts) = last_part (next ∷ parts)

-- `Path(name).suffix` from its second character on: what begins at the last dot, if anything
-- follows that dot.
unfoldable pub last_suffix : Text → Option Text
last_suffix [] = none
last_suffix (c ∷ s) = elim (last_suffix s) [
  | some suffix ↦ some suffix
  | none ↦ if c == b'.' && not (is_empty s) then some (c ∷ s) else none
]

-- A name that ends in a dot has no suffix, and neither has one whose only dot is its first
-- character.
unfoldable pub ends_dot : Text → Bool
ends_dot [] = false
ends_dot (c ∷ []) = c == b'.'
ends_dot (c ∷ d ∷ s) = ends_dot (d ∷ s)

unfoldable pub suffix_of : Text → Text
unfolding last_suffix ends_dot
suffix_of [] = []
suffix_of (c ∷ s) =
    if ends_dot s then [] else elim (last_suffix s) [ none ↦ [] | some suffix ↦ suffix ]

-- `_PERMANENTLY_FORBIDDEN_PREFIXES` and `_PERMANENTLY_FORBIDDEN_EXACT`.
abbrev pub forbidden_prefixes : List Text
forbidden_prefixes =
    codes ".git/"
    ∷ codes "local/"
    ∷ codes "data/"
    ∷ codes "logs/"
    ∷ codes "workspace/"
    ∷ codes "app-tmp/"
    ∷ codes "app-space/"
    ∷ codes "code-workspaces/"
    ∷ codes "repair-space/"
    ∷ codes "secrets/"
    ∷ []

abbrev pub forbidden_exact : List Text
forbidden_exact = codes ".env" ∷ codes ".ops-runner.env" ∷ []

-- `_ALLOWED_SUFFIXES` and `_ALLOWED_BASENAMES`.
abbrev pub allowed_suffixes : List Text
allowed_suffixes =
    codes ".py"
    ∷ codes ".sh"
    ∷ codes ".ps1"
    ∷ codes ".yaml"
    ∷ codes ".yml"
    ∷ codes ".json"
    ∷ codes ".toml"
    ∷ codes ".md"
    ∷ codes ".txt"
    ∷ []

abbrev pub allowed_basenames : List Text
allowed_basenames =
    codes "Dockerfile"
    ∷ codes "Makefile"
    ∷ codes "README.md"
    ∷ codes "docker-compose.yml"
    ∷ codes ".env.example"
    ∷ codes ".ops-runner.env.example"
    ∷ codes ".gitignore"
    ∷ codes ".gitleaks.toml"
    ∷ []

-- `replace("\\", "/").lstrip("./")`.
unfoldable pub bare_path : Text → Text
unfolding with_slashes drop_leading
bare_path path = drop_leading dot_or_slash (with_slashes path)

unfoldable pub under_forbidden : List Text → Text → Bool
unfolding drop_trailing_slashes
under_forbidden [] normalized = false
under_forbidden (prefix ∷ prefixes) normalized =
    text_eq normalized (drop_trailing_slashes prefix)
    || starts_with prefix normalized
    || under_forbidden prefixes normalized

unfoldable pub path_forbidden : Text → Bool
unfolding bare_path under_forbidden
path_forbidden path =
    let normalized = bare_path path in
    one_of forbidden_exact normalized || under_forbidden forbidden_prefixes normalized

unfoldable pub matches_rule : Text → List Text → Bool
unfolding bare_path ends_slash
matches_rule normalized [] = false
matches_rule normalized (raw ∷ rules) =
    let rule = bare_path raw in
    (ends_slash rule && starts_with rule normalized)
    || text_eq normalized rule
    || matches_rule normalized rules

unfoldable pub path_matches : Text → List Text → Bool
unfolding bare_path path_forbidden matches_rule
path_matches path allowed =
    let normalized = bare_path path in
    not (path_forbidden normalized) && matches_rule normalized allowed

unfoldable pub has_file_type : Text → Bool
unfolding suffix_of
has_file_type name =
    one_of allowed_suffixes (lower (suffix_of name)) || one_of allowed_basenames name

-- The checks of a path whose parts are known.
unfoldable pub check_parts : List Text → List Text → Result UpgradeError Text
unfolding join_path last_part path_forbidden path_matches has_file_type
check_parts parts allowed =
    let normalized = join_path parts in
    if is_empty parts || one_of parts (codes "..")
    then err path_escapes
    else if path_forbidden normalized
    then err path_forbidden_ever
    else if not (path_matches normalized allowed)
    then err path_out_of_scope
    else if not (has_file_type (last_part parts))
    then err wrong_file_type
    else ok normalized

unfoldable pub validate_repo_path : Text → List Text → Result UpgradeError Text
unfolding with_slashes split_path real_parts check_parts
validate_repo_path path allowed =
    let raw = strip (with_slashes path) in
    if is_empty raw || starts_with (codes "/") raw
    then err not_relative
    else check_parts (real_parts (split_path raw)) allowed
