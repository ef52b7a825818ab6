-- ===== src/Storage.antt =====
-- Text hygiene and JSON files of app/core/storage.py, and the whitespace collapsing of
-- app/core/task_engine.py that stands before it.
pub mod Bounds
pub mod Write
pub mod Crash
pub mod Tests
use agenelf.Base.{
  ℕ, ◌-◌, Text, List, [], ◌∷◌, ◌++◌, max, length, take, ltb, if◌then◌else◌, strip, split,
  join_words, is_empty,
}

-- `safe_text`: the ellipsis is the code point 8230.
unfoldable pub safe_text : Text → ℕ → Text
safe_text value limit =
    let text = strip value in
    if ltb limit (length text) then take (max 0 (limit - 1)) text ++ 8230 ∷ [] else text

-- `" ".join(str(value or "").strip().split())`.
unfoldable pub collapse : Text → Text
collapse value = join_words (split (strip value))

-- `_safe_text` of the task engine.
unfoldable pub collapsed_text : Text → ℕ → Text
unfolding safe_text collapse
collapsed_text value limit = safe_text (collapse value) limit

-- `_safe_string_list`: the argument of `safe_string_list` is `value[:limit]`.
unfoldable pub keep_texts : ℕ → List Text → List Text
keep_texts item_limit [] = []
keep_texts item_limit (item ∷ items) =
    let text = collapsed_text item item_limit in
    let rest = keep_texts item_limit items in if is_empty text then rest else text ∷ rest

unfoldable pub safe_string_list : List Text → ℕ → ℕ → List Text
unfolding keep_texts
safe_string_list value limit item_limit = keep_texts item_limit (take limit value)
