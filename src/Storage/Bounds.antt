-- ===== src/Storage/Bounds.antt =====
-- The length of what `safe_text` and its callers hand to a file (app/core/storage.py).
use agenelf.Base.{
  ℕ, ◌-◌, ◌≤◌, ◌<◌, ◌≡◌, Text, List, [], ◌∷◌, arith, length, take, max, true, all, leb, not,
  is_empty, length-append, length-take, strip,
}
use agenelf.Storage.{safe_text, collapse, collapsed_text, keep_texts, safe_string_list}

-- The text is at most `limit` long, the ellipsis included.
pub length-safe_text :
    (value : Text) (limit : ℕ) → 0 < limit → length (safe_text value limit) ≤ limit
unfolding safe_text
length-safe_text value limit h = ground (
  arith,
  length-append (take (max 0 (limit - 1)) (strip value)) (8230 ∷ []),
  length-take (max 0 (limit - 1)) (strip value),
)

pub length-collapsed_text :
    (value : Text) (limit : ℕ) → 0 < limit → length (collapsed_text value limit) ≤ limit
unfolding collapsed_text
length-collapsed_text value limit h = length-safe_text (collapse value) limit h

-- What a bounded list of texts looks like.
pub record IsBoundedList (limit item_limit : ℕ) (texts : List Text) : Type 0 where
  pub few : length texts ≤ limit
  pub short : all (λ t. leb (length t) item_limit) texts ≡ true
  pub full : all (λ t. not (is_empty t)) texts ≡ true

keep_texts-IsBoundedList :
    (item_limit : ℕ) (items : List Text)
    → 0 < item_limit
    → IsBoundedList (length items) item_limit (keep_texts item_limit items)
unfolding keep_texts
keep_texts-IsBoundedList n [] h = ground arith
keep_texts-IsBoundedList n (item ∷ items) h =
    ground (arith, keep_texts-IsBoundedList n items h, length-collapsed_text item n h)

-- A stored list holds at most `limit` texts, none empty and none longer than `item_limit`.
safe_string_list-IsBoundedList :
    (value : List Text) (limit item_limit : ℕ)
    → 0 < item_limit
    → IsBoundedList limit item_limit (safe_string_list value limit item_limit)
unfolding safe_string_list
safe_string_list-IsBoundedList value limit n h =
    ground (arith, keep_texts-IsBoundedList n (take limit value) h, length-take limit value)
