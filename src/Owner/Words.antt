-- ===== src/Owner/Words.antt =====
-- `parse_owner_decision` of app/core/owner_approval.py: what the owner types, as an action on a
-- request. A text has no letter whose lower case is longer than itself, and no long s.
use agenelf.Base.{
  ℕ, ◌+◌, ◌&&◌, ◌||◌, Option, none, some, Text, List, [], ◌∷◌, ◌++◌, codes, text_eq, one_of, strip,
  lstrip, lower, is_empty, starts_with, length, drop, take, if◌then◌else◌,
}
use agenelf.Owner.Files.{is_request_id, sanitize_text}
use agenelf.Owner.Decide.{Action, approve, deny}

pub record OwnerWords : Type 0 where
  pub action : Action
  pub request_id : Text
  pub reason : Text

-- `rstrip("。！! ")`.
unfoldable pub drop_final : Text → Text
drop_final [] = []
drop_final (c ∷ s) =
    let rest = drop_final s in
    if one_of (codes "。" ∷ codes "！" ∷ codes "!" ∷ codes " " ∷ []) (c ∷ []) && is_empty rest
    then []
    else c ∷ rest

abbrev pub approve_words : List Text
approve_words = codes "审批通过" ∷ codes "批准通过" ∷ codes "批准" ∷ codes "同意执行" ∷ codes "确认执行" ∷ []

abbrev pub deny_words : List Text
deny_words = codes "审批拒绝" ∷ codes "拒绝执行" ∷ codes "不批准" ∷ codes "驳回" ∷ codes "拒绝" ∷ []

-- The first word that the text is, or that a space follows.
unfoldable pub first_word : List Text → Text → Option Text
first_word [] s = none
first_word (word ∷ words) s =
    let rest = first_word words s in
    if text_eq s word || starts_with (word ++ codes " ") s then some word else rest

-- A command of the terminal has no space after it.
unfoldable pub spoken : Text → Option (Action × Text)
unfolding first_word
spoken s =
    if starts_with (codes "/approve") (lower s)
    then some (approve, strip (drop 8 s))
    else if starts_with (codes "/deny") (lower s)
    then some (deny, strip (drop 5 s))
    else elim (first_word approve_words s) [
      | some word ↦ some (approve, strip (drop (length word) s))
      | none ↦ elim (first_word deny_words s) [
        | none ↦ none
        | some word ↦ some (deny, strip (drop (length word) s))
      ]
    ]

-- `re.sub` of the first of these beginnings, with the space after it; `re.I` where case is left out.
unfoldable pub without_lead : (Text → Text) → List Text → Text → Text
without_lead fold [] s = s
without_lead fold (lead ∷ leads) s =
    let rest = without_lead fold leads s in
    if starts_with lead (fold s) then lstrip (drop (length lead) s) else rest

-- An optional colon, with the space after it.
unfoldable pub without_colon : Text → Text
without_colon [] = []
without_colon (c ∷ s) =
    if text_eq (c ∷ []) (codes ":") || text_eq (c ∷ []) (codes "：") then lstrip s else c ∷ s

unfoldable pub without_reason : List Text → Text → Text
unfolding without_colon
without_reason [] s = s
without_reason (lead ∷ leads) s =
    let rest = without_reason leads s in
    if starts_with lead s then without_colon (lstrip (drop (length lead) s)) else rest

-- `_REQUEST_ID_RE.match` at this place: the length of the identifier.
unfoldable pub id_here : Text → Option ℕ
unfolding is_request_id
id_here s =
    if is_request_id (take 19 s) && starts_with (codes "op-") s
    then some 19
    else if is_request_id (take 17 s) && starts_with (codes "auth-") s
    then some 17
    else none

-- `_REQUEST_ID_RE.search`: what stands before the first identifier, and its length.
unfoldable pub find_id : Text → Option (ℕ × ℕ)
unfolding id_here
find_id [] = none
find_id (c ∷ s) =
    let rest = find_id s in
    elim (id_here (c ∷ s)) [
      | some n ↦ some (0, n)
      | none ↦ elim rest [ none ↦ none | some (i, n) ↦ some (i + 1, n) ]
    ]

unfoldable pub read_words : Action → Text → OwnerWords
unfolding without_lead find_id without_reason sanitize_text
read_words action s =
    let remainder =
      without_lead (λ x. x) (codes "请求" ∷ codes "该请求" ∷ codes "这个请求" ∷ codes "刚才的请求" ∷ []) s in
    let (id, kept) : Text × Text = elim (find_id (lower remainder)) [
      | none ↦ ([], remainder)
      | some (i, n) ↦ (
        take n (drop i (lower remainder)),
        strip (take i remainder ++ codes " " ++ drop (i + n) remainder),
      )
    ] in
    let short =
      without_lead lower
        (codes "latest"
          ∷ codes "newest"
          ∷ codes "最新"
          ∷ codes "刚才"
          ∷ codes "该请求"
          ∷ codes "这个请求"
          ∷ [])
        kept in
    record {
      action = action;
      request_id = id;
      reason =
          sanitize_text (without_reason (codes "原因" ∷ codes "因为" ∷ codes "备注" ∷ []) short) 1000;
    }

unfoldable pub parse_owner_decision : Text → Option OwnerWords
unfolding drop_final spoken read_words
parse_owner_decision text =
    let value = strip text in
    if is_empty value then none else elim (spoken (drop_final value)) [
      | none ↦ none
      | some (action, remainder) ↦ some (read_words action remainder)
    ]
