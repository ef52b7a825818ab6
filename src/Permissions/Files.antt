-- ===== src/Permissions/Files.antt =====
-- The three directories of app/core/permissions.py, and the clock's test.
use agenelf.Base.{
  ℕ, Bool, true, ◌&&◌, ◌||◌, Option, none, some, Text, List, [], ◌∷◌, one_of, ltb, ◌==◌, is_alnum,
  all_chars, is_empty, not, if◌then◌else◌, pos, negsuc,
}
use agenelf.Operations.Requests.{RawNumber, integer}

-- The value of `binding`: missing, no object, or an object by its canonical encoding.
pub data RawBinding : Type 0 where
  absent no_object : RawBinding
  object : Text → RawBinding

-- A file of `auth-requests`.
pub record AuthRequest : Type 0 where
  pub id : Text
  pub skill : Text
  pub action : Text
  pub detail : Text
  pub reason : Text
  pub channel : Text
  pub binding : RawBinding
  pub fingerprint : Text
  pub created_at : Option ℕ
  pub expires_at : Option ℕ
  pub ttl_seconds : RawNumber
  pub required_approvers : RawNumber
  pub require_distinct_humans : Bool
  pub second_confirmation_required : Bool
  pub policy_version : Option Text
  pub approval_mode : Option Text

-- An item of `approvals`; `none` for one that is no object or names nobody.
abbrev pub Vote : Type 0
Vote = Option Text

-- A file of `auth-decisions`, as the agent reads it.
pub record AuthDecision : Type 0 where
  pub decision : Text
  pub approvals : List Vote
  pub fingerprint : Text
  pub expires_at : Option ℕ

-- `consumed` holds the names in `auth-consumed`.
pub record AuthFiles : Type 0 where
  pub requests : List (Text × Option AuthRequest)
  pub decisions : List (Text × Option AuthDecision)
  pub consumed : List Text

-- `_path` refuses what does not match `[A-Za-z0-9._-]+`.
abbrev pub is_name_char : ℕ → Bool
is_name_char c = is_alnum c || c == b'.' || c == b'_' || c == b'-'

unfoldable pub is_file_name : Text → Bool
is_file_name name = not (is_empty name) && all_chars is_name_char name

-- `_expired`: a time that cannot be read has passed.
unfoldable pub has_passed : Option ℕ → ℕ → Bool
has_passed none now = true
has_passed (some t) now = ltb t now

-- `int(required or 1)`, or 1 where that fails. A negative number counts as 0: both ask for one
-- approver only.
unfoldable pub required_of : RawNumber → ℕ
required_of (integer (pos n)) = if n == 0 then 1 else n
required_of (integer (negsuc n)) = 0
required_of _ = 1

-- The set of the texts of a list.
unfoldable pub distinct : List Vote → List Text
distinct [] = []
distinct (none ∷ votes) = distinct votes
distinct (some who ∷ votes) =
    let rest = distinct votes in if one_of rest who then rest else who ∷ rest
