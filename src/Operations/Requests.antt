-- ===== src/Operations/Requests.antt =====
-- The files of the queue: requests, decisions, results and the policy's answer
-- (app/core/operations.py).
use agenelf.Base.{
  ℕ, Bool, Option, none, some, Text, List, [], ◌∷◌, codes, ℤ, strip, text_eq, if◌then◌else◌,
}

-- `VALID_RISKS`.
pub data OperationRisk : Type 0 where
  read change privileged forbidden : OperationRisk

-- What `int(value)` makes of a value that may be missing.
pub data RawNumber : Type 0 where
  missing not_integer : RawNumber
  integer : ℤ → RawNumber

-- What an approval covers. A JSON object is given by its canonical encoding.
pub record Payload : Type 0 where
  pub capability : Text
  pub operation : Text
  pub target : Text
  pub parameters : Text

-- A request file. `parameters` is `none` for a value that is no object; a time is `none` where
-- `_parse_time` fails. Times are in microseconds.
pub record Request : Type 0 where
  pub id : Text
  pub capability : Text
  pub operation : Text
  pub target : Text
  pub parameters : Option Text
  pub risk : Text
  pub summary : Text
  pub fingerprint : Text
  pub created_at : Option ℕ
  pub expires_at : Option ℕ
  pub ttl_seconds : RawNumber
  pub policy_version : Option Text
  pub approval_mode : Option Text
  pub declared_risk : Option Text

pub record Decision : Type 0 where
  pub decision : Text
  pub expires_at : Option ℕ

pub record Outcome : Type 0 where
  pub status : Text

-- The answer of the policy engine: `allowed is False`, `auto_execute is False`, and three texts.
pub record Evaluation : Type 0 where
  pub refused : Bool
  pub manual : Bool
  pub risk : Text
  pub approval : Text
  pub policy_version : Text

-- The directories, newest request first. `none` is a file that `read_json` cannot read; a request
-- or a decision that is an empty object counts as one too.
pub record Queue : Type 0 where
  pub requests : List (Text × Option Request)
  pub results : List (Text × Option Outcome)
  pub decisions : List (Text × Option Decision)

unfoldable pub find {ℓ} : {A : Type ℓ} → Text → List (Text × A) → Option A
find name [] = none
find name ((other, file) ∷ files) = if text_eq other name then some file else find name files

-- `read_json`: a missing file and one that cannot be read are the same.
unfoldable pub read_json : {A : Type 0} → Text → List (Text × Option A) → Option A
unfolding find
read_json name files = elim (find name files) [ none ↦ none | some file ↦ file ]

unfoldable pub risk_name : OperationRisk → Text
risk_name read = codes "read"
risk_name change = codes "change"
risk_name privileged = codes "privileged"
risk_name forbidden = codes "forbidden"

unfoldable pub parse_operation_risk : Text → Option OperationRisk
parse_operation_risk s =
    if text_eq s (codes "read")
    then some read
    else if text_eq s (codes "change")
    then some change
    else if text_eq s (codes "privileged")
    then some privileged
    else if text_eq s (codes "forbidden")
    then some forbidden
    else none

-- `canonical_payload`, for `parameters or {}`.
unfoldable pub canonical_payload : Text → Text → Text → Option Text → Payload
canonical_payload capability operation target parameters = record {
  capability = strip capability;
  operation = strip operation;
  target = strip target;
  parameters = elim parameters [ none ↦ codes "{}" | some p ↦ p ];
}
