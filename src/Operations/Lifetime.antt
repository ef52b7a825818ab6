-- ===== src/Operations/Lifetime.antt =====
-- The lifetime of a request and of a decision (app/core/operations.py): `_bounded_int`,
-- `request_ttl_seconds`, `request_expiry`, `request_expired` and `decision_expired`.
use agenelf.Base.{
  ℕ, ◌+◌, ◌*◌, ◌/◌, Bool, true, Option, none, some, Text, ℤ, pos, negsuc, max, min, ltb, lower,
  strip,
}
use agenelf.Operations.Requests.{
  Request, Decision, RawNumber, missing, integer, OperationRisk, read, privileged, forbidden,
  parse_operation_risk,
}

-- `max(minimum, min(parsed, maximum))`, for a minimum that is not negative.
unfoldable pub clamp_int : ℤ → ℕ → ℕ → ℕ
clamp_int (pos n) minimum maximum = max minimum (min n maximum)
clamp_int (negsuc n) minimum maximum = minimum

unfoldable pub bounded_int : RawNumber → ℕ → ℕ → ℕ → ℕ
unfolding clamp_int
bounded_int (integer n) default minimum maximum = clamp_int n minimum maximum
bounded_int _ default minimum maximum = clamp_int (pos default) minimum maximum

-- `_DEFAULT_TTL_SECONDS`, with the default for other risks.
unfoldable pub default_ttl : Option OperationRisk → ℕ
default_ttl (some read) = 120
default_ttl (some privileged) = 900
default_ttl _ = 1800

abbrev pub max_ttl_seconds : ℕ
max_ttl_seconds = 86400

-- The environment's variable for a risk; `missing` is a variable that is not set.
abbrev pub Environment : Type 0
Environment = OperationRisk → RawNumber

-- Only the risks of `_TTL_ENV` have a variable.
unfoldable pub ttl_variable : Environment → Option OperationRisk → RawNumber
ttl_variable env none = missing
ttl_variable env (some forbidden) = missing
ttl_variable env (some risk) = env risk

module _ (env : Environment) where
  unfoldable pub request_ttl_seconds : Text → RawNumber → ℕ
  unfolding bounded_int default_ttl ttl_variable parse_operation_risk
  request_ttl_seconds risk missing =
      let known = parse_operation_risk (lower (strip risk)) in
      bounded_int (ttl_variable env known) (default_ttl known) 15 max_ttl_seconds
  request_ttl_seconds risk explicit =
      bounded_int explicit (default_ttl (parse_operation_risk (lower (strip risk)))) 15
        max_ttl_seconds

  -- An explicit time, or one derived from the time of creation.
  unfoldable pub request_expiry : Request → Option ℕ
  unfolding request_ttl_seconds
  request_expiry request = elim request.expires_at [
    | some explicit ↦ some explicit
    | none ↦ elim request.created_at [
      | none ↦ none
      | some created ↦
          some (created + request_ttl_seconds request.risk request.ttl_seconds * 1000000)
    ]
  ]

  unfoldable pub request_expired : Request → ℕ → Bool → Bool
  unfolding request_expiry
  request_expired request now fail_closed = elim (request_expiry request) [
    | none ↦ fail_closed
    | some expiry ↦ ltb expiry now
  ]

unfoldable pub decision_expired : Decision → ℕ → Bool
decision_expired decision now = elim decision.expires_at [
  | none ↦ true
  | some expiry ↦ ltb expiry now
]

-- `now_iso`: a time is written in whole seconds.
unfoldable pub whole_seconds : ℕ → ℕ
whole_seconds t = t / 1000000 * 1000000
