-- ===== src/Operations/Submit.antt =====
-- `submit_operation` and `_strictest_risk` of app/core/operations.py. The policy engine, the clock
-- and the new identifier are arguments.
use agenelf.Base.{
  ℕ, ◌+◌, ◌*◌, Bool, true, false, ◌||◌, Option, none, some, Text, ◌∷◌, ◌++◌, codes, text_eq, ltb,
  pos, strip, lower, is_empty, is_some, Result, ok, err, Exec, lift, reject, ◌>>=◌, ◌>>◌,
  if◌then◌else◌,
}
use agenelf.Operations.Requests.{
  Request, Payload, Queue, RawNumber, integer, Evaluation, OperationRisk, read, change, privileged,
  forbidden, risk_name, parse_operation_risk, find, canonical_payload,
}
use agenelf.Operations.Lifetime.{Environment, request_ttl_seconds, whole_seconds}
use agenelf.Operations.Queue.{find_reusable_operation}

pub data SubmitError : Type 0 where
  unknown_risk risk_forbidden operation_or_target_empty parameters_not_object : SubmitError
  policy_refuses policy_risk_too_high file_exists : SubmitError

-- The caller's `parameters`: `None`, an object, or something else.
pub data RawParameters : Type 0 where
  omitted : RawParameters
  object : Text → RawParameters
  other : RawParameters

pub record Submission : Type 0 where
  pub capability : Text
  pub operation : Text
  pub target : Text
  pub parameters : RawParameters
  pub risk : Text
  pub summary : Text
  pub ttl_seconds : RawNumber
  pub deduplicate : Bool

-- `_POLICY_RISK_ORDER` of the risks that can be submitted.
unfoldable pub risk_order : OperationRisk → ℕ
risk_order read = 0
risk_order change = 1
risk_order privileged = 2
risk_order forbidden = 4

unfoldable pub raise_to : OperationRisk → Option OperationRisk → OperationRisk
unfolding risk_order
raise_to declared none = declared
raise_to declared (some policy) =
    if ltb (risk_order declared) (risk_order policy) then policy else declared

-- A read that the policy does not run by itself needs an approval, as a change does.
unfoldable pub unless_manual : Bool → OperationRisk → OperationRisk
unless_manual true read = change
unless_manual manual risk = risk

unfoldable pub strictest_risk : OperationRisk → Evaluation → Result SubmitError OperationRisk
unfolding raise_to unless_manual parse_operation_risk
strictest_risk declared e =
    let policy_risk = strip (lower e.risk) in
    if text_eq policy_risk (codes "irreversible") || text_eq policy_risk (codes "forbidden")
    then err policy_risk_too_high
    else ok (unless_manual e.manual (raise_to declared (parse_operation_risk policy_risk)))

-- The risk after the policy has been asked.
unfoldable pub effective_risk : OperationRisk → Option Evaluation → Result SubmitError OperationRisk
unfolding strictest_risk
effective_risk declared none = ok declared
effective_risk declared (some e) =
    if e.refused || text_eq e.approval (codes "impossible")
    then err policy_refuses
    else strictest_risk declared e

unfoldable pub submitted_risk : Text → Result SubmitError OperationRisk
unfolding parse_operation_risk
submitted_risk risk = elim (parse_operation_risk (strip (lower risk))) [
  | none ↦ err unknown_risk
  | some forbidden ↦ err risk_forbidden
  | some r ↦ ok r
]

unfoldable pub submitted_parameters : RawParameters → Result SubmitError (Option Text)
submitted_parameters omitted = ok none
submitted_parameters (object p) = ok (some p)
submitted_parameters other = err parameters_not_object

unfoldable pub declared_of : Option Evaluation → OperationRisk → OperationRisk → Option Text
unfolding risk_name
declared_of none declared risk = none
declared_of (some e) declared risk =
    if text_eq (risk_name risk) (risk_name declared) then none else some (risk_name declared)

unfoldable pub evaluated : (Evaluation → Text) → Option Evaluation → Option Text
evaluated field none = none
evaluated field (some e) = some (field e)

module _ (env : Environment) (digest : Payload → Text)
    (policy : Text → Text → Option Evaluation) where
  unfoldable pub build_request :
      ℕ → Text → Submission → Payload → OperationRisk → OperationRisk → Request
  unfolding whole_seconds declared_of evaluated risk_name request_ttl_seconds
  build_request now hex sub payload declared risk =
      let evaluation = policy sub.capability sub.operation in
      let ttl = request_ttl_seconds env (risk_name risk) sub.ttl_seconds in
      record {
        id = codes "op-" ++ hex;
        capability = payload.capability;
        operation = payload.operation;
        target = payload.target;
        parameters = some payload.parameters;
        risk = risk_name risk;
        summary = strip sub.summary;
        fingerprint = digest payload;
        created_at = some (whole_seconds now);
        expires_at = some (whole_seconds (now + ttl * 1000000));
        ttl_seconds = integer (pos ttl);
        policy_version = evaluated (λ e. e.policy_version) evaluation;
        approval_mode = evaluated (λ e. e.approval) evaluation;
        declared_risk = declared_of evaluation declared risk;
      }

  -- The request comes back with a mark that says whether it was reused.
  unfoldable pub create_request :
      ℕ
      → Text
      → Submission
      → Payload
      → OperationRisk
      → OperationRisk
      → Exec Queue SubmitError (Request × Bool)
  unfolding build_request find
  create_request now hex sub payload declared risk q =
      let request = build_request now hex sub payload declared risk in
      if is_some (find request.id q.requests)
      then (err file_exists, q)
      else (ok (request, false), record q { requests = (request.id, some request) ∷ q.requests })

  unfoldable pub reuse_or_create :
      ℕ
      → Text
      → Submission
      → Payload
      → OperationRisk
      → OperationRisk
      → Exec Queue SubmitError (Request × Bool)
  unfolding create_request
  reuse_or_create now hex sub payload declared risk q =
      if sub.deduplicate
      then (elim (find_reusable_operation env digest q payload (risk_name risk) now) [
        | some reusable ↦ (ok (reusable, true), q)
        | none ↦ create_request now hex sub payload declared risk q
      ])
      else create_request now hex sub payload declared risk q

  unfoldable pub submit_operation : ℕ → Text → Submission → Exec Queue SubmitError (Request × Bool)
  submit_operation now hex sub = do
    declared ← lift (submitted_risk sub.risk)
    reject (is_empty (strip sub.operation) || is_empty (strip sub.target)) operation_or_target_empty
    parameters ← lift (submitted_parameters sub.parameters)
    risk ← lift (effective_risk declared (policy sub.capability sub.operation))
    let payload = canonical_payload sub.capability sub.operation sub.target parameters
    reuse_or_create now hex sub payload declared risk
