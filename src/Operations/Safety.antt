-- ===== src/Operations/Safety.antt =====
-- The risk of a submission, the reuse of a request, and the status "approved"
-- (app/core/operations.py).
use agenelf.Base.{
  ℕ, ◌≤◌, ◌≡◌, ◌≢◌, refl, sym, ◌∙◌, ap, subst, Bool, true, false, ◌&&◌, Option, none, some, Text,
  List, [], ◌∷◌, codes, arith, text_eq, text_eq_iff, is_some, strip, lower, Option-cases,
  Bool-cases, inl, inr, ok,
}
use agenelf.Operations.Requests.{
  Request, Payload, Queue, Decision, Evaluation, OperationRisk, read, parse_operation_risk, find,
  read_json,
}
use agenelf.Operations.Lifetime.{Environment, request_expired, decision_expired}
use agenelf.Operations.Queue.{
  approved, denied, approval_expired, operation_status, decided_status, decision_allows,
  is_reusable, first_reusable, find_reusable_operation, request_payload_matches,
}
use agenelf.Operations.Submit.{strictest_risk, effective_risk, risk_order, raise_to, unless_manual}

abbrev is_read : OperationRisk → Bool
is_read read = true
is_read _ = false

abbrev pub order_of : Option OperationRisk → ℕ
order_of none = 0
order_of (some r) = risk_order r

-- What the policy's answer demands of the risk of an accepted request: the policy does not refuse
-- it, a read that must not run by itself is no read, and the policy's own risk is not higher.
abbrev pub Respects : Option Evaluation → OperationRisk → Type 0
Respects none r = Unit
Respects (some e) r =
    (e.refused ≡ false)
    × (text_eq e.approval (codes "impossible") ≡ false)
    × ((e.manual && is_read r) ≡ false)
    × (order_of (parse_operation_risk (strip (lower e.risk))) ≤ risk_order r)

unless_manual_grows :
    (manual : Bool) (r : OperationRisk)
    → (risk_order r ≤ risk_order (unless_manual manual r))
      × ((manual && is_read (unless_manual manual r)) ≡ false)
unfolding unless_manual risk_order
unless_manual_grows true read = (omega arith, refl)
unless_manual_grows true _ = (omega arith, refl)
unless_manual_grows false r = (omega arith, refl)

raise_to_grows :
    (declared : OperationRisk) (policy : Option OperationRisk)
    → (risk_order declared ≤ risk_order (raise_to declared policy))
      × (order_of policy ≤ risk_order (raise_to declared policy))
unfolding raise_to
raise_to_grows declared none = (omega arith, omega arith)
raise_to_grows declared (some q) = ground arith

-- The policy can only raise the risk that the caller declared.
pub effective_risk_grows :
    (declared : OperationRisk) (evaluation : Option Evaluation) {r : OperationRisk}
    → effective_risk declared evaluation ≡ ok r
    → (risk_order declared ≤ risk_order r) × Respects evaluation r
unfolding effective_risk strictest_risk
effective_risk_grows declared none h = (ground arith, tt)
effective_risk_grows declared (some e) {r = r} h =
    let policy = parse_operation_risk (strip (lower e.risk)) in
    let raised = raise_to declared policy in
    let (grows, demands) = raise_to_grows declared policy in
    let (more, manual) = unless_manual_grows e.manual raised in
    let is_r : unless_manual e.manual raised ≡ r = ground arith in
    (
      omega (arith, ap risk_order is_r),
      (
        ground arith,
        ground arith,
        ap (λ x. e.manual && is_read x) (sym is_r) ∙ manual,
        omega (arith, ap risk_order is_r),
      ),
    )

-- What makes a request live at a time: it was not answered, has not expired, and no decision
-- stands against it.
pub record IsLive (env : Environment) (q : Queue) (now : ℕ) (request : Request) : Type 0 where
  pub unanswered : find request.id q.results ≡ none
  pub unexpired : request_expired env request now true ≡ false
  pub undenied : decided_status (read_json request.id q.decisions) request.risk now ≢ denied
  pub current :
      decided_status (read_json request.id q.decisions) request.risk now ≢ approval_expired

is_some-none : {A : Type 0} (o : Option A) → is_some o ≡ false → o ≡ none
is_some-none none h = refl
is_some-none (some a) h = cc

allows_status :
    (o : Option Decision) (risk : Text) (now : ℕ)
    → decision_allows o now ≡ true
    → (decided_status o risk now ≢ denied) × (decided_status o risk now ≢ approval_expired)
unfolding decision_allows decided_status
allows_status none risk now h = (λ e. ground arith, λ e. ground arith)
allows_status (some d) risk now h = (λ e. ground arith, λ e. ground arith)

module _ (env : Environment) (digest : Payload → Text) where
  is_reusable-IsLive :
      (q : Queue) (fingerprint risk : Text) (now : ℕ) (name : Text) (request : Request)
      → is_reusable env digest q fingerprint risk now name request ≡ true
      → IsLive env q now request
        × (request.fingerprint ≡ fingerprint)
        × (request.risk ≡ risk)
        × (request.id ≡ name)
  unfolding is_reusable request_payload_matches
  is_reusable-IsLive q fingerprint risk now name request h =
      let answered : is_some (find request.id q.results) ≡ false = ground arith in
      let allowed : decision_allows (read_json request.id q.decisions) now ≡ true = ground arith in
      let (a, b) = allows_status (read_json request.id q.decisions) request.risk now allowed in
      (
        record {
          unanswered = is_some-none _ answered;
          unexpired = ground arith;
          undenied = a;
          current = b;
        },
        ground (arith, text_eq_iff fingerprint request.fingerprint),
        ground (arith, text_eq_iff request.risk risk),
        ground (arith, text_eq_iff request.id name),
      )

  first_reusable-IsLive :
      (q : Queue) (fingerprint risk : Text) (now : ℕ) (files : List (Text × Option Request))
      {request : Request}
      → first_reusable env digest q fingerprint risk now files ≡ some request
      → IsLive env q now request × (request.fingerprint ≡ fingerprint) × (request.risk ≡ risk)
  unfolding first_reusable
  first_reusable-IsLive q fingerprint risk now [] h = ground arith
  first_reusable-IsLive q fingerprint risk now ((name, none) ∷ files) h =
      first_reusable-IsLive q fingerprint risk now files h
  first_reusable-IsLive q fingerprint risk now ((name, some candidate) ∷ files) {request = request}
        h =
      elim (Bool-cases (is_reusable env digest q fingerprint risk now name candidate)) [
        | inl good ↦
            let same : candidate ≡ request = ground arith in
            let (live, print, level, named) =
              is_reusable-IsLive q fingerprint risk now name candidate good in
            subst (λ r. IsLive env q now r × (r.fingerprint ≡ fingerprint) × (r.risk ≡ risk)) same
              (live, print, level)
        | inr bad ↦ first_reusable-IsLive q fingerprint risk now files (ground arith)
      ]

  -- A request that is offered for reuse is live, has the fingerprint of the payload that was asked
  -- for, and has exactly the risk that was asked for.
  pub find_reusable_operation-IsLive :
      (q : Queue) (payload : Payload) (risk : Text) (now : ℕ) (request : Request)
      → find_reusable_operation env digest q payload risk now ≡ some request
      → IsLive env q now request × (request.fingerprint ≡ digest payload) × (request.risk ≡ risk)
  unfolding find_reusable_operation
  find_reusable_operation-IsLive q payload risk now request h =
      first_reusable-IsLive q (digest payload) risk now q.requests h

-- An operation counts as approved only while its request can be read, has no result and has not
-- expired, and while its decision can be read, says "approve" and has not expired.
pub operation_status-approved :
    (env : Environment) (q : Queue) (id : Text) (now : ℕ)
    → operation_status env q id now ≡ approved
    → (request : Request) × (decision : Decision) × (read_json id q.requests ≡ some request)
      × (read_json id q.results ≡ none)
      × (request_expired env request now true ≡ false)
      × (read_json id q.decisions ≡ some decision)
      × (decision.decision ≡ codes "approve")
      × (decision_expired decision now ≡ false)
unfolding operation_status decided_status
operation_status-approved env q id now h = elim (Option-cases (read_json id q.requests)) [
  | inl missing ↦ ground arith
  | inr (request, asked) ↦ elim (Option-cases (read_json id q.results)) [
    | inr (outcome, done) ↦ ground arith
    | inl unanswered ↦ elim (Option-cases (read_json id q.decisions)) [
      | inl undecided ↦ ground arith
      | inr (decision, decided) ↦ (
        request,
        decision,
        asked,
        unanswered,
        ground arith,
        decided,
        ground (arith, text_eq_iff decision.decision (codes "approve")),
        ground arith,
      )
    ]
  ]
]
