-- ===== src/Operations/Tests.antt =====
-- A small queue as the program runs it, and the theorems at that queue.
use agenelf.Base.{
  ◌≡◌, ◌≤◌, refl, true, false, Option, none, some, Text, List, [], ◌∷◌, ◌++◌, codes, ok, pos,
}
use agenelf.Operations.Requests.{
  Request, Payload, Queue, Decision, Evaluation, OperationRisk, missing, integer, risk_name, find,
  read_json, canonical_payload, parse_operation_risk,
}
use agenelf.Operations.Lifetime.{
  Environment, request_ttl_seconds, request_expired, decision_expired, whole_seconds,
}
use agenelf.Operations.Queue.{
  operation_status, get_operation, find_reusable_operation, is_operation_id,
}
use agenelf.Operations.Submit.{
  Submission, object, submit_operation, submitted_risk, submitted_parameters, effective_risk,
  strictest_risk, raise_to, reuse_or_create, create_request, build_request, declared_of, evaluated,
  risk_order,
}
use agenelf.Operations.Safety.{Respects, operation_status-approved}
use agenelf.Operations.Resubmit.{submit_operation-risk, submit_operation-idempotent}

program : Unit {0}
unfolding find read_json canonical_payload parse_operation_risk risk_name request_ttl_seconds
    request_expired decision_expired whole_seconds operation_status get_operation
    find_reusable_operation is_operation_id submit_operation submitted_risk submitted_parameters
    effective_risk strictest_risk raise_to reuse_or_create create_request build_request declared_of
    evaluated risk_order
program = tt

abbrev no_variables : Environment
no_variables risk = missing

-- Stands in for the digest: texts end with different marks.
abbrev print : Payload → Text
print p = p.capability ++ (0 ∷ p.operation) ++ (0 ∷ p.target) ++ (0 ∷ p.parameters)

-- Host reads run by themselves, everything else is a change under approval.
abbrev policy : Text → Text → Option Evaluation
policy capability operation = some (record {
  refused = false;
  manual = true;
  risk = codes "change";
  approval = codes "owner";
  policy_version = codes "1";
})

abbrev hex : Text
hex = codes "0123456789abcdef"

abbrev submission : Submission
submission = record {
  capability = codes "host_ops";
  operation = codes "restart ";
  target = codes "web";
  parameters = object (codes "{}");
  risk = codes "Read";
  summary = codes "restart it";
  ttl_seconds = missing;
  deduplicate = true;
}

abbrev empty_queue : Queue
empty_queue = record { requests = []; results = []; decisions = [] }

abbrev request : Request
request = record {
  id = codes "op-0123456789abcdef";
  capability = codes "host_ops";
  operation = codes "restart";
  target = codes "web";
  parameters = some (codes "{}");
  risk = codes "change";
  summary = codes "restart it";
  fingerprint = print (record {
    capability = codes "host_ops";
    operation = codes "restart";
    target = codes "web";
    parameters = codes "{}";
  });
  created_at = some 7000000;
  expires_at = some 1807000000;
  ttl_seconds = integer (pos 1800);
  policy_version = some (codes "1");
  approval_mode = some (codes "owner");
  declared_risk = some (codes "read");
}

abbrev filled_queue : Queue
filled_queue = record { requests = (request.id, some request) ∷ []; results = []; decisions = [] }

abbrev approved_queue : Queue
approved_queue = record filled_queue {
  decisions =
      (request.id, some (record { decision = codes "approve"; expires_at = some 900000000 })) ∷ [];
}

submit_fresh :
    submit_operation no_variables print policy 7500000 hex submission empty_queue
    ≡ (ok (request, false), filled_queue)
unfolding program
submit_fresh = refl

-- A newer request of another risk stands before it.
abbrev newer : List (Text × Option Request)
newer = (request.id, some (record request { risk = codes "read" })) ∷ (codes "op-0", none) ∷ []

abbrev later_queue : Queue
later_queue = record filled_queue { requests = newer ++ filled_queue.requests }

submit_operation-idempotent_example :
    submit_operation no_variables print policy 600000000
      (codes "ffffffffffffffff")
      submission
      later_queue
    ≡ (ok (request, true), later_queue)
unfolding program
submit_operation-idempotent_example =
    submit_operation-idempotent no_variables print policy 7500000 600000000 hex
      (codes "ffffffffffffffff") submission empty_queue request filled_queue later_queue newer _ _ _
      refl submit_fresh refl refl refl refl refl refl refl refl

submit_operation-risk_example :
    (declared : OperationRisk) × (risk : OperationRisk) × (submitted_risk submission.risk
      ≡ ok declared)
    × (request.risk ≡ risk_name risk)
    × (risk_order declared ≤ risk_order risk)
    × Respects (policy submission.capability submission.operation) risk
submit_operation-risk_example =
    submit_operation-risk no_variables print policy 7500000 hex submission empty_queue request false
      filled_queue submit_fresh

operation_status-approved_example :
    (r : Request) × (d : Decision) × (read_json request.id approved_queue.requests ≡ some r)
    × (read_json request.id approved_queue.results ≡ none)
    × (request_expired no_variables r 600000000 true ≡ false)
    × (read_json request.id approved_queue.decisions ≡ some d)
    × (d.decision ≡ codes "approve")
    × (decision_expired d 600000000 ≡ false)
unfolding program
operation_status-approved_example =
    operation_status-approved no_variables approved_queue request.id 600000000 refl
