-- ===== src/Operations/Resubmit.antt =====
-- Submissions of app/core/operations.py as their callers see them: the risk of what is queued, and
-- the reuse of a request that was submitted before.
use agenelf.Base.{
  ℕ, ◌≤◌, ◌≡◌, refl, sym, ap, ◌∙◌, subst, Bool, true, false, ◌||◌, Option, none, some, Text, List,
  [], ◌∷◌, ◌++◌, arith, text_eq_refl, is_some, strip, strip_idem, Option-cases, Bool-cases,
  Result-cases, inl, inr, ok, is_empty,
}
use agenelf.Operations.Requests.{
  Request, Payload, Queue, Evaluation, OperationRisk, risk_name, find, read_json, canonical_payload,
}
use agenelf.Operations.Lifetime.{Environment, request_expired}
use agenelf.Operations.Queue.{
  decision_allows, is_reusable, first_reusable, find_reusable_operation, request_payload_matches,
}
use agenelf.Operations.Submit.{
  Submission, submit_operation, reuse_or_create, create_request, build_request, effective_risk,
  submitted_risk, submitted_parameters, risk_order,
}
use agenelf.Operations.Safety.{Respects, effective_risk_grows, find_reusable_operation-IsLive}

module _ (env : Environment) (digest : Payload → Text)
    (policy : Text → Text → Option Evaluation) where
  -- What a successful submission went through.
  pub record Submitted (now : ℕ) (hex : Text) (sub : Submission) (q : Queue) (request : Request)
      (reused : Bool) (q' : Queue) : Type 0 where
    pub declared : OperationRisk
    pub risk : OperationRisk
    pub parameters : Option Text
    pub named : submitted_risk sub.risk ≡ ok declared
    pub filled : (is_empty (strip sub.operation) || is_empty (strip sub.target)) ≡ false
    pub formed : submitted_parameters sub.parameters ≡ ok parameters
    pub judged : effective_risk declared (policy sub.capability sub.operation) ≡ ok risk
    pub stored :
        reuse_or_create env digest policy now hex sub
          (canonical_payload sub.capability sub.operation sub.target parameters)
          declared
          risk
          q
        ≡ (ok (request, reused), q')

  pub submit-ok :
      (now : ℕ) (hex : Text) (sub : Submission) (q : Queue) {request : Request} {reused : Bool}
      {q' : Queue}
      → submit_operation env digest policy now hex sub q ≡ (ok (request, reused), q')
      → Submitted now hex sub q request reused q'
  unfolding submit_operation
  submit-ok now hex sub q h = elim (Result-cases (submitted_risk sub.risk)) [
    | inr (e, unknown) ↦ ground arith
    | inl (declared, named) ↦ elim (Result-cases (submitted_parameters sub.parameters)) [
      | inr (e, malformed) ↦ ground arith
      | inl (parameters, formed) ↦
          elim (Result-cases (effective_risk declared (policy sub.capability sub.operation))) [
            | inr (e, refused) ↦ ground arith
            | inl (risk, judged) ↦ record {
              declared = declared;
              risk = risk;
              parameters = parameters;
              named = named;
              filled = ground arith;
              formed = formed;
              judged = judged;
              stored = ground arith;
            }
          ]
    ]
  ]

  reuse_or_create-risk :
      (now : ℕ) (hex : Text) (sub : Submission) (payload : Payload) (declared risk : OperationRisk)
      (q : Queue) {request : Request} {reused : Bool} {q' : Queue}
      → reuse_or_create env digest policy now hex sub payload declared risk q
        ≡ (ok (request, reused), q')
      → request.risk ≡ risk_name risk
  unfolding reuse_or_create create_request build_request
  reuse_or_create-risk now hex sub payload declared risk q {request = request} h =
      elim (Option-cases (find_reusable_operation env digest q payload (risk_name risk) now)) [
        | inl nothing ↦ ground arith
        | inr (found, e) ↦
            let (live, print, level) =
              find_reusable_operation-IsLive env digest q payload (risk_name risk) now found e in
            ground (arith, level)
      ]

  -- The risk of a request that is queued or reused is never below the risk that the caller
  -- declared, nor below the policy's, and the policy has not refused it.
  pub submit_operation-risk :
      (now : ℕ) (hex : Text) (sub : Submission) (q : Queue) (request : Request) (reused : Bool)
      (q' : Queue)
      → submit_operation env digest policy now hex sub q ≡ (ok (request, reused), q')
      → (declared : OperationRisk) × (risk : OperationRisk) × (submitted_risk sub.risk
          ≡ ok declared)
        × (request.risk ≡ risk_name risk)
        × (risk_order declared ≤ risk_order risk)
        × Respects (policy sub.capability sub.operation) risk
  submit_operation-risk now hex sub q request reused q' h =
      let s = submit-ok now hex sub q h in
      let (grows, respects) =
        effective_risk_grows s.declared (policy sub.capability sub.operation) s.judged in
      (
        s.declared,
        s.risk,
        s.named,
        reuse_or_create-risk now hex sub _ s.declared s.risk q s.stored,
        grows,
        respects,
      )

  canonical_payload_idem :
      (capability operation target : Text) (parameters : Option Text)
      → let p = canonical_payload capability operation target parameters in
        canonical_payload p.capability p.operation p.target (some p.parameters) ≡ p
  unfolding canonical_payload
  canonical_payload_idem capability operation target parameters =
      rw (strip_idem capability) (rw (strip_idem operation) (rw (strip_idem target) refl))

  build_request-matches :
      (now : ℕ) (hex : Text) (sub : Submission) (parameters : Option Text)
      (declared risk : OperationRisk)
      → let payload = canonical_payload sub.capability sub.operation sub.target parameters in
        request_payload_matches env digest
          (build_request env digest policy now hex sub payload declared risk)
          (digest payload)
        ≡ true
  unfolding build_request request_payload_matches
  build_request-matches now hex sub parameters declared risk =
      let payload = canonical_payload sub.capability sub.operation sub.target parameters in
      rw (canonical_payload_idem sub.capability sub.operation sub.target parameters)
        (rw (text_eq_refl (digest payload)) refl)

  -- The request as the first submission queued it is the first candidate of the second.
  built-reusable :
      (now later : ℕ) (hex : Text) (sub : Submission) (parameters : Option Text)
      (declared risk : OperationRisk) (q : Queue)
      → let payload = canonical_payload sub.capability sub.operation sub.target parameters in
        let request = build_request env digest policy now hex sub payload declared risk in
        find request.id q.results ≡ none
        → read_json request.id q.decisions ≡ none
        → request_expired env request later true ≡ false
        → is_reusable env digest q (digest payload) (risk_name risk) later request.id request ≡ true
  unfolding is_reusable build_request read_json decision_allows
  built-reusable now later hex sub parameters declared risk q unanswered undecided live =
      rw (text_eq_refl hex) (
        rw (text_eq_refl (risk_name risk)) (
          rw (build_request-matches now hex sub parameters declared risk)
            (rw unanswered (rw live (rw undecided refl)))))

  first_reusable-head :
      (q : Queue) (fingerprint risk : Text) (now : ℕ) (name : Text) (request : Request)
      (files : List (Text × Option Request))
      → is_reusable env digest q fingerprint risk now name request ≡ true
      → first_reusable env digest q fingerprint risk now ((name, some request) ∷ files)
        ≡ some request
  unfolding first_reusable
  first_reusable-head q fingerprint risk now name request files good = rw good refl

  create_request-new :
      (now : ℕ) (hex : Text) (sub : Submission) (payload : Payload) (declared risk : OperationRisk)
      (q : Queue) {request : Request} {q' : Queue}
      → create_request env digest policy now hex sub payload declared risk q
        ≡ (ok (request, false), q')
      → let built = build_request env digest policy now hex sub payload declared risk in
        (built ≡ request) × (record q { requests = (built.id, some built) ∷ q.requests } ≡ q')
  unfolding create_request
  create_request-new now hex sub payload declared risk q h =
      elim (Bool-cases (
        is_some (
          find (build_request env digest policy now hex sub payload declared risk).id
            q.requests))) [ inl there ↦ ground arith | inr fresh ↦ ground arith ]

  reuse_or_create-new :
      (now : ℕ) (hex : Text) (sub : Submission) (payload : Payload) (declared risk : OperationRisk)
      (q : Queue) {request : Request} {q' : Queue}
      → reuse_or_create env digest policy now hex sub payload declared risk q
        ≡ (ok (request, false), q')
      → create_request env digest policy now hex sub payload declared risk q
        ≡ (ok (request, false), q')
  unfolding reuse_or_create
  reuse_or_create-new now hex sub payload declared risk q h =
      elim (Option-cases (find_reusable_operation env digest q payload (risk_name risk) now)) [
        | inl nothing ↦ ground arith
        | inr (found, e) ↦ ground arith
      ]

  reuse_or_create-again :
      (now : ℕ) (hex : Text) (sub : Submission) (payload : Payload) (declared risk : OperationRisk)
      (q : Queue) (request : Request)
      → sub.deduplicate ≡ true
      → find_reusable_operation env digest q payload (risk_name risk) now ≡ some request
      → reuse_or_create env digest policy now hex sub payload declared risk q
        ≡ (ok (request, true), q)
  unfolding reuse_or_create
  reuse_or_create-again now hex sub payload declared risk q request dedup found = ground arith

  submit_operation-stored :
      (now later : ℕ) (hex hex' : Text) (sub : Submission) (q : Queue) {request : Request}
      {reused : Bool} {q' : Queue}
      → (s : Submitted now hex sub q request reused q') → (p : Queue)
      → submit_operation env digest policy later hex' sub p
        ≡ reuse_or_create env digest policy later hex' sub
            (canonical_payload sub.capability sub.operation sub.target s.parameters)
            s.declared
            s.risk
            p
  unfolding submit_operation
  submit_operation-stored now later hex hex' sub q s p =
      rw s.named (rw s.filled (rw s.formed (rw s.judged refl)))

  -- No file of these can be reused: none is live, with this payload and this risk.
  abbrev pub NoneReusable : Queue → Text → Text → ℕ → List (Text × Option Request) → Type 0
  NoneReusable q fingerprint risk now files =
      first_reusable env digest q fingerprint risk now files ≡ none

  first_reusable-after :
      (q : Queue) (fingerprint risk : Text) (now : ℕ) (others files : List (Text × Option Request))
      → NoneReusable q fingerprint risk now others
      → first_reusable env digest q fingerprint risk now (others ++ files)
        ≡ first_reusable env digest q fingerprint risk now files
  unfolding first_reusable
  first_reusable-after q fingerprint risk now [] files h = refl
  first_reusable-after q fingerprint risk now ((name, none) ∷ others) files h =
      first_reusable-after q fingerprint risk now others files (ground (arith, h))
  first_reusable-after q fingerprint risk now ((name, some r) ∷ others) files h =
      elim (Bool-cases (is_reusable env digest q fingerprint risk now name r)) [
        | inl good ↦ ground (arith, h, good)
        | inr bad ↦
            rw bad
              (first_reusable-after q fingerprint risk now others files (ground (arith, h, bad)))
      ]

  -- A queue answers with this request: newer files that cannot be reused stand before it.
  built-found :
      (now later : ℕ) (hex : Text) (sub : Submission) (parameters : Option Text)
      (declared risk : OperationRisk) (q p : Queue) (others : List (Text × Option Request))
      → let payload = canonical_payload sub.capability sub.operation sub.target parameters in
        let built = build_request env digest policy now hex sub payload declared risk in
        p.requests ≡ others ++ ((built.id, some built) ∷ q.requests)
        → NoneReusable p (digest payload) (risk_name risk) later others
        → find built.id p.results ≡ none
        → read_json built.id p.decisions ≡ none
        → request_expired env built later true ≡ false
        → find_reusable_operation env digest p payload (risk_name risk) later ≡ some built
  unfolding find_reusable_operation
  built-found now later hex sub parameters declared risk q p others grown older unanswered undecided
        live =
      let payload = canonical_payload sub.capability sub.operation sub.target parameters in
      let built = build_request env digest policy now hex sub payload declared risk in
      ap (first_reusable env digest p (digest payload) (risk_name risk) later) grown
      ∙ first_reusable-after p (digest payload) (risk_name risk) later others
          ((built.id, some built) ∷ q.requests) older
      ∙ first_reusable-head p (digest payload) (risk_name risk) later built.id built q.requests
          (built-reusable now later hex sub parameters declared risk p unanswered undecided live)

  -- Between a submission and the end of its request's life, as long as it has no result and no
  -- decision, the same submission under the same policy is answered with the same request, and
  -- nothing is added: in any later queue, whose results and decisions may be others, in which the files of the requests are
  -- those that the first submission left, with newer ones before them, of which none could be
  -- reused for this payload and risk.
  pub submit_operation-idempotent :
      (now later : ℕ) (hex hex' : Text) (sub : Submission) (q : Queue) (request : Request)
      (q' p : Queue) (others : List (Text × Option Request)) (parameters : Option Text)
      (declared risk : OperationRisk)
      → sub.deduplicate ≡ true
      → submit_operation env digest policy now hex sub q ≡ (ok (request, false), q')
      → submitted_parameters sub.parameters ≡ ok parameters
      → submitted_risk sub.risk ≡ ok declared
      → effective_risk declared (policy sub.capability sub.operation) ≡ ok risk
      → p.requests ≡ others ++ q'.requests
      → NoneReusable p
          (digest (canonical_payload sub.capability sub.operation sub.target parameters))
          (risk_name risk)
          later
          others
      → find request.id p.results ≡ none
      → read_json request.id p.decisions ≡ none
      → request_expired env request later true ≡ false
      → submit_operation env digest policy later hex' sub p ≡ (ok (request, true), p)
  submit_operation-idempotent now later hex hex' sub q request q' p others parameters declared risk
        dedup h formed named judged grown older unanswered undecided live =
      let s = submit-ok now hex sub q h in
      let payload = canonical_payload sub.capability sub.operation sub.target s.parameters in
      let (same, after) =
        create_request-new now hex sub payload s.declared s.risk q
          (reuse_or_create-new now hex sub payload s.declared s.risk q s.stored) in
      let built = build_request env digest policy now hex sub payload s.declared s.risk in
      let same_parameters : parameters ≡ s.parameters = ground (arith, formed, s.formed) in
      let same_declared : declared ≡ s.declared = ground (arith, named, s.named) in
      let same_risk : risk ≡ s.risk = ground (
        arith,
        sym judged
            ∙ ap (λ d. effective_risk d (policy sub.capability sub.operation)) same_declared
            ∙ s.judged,
      ) in
      let reused =
        built-found now later hex sub s.parameters s.declared s.risk q p others
          (grown ∙ ap (λ (x : Queue). others ++ x.requests) (sym after))
          (subst (λ (x : OperationRisk). NoneReusable p (digest payload) (risk_name x) later others)
            same_risk
            (subst
              (λ (x : Option Text).
                NoneReusable p
                  (digest (canonical_payload sub.capability sub.operation sub.target x))
                  (risk_name risk) later others)
              same_parameters older))
          (ap (λ (r : Request). find r.id p.results) same ∙ unanswered)
          (ap (λ (r : Request). read_json r.id p.decisions) same ∙ undecided)
          (ap (λ (r : Request). request_expired env r later true) same ∙ live) in
      submit_operation-stored now later hex hex' sub q s p
      ∙ reuse_or_create-again later hex' sub payload s.declared s.risk p request dedup
          (reused ∙ ap some same)
