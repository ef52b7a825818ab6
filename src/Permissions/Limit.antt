-- ===== src/Permissions/Limit.antt =====
-- What a proposal of app/core/permissions.py leads to: the people that a policy asks for.
use agenelf.Base.{
  ℕ, ◌≤◌, ◌≡◌, refl, sym, ◌∙◌, ap, subst, true, false, Option, some, Text, ◌∷◌, codes, pos, length,
  is_some, arith, ok, Bool-cases, inl, inr,
}
use agenelf.Operations.Requests.{Evaluation, integer, find, read_json}
use agenelf.Operations.Lookup.{read_json-head}
use agenelf.Permissions.Files.{AuthRequest, AuthDecision, AuthFiles, required_of, distinct}
use agenelf.Permissions.Check.{approved, binding_fingerprint, check_auth, lacks_votes}
use agenelf.Permissions.Propose.{
  Proposal, may_ask, write_request, needs_two, bound_text, build_auth_request, request_auth,
}
use agenelf.Permissions.Binding.{check_auth-Backs}

module _ (digest : Text → Text) (encode_detail : Text → Text → Text → Text)
    (policy : Text → Text → Option Evaluation) where
  needs_two-votes :
      (request : AuthRequest) (decision : AuthDecision)
      → request.required_approvers ≡ integer (pos 2)
      → lacks_votes digest request decision ≡ false
      → 2 ≤ length (distinct decision.approvals)
  unfolding lacks_votes required_of
  needs_two-votes request decision two enough = ground arith

  request_auth-new :
      (now : ℕ) (hex : Text) (p : Proposal) (files : AuthFiles) {id : Text} {files' : AuthFiles}
      → request_auth digest encode_detail policy now hex p files ≡ (ok id, files')
      → let built = build_auth_request digest encode_detail policy now hex p in
        (built.id ≡ id)
        × (record files { requests = (built.id, some built) ∷ files.requests } ≡ files')
  unfolding request_auth write_request
  request_auth-new now hex p files h =
      let built = build_auth_request digest encode_detail policy now hex p in
      elim (Bool-cases (may_ask files)) [
        | inr full ↦ ground arith
        | inl room ↦ elim (Bool-cases (is_some (find built.id files.requests))) [
          | inl taken ↦ ground arith
          | inr free ↦ ground arith
        ]
      ]

  request_auth-stored :
      (now : ℕ) (hex : Text) (p : Proposal) (files : AuthFiles) {id : Text} {files' : AuthFiles}
      → request_auth digest encode_detail policy now hex p files ≡ (ok id, files')
      → read_json id files'.requests
        ≡ some (build_auth_request digest encode_detail policy now hex p)
  request_auth-stored now hex p files {id = id} h =
      let built = build_auth_request digest encode_detail policy now hex p in
      let (same, after) = request_auth-new now hex p files h in
      subst (λ (f : AuthFiles). read_json id f.requests ≡ some built) after
        (subst (λ (x : Text). read_json x ((built.id, some built) ∷ files.requests) ≡ some built)
          same (read_json-head built.id (some built) files.requests))

  -- Where the policy asks for an elevated or an irreversible approval, a proposal, as long as its
  -- file is the one that was written, is approved only by a decision with the fingerprint of the
  -- proposal's own binding and with the votes of at least two different people.
  pub request_auth-two :
      (now later : ℕ) (hex : Text) (p : Proposal) (files : AuthFiles) (id : Text)
      (files' current : AuthFiles) (expected : Option Text)
      → request_auth digest encode_detail policy now hex p files ≡ (ok id, files')
      → needs_two (policy p.capability p.operation) ≡ true
      → read_json id current.requests ≡ read_json id files'.requests
      → check_auth digest current id expected later ≡ ok approved
      → (decision : AuthDecision) × (read_json id current.decisions ≡ some decision)
        × (decision.decision ≡ codes "approve")
        × (decision.fingerprint ≡ digest (bound_text encode_detail p))
        × (2 ≤ length (distinct decision.approvals))
  unfolding build_auth_request binding_fingerprint
  request_auth-two now later hex p files id files' current expected h two unchanged status =
      let built = build_auth_request digest encode_detail policy now hex p in
      let (request, decision, asked, unused, decided, backs) =
        check_auth-Backs digest current id expected later status in
      let same : request ≡ built =
        ground (arith, sym asked ∙ unchanged ∙ request_auth-stored now hex p files h) in
      let print : backs.print ≡ digest (bound_text encode_detail p) = ground (
        arith,
        sym backs.bound ∙ ap (λ (r : AuthRequest). binding_fingerprint digest r.binding) same,
      ) in
      (
        decision,
        decided,
        backs.says,
        backs.same ∙ print,
        needs_two-votes request decision
            (ap (λ (r : AuthRequest). r.required_approvers) same ∙ rw two refl) backs.votes,
      )
