-- ===== src/Permissions/Binding.antt =====
-- What stands behind the status "approved" of app/core/permissions.py.
use agenelf.Base.{
  ℕ, ◌≡◌, ◌↔◌, refl, sym, ◌∙◌, ap, true, false, Option, some, Text, codes, text_eq, text_eq_iff,
  one_of, arith, ok, Option-cases, Result-cases, inl, inr,
}
use agenelf.Operations.Requests.{read_json}
use agenelf.Permissions.Files.{AuthRequest, AuthDecision, AuthFiles, is_file_name, has_passed}
use agenelf.Permissions.Check.{
  approved, still_open, binding_fingerprint, expected_differs, check_binding, lacks_votes,
  check_decision, check_auth,
}

module _ (digest : Text → Text) where
  -- A decision that approves a request for what is expected, at a time.
  pub record Backs (request : AuthRequest) (decision : AuthDecision) (expected : Option Text)
      (now : ℕ) : Type 0 where
    pub print : Text
    pub says : decision.decision ≡ codes "approve"
    pub unexpired : has_passed decision.expires_at now ≡ false
    pub bound : binding_fingerprint digest request.binding ≡ ok print
    pub same : decision.fingerprint ≡ print
    pub expects : expected_differs digest expected print ≡ false
    pub votes : lacks_votes digest request decision ≡ false

  check_binding-approved :
      (request : AuthRequest) (decision : AuthDecision) (expected : Option Text) (now : ℕ)
      → check_binding digest request decision expected now ≡ ok approved
      → (has_passed decision.expires_at now ≡ false)
        × ((print : Text) × (binding_fingerprint digest request.binding ≡ ok print)
            × (decision.fingerprint ≡ print)
            × (expected_differs digest expected print ≡ false))
  unfolding check_binding
  check_binding-approved request decision expected now h =
      elim (Result-cases (binding_fingerprint digest request.binding)) [
        | inr (e, raised) ↦ ground arith
        | inl (print, bound) ↦
            let unexpired : has_passed decision.expires_at now ≡ false = ground arith in
            let same : text_eq decision.fingerprint print ≡ true = ground arith in
            let equal = (text_eq_iff decision.fingerprint print).0 same in
            let expects : expected_differs digest expected decision.fingerprint ≡ false =
              ground arith in
            (
              unexpired,
              (print, bound, equal, ap (expected_differs digest expected) (sym equal) ∙ expects),
            )
      ]

  check_decision-Backs :
      (request : AuthRequest) (decision : AuthDecision) (expected : Option Text) (now : ℕ)
      → check_decision digest request decision expected now ≡ ok approved
      → Backs request decision expected now
  unfolding check_decision still_open
  check_decision-Backs request decision expected now h =
      let says : text_eq decision.decision (codes "approve") ≡ true = ground arith in
      let votes : lacks_votes digest request decision ≡ false = ground arith in
      let (unexpired, (print, bound, same, expects)) =
        check_binding-approved request decision expected now (ground arith) in
      record {
        print = print;
        says = (text_eq_iff decision.decision (codes "approve")).0 says;
        unexpired = unexpired;
        bound = bound;
        same = same;
        expects = expects;
        votes = votes;
      }

  -- A request is approved only while it can be read and was not used, and while its decision can be
  -- read, says "approve", has not expired, has the fingerprint of the request's binding and of the
  -- binding that is expected, and has votes of as many different people as the request asks for.
  pub check_auth-Backs :
      (files : AuthFiles) (id : Text) (expected : Option Text) (now : ℕ)
      → check_auth digest files id expected now ≡ ok approved
      → (request : AuthRequest) × (decision : AuthDecision) × (read_json id files.requests
          ≡ some request)
        × (one_of files.consumed id ≡ false)
        × (read_json id files.decisions ≡ some decision)
        × Backs request decision expected now
  unfolding check_auth still_open
  check_auth-Backs files id expected now h = elim (Option-cases (read_json id files.requests)) [
    | inl missing ↦ ground arith
    | inr (request, asked) ↦ elim (Option-cases (read_json id files.decisions)) [
      | inl undecided ↦ ground arith
      | inr (decision, decided) ↦
          let unused : one_of files.consumed id ≡ false = ground arith in
          let judged : check_decision digest request decision expected now ≡ ok approved =
            ground arith in
          (
            request,
            decision,
            asked,
            unused,
            decided,
            check_decision-Backs request decision expected now judged,
          )
    ]
  ]

  check_binding-backed :
      (request : AuthRequest) (decision : AuthDecision) (expected : Option Text) (now : ℕ)
      → Backs request decision expected now
      → check_binding digest request decision expected now ≡ ok approved
  unfolding check_binding
  check_binding-backed request decision expected now b =
      let same : text_eq decision.fingerprint b.print ≡ true =
        (text_eq_iff decision.fingerprint b.print).1 b.same in
      let expects : expected_differs digest expected decision.fingerprint ≡ false =
        ap (expected_differs digest expected) b.same ∙ b.expects in
      rw (b.unexpired, b.bound) (rw (same, expects) refl)

  check_decision-backed :
      (request : AuthRequest) (decision : AuthDecision) (expected : Option Text) (now : ℕ)
      → Backs request decision expected now
      → check_decision digest request decision expected now ≡ ok approved
  unfolding check_decision
  check_decision-backed request decision expected now b =
      let says : text_eq decision.decision (codes "approve") ≡ true =
        (text_eq_iff decision.decision (codes "approve")).1 b.says in
      let other : text_eq decision.decision (codes "deny") ≡ false =
        ap (λ (t : Text). text_eq t (codes "deny")) b.says in
      rw (other, says, b.votes) (check_binding-backed request decision expected now b)

  -- `check_auth` approves an authorization exactly when its name is a file name, its request can be
  -- read and was not used, and its decision can be read, says "approve", has not expired, has the
  -- fingerprint of the request's binding and of the binding that is expected, and has votes of as
  -- many different people as the request asks for.
  pub check_auth_iff :
      (files : AuthFiles) (id : Text) (expected : Option Text) (now : ℕ)
      → (check_auth digest files id expected now ≡ ok approved) ↔ (
          (is_file_name id ≡ true)
          × ((request : AuthRequest) × (decision : AuthDecision) × (read_json id files.requests
                ≡ some request)
              × (one_of files.consumed id ≡ false)
              × (read_json id files.decisions ≡ some decision)
              × Backs request decision expected now))
  unfolding check_auth
  check_auth_iff files id expected now = (
    λ h. (ground arith, check_auth-Backs files id expected now h),
    λ b.
        let (named, (request, decision, asked, unused, decided, backs)) = b in
        rw (named, asked)
          (rw (unused, decided) (check_decision-backed request decision expected now backs)),
  )
