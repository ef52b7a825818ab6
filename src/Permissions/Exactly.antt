-- ===== src/Permissions/Exactly.antt =====
-- When app/core/permissions.py answers "approved", said of the files alone: which values the files
-- of the request and of the decision have, and who has voted.
use agenelf.Base.{
  ℕ, ◌≤◌, ◌≡◌, ◌↔◌, refl, sym, ap, ◌∙◌, true, false, Option, none, some, Text, List, codes, text_eq,
  text_eq_iff, text_eq_refl, one_of, all, ltb, length, pos, negsuc, arith, ◌⊎◌, inl, inr,
  Bool-cases, ok,
}
use agenelf.Operations.Requests.{RawNumber, missing, not_integer, integer, read_json}
use agenelf.Permissions.Files.{
  RawBinding, absent, no_object, object, AuthRequest, AuthDecision, AuthFiles, Vote, is_file_name,
  has_passed, required_of, distinct,
}
use agenelf.Permissions.Check.{
  approved, binding_fingerprint, expected_differs, lacks_votes, check_auth,
}
use agenelf.Permissions.Binding.{Backs, check_auth_iff}
use agenelf.Owner.People.{no_repeats, distinct-no_repeats}
use agenelf.Permissions.Voters.{has_voted, no_repeats-length, all-distinct, all-one_of}

-- Enough people for the number that a request asks for: where it asks for one, or for no readable
-- number, nobody has to be named.
pub data Enough (votes : List Vote) : RawNumber → Type 0 where
  unasked : Enough votes missing
  unreadable : Enough votes not_integer
  single : (n : ℕ) → n ≤ 1 → Enough votes (integer (pos n))
  negative : (n : ℕ) → Enough votes (integer (negsuc n))
  several :
      (n : ℕ) (people : List Text)
      → no_repeats people ≡ true
      → all (has_voted votes) people ≡ true
      → n ≤ length people
      → Enough votes (integer (pos n))

module _ (digest : Text → Text) where
  votes-Enough :
      (request : AuthRequest) (decision : AuthDecision) (raw : RawNumber)
      → request.required_approvers ≡ raw
      → lacks_votes digest request decision ≡ false
      → Enough decision.approvals raw
  unfolding lacks_votes required_of
  votes-Enough request decision missing e h = unasked
  votes-Enough request decision not_integer e h = unreadable
  votes-Enough request decision (integer (negsuc n)) e h = negative n
  votes-Enough request decision (integer (pos n)) e h = elim (Bool-cases (ltb 1 n)) [
    | inr few ↦ single n (ground (arith, few))
    | inl many ↦
        several n (distinct decision.approvals) (distinct-no_repeats decision.approvals)
          (sym (all-distinct decision.approvals (distinct decision.approvals))
            ∙ all-one_of (distinct decision.approvals))
          (ground (arith, many, e, h))
  ]

  Enough-votes :
      (request : AuthRequest) (decision : AuthDecision) (raw : RawNumber)
      → request.required_approvers ≡ raw
      → Enough decision.approvals raw
      → lacks_votes digest request decision ≡ false
  unfolding lacks_votes required_of
  Enough-votes request decision _ e unasked = ground (arith, e)
  Enough-votes request decision _ e unreadable = ground (arith, e)
  Enough-votes request decision _ e (negative n) = ground (arith, e)
  Enough-votes request decision _ e (single n small) = ground (arith, e, small)
  Enough-votes request decision _ e (several n people different voted long) =
      let fits =
        no_repeats-length people (distinct decision.approvals) different
          (all-distinct decision.approvals people ∙ voted) in
      ground (arith, e, long, fits)

  -- A decision that approves a request for what is expected, at a time.
  pub record Approves (request : AuthRequest) (decision : AuthDecision) (expected : Option Text)
      (now : ℕ) : Type 0 where
    pub says : decision.decision ≡ codes "approve"
    pub expiry : ℕ
    pub expires : decision.expires_at ≡ some expiry
    pub in_time : now ≤ expiry
    pub covers :
        ((b : Text) × (request.binding ≡ object b) × (decision.fingerprint ≡ digest b))
        ⊎ ((request.binding ≡ absent) × (decision.fingerprint ≡ digest (codes "{}")))
    pub expects :
        (expected ≡ none) ⊎ ((b : Text) × (expected ≡ some b) × (decision.fingerprint ≡ digest b))
    pub votes : Enough decision.approvals request.required_approvers

  in_time_from :
      (expires_at : Option ℕ) (now : ℕ)
      → has_passed expires_at now ≡ false
      → (t : ℕ) × (expires_at ≡ some t) × (now ≤ t)
  unfolding has_passed
  in_time_from none now h = ground arith
  in_time_from (some t) now h = (t, refl, ground (arith, h))

  covers_from :
      (raw : RawBinding) (print fingerprint : Text)
      → binding_fingerprint digest raw ≡ ok print
      → fingerprint ≡ print
      → ((b : Text) × (raw ≡ object b) × (fingerprint ≡ digest b))
        ⊎ ((raw ≡ absent) × (fingerprint ≡ digest (codes "{}")))
  unfolding binding_fingerprint
  covers_from absent print fingerprint h same = inr (refl, same ∙ ground (arith, h))
  covers_from no_object print fingerprint h same = ground (arith, h)
  covers_from (object b) print fingerprint h same = inl (b, refl, same ∙ ground (arith, h))

  expects_from :
      (expected : Option Text) (print : Text)
      → expected_differs digest expected print ≡ false
      → (expected ≡ none) ⊎ ((b : Text) × (expected ≡ some b) × (print ≡ digest b))
  unfolding expected_differs
  expects_from none print h = inl refl
  expects_from (some b) print h =
      let same : text_eq print (digest b) ≡ true = ground (arith, h) in
      inr (b, refl, (text_eq_iff print (digest b)).0 same)

  Backs-Approves :
      (request : AuthRequest) (decision : AuthDecision) (expected : Option Text) (now : ℕ)
      → Backs digest request decision expected now
      → Approves request decision expected now
  Backs-Approves request decision expected now b =
      let (expiry, expires, in_time) = in_time_from decision.expires_at now b.unexpired in
      record {
        says = b.says;
        expiry = expiry;
        expires = expires;
        in_time = in_time;
        covers = covers_from request.binding b.print decision.fingerprint b.bound b.same;
        expects =
            expects_from expected decision.fingerprint
              (ap (expected_differs digest expected) b.same ∙ b.expects);
        votes = votes-Enough request decision request.required_approvers refl b.votes;
      }

  print_from :
      (raw : RawBinding) (fingerprint : Text)
      → ((b : Text) × (raw ≡ object b) × (fingerprint ≡ digest b))
        ⊎ ((raw ≡ absent) × (fingerprint ≡ digest (codes "{}")))
      → binding_fingerprint digest raw ≡ ok fingerprint
  unfolding binding_fingerprint
  print_from raw fingerprint (inl (b, e, same)) =
      ap (binding_fingerprint digest) e ∙ ap ok (sym same)
  print_from raw fingerprint (inr (e, same)) = ap (binding_fingerprint digest) e ∙ ap ok (sym same)

  differs_from :
      (expected : Option Text) (fingerprint : Text)
      → (expected ≡ none) ⊎ ((b : Text) × (expected ≡ some b) × (fingerprint ≡ digest b))
      → expected_differs digest expected fingerprint ≡ false
  unfolding expected_differs
  differs_from expected fingerprint (inl e) = rw e refl
  differs_from expected fingerprint (inr (b, e, same)) =
      rw (e, same) (ground (arith, text_eq_refl (digest b)))

  Approves-Backs :
      (request : AuthRequest) (decision : AuthDecision) (expected : Option Text) (now : ℕ)
      → Approves request decision expected now
      → Backs digest request decision expected now
  unfolding has_passed
  Approves-Backs request decision expected now a = record {
    print = decision.fingerprint;
    says = a.says;
    unexpired = ap (λ (t : Option ℕ). has_passed t now) a.expires ∙ ground (arith, a.in_time);
    bound = print_from request.binding decision.fingerprint a.covers;
    same = refl;
    expects = differs_from expected decision.fingerprint a.expects;
    votes = Enough-votes request decision request.required_approvers refl a.votes;
  }

  -- `check_auth` approves an authorization exactly when its name is a file name, its request can be
  -- read and was not used, and its decision can be read, says "approve", has an expiry that has not
  -- passed, and has the digest of the request's binding, and of the binding that is expected if one
  -- is; and where the request asks for more than one approver, as many different people have voted.
  pub check_auth-Approves :
      (files : AuthFiles) (id : Text) (expected : Option Text) (now : ℕ)
      → (check_auth digest files id expected now ≡ ok approved) ↔ (
          (is_file_name id ≡ true)
          × ((request : AuthRequest) × (decision : AuthDecision) × (read_json id files.requests
                ≡ some request)
              × (one_of files.consumed id ≡ false)
              × (read_json id files.decisions ≡ some decision)
              × Approves request decision expected now))
  check_auth-Approves files id expected now =
      let tests = check_auth_iff digest files id expected now in
      (
        λ h.
            let (named, (request, decision, asked, unused, decided, b)) = tests.0 h in
            (
              named,
              (
                request,
                decision,
                asked,
                unused,
                decided,
                Backs-Approves request decision expected now b,
              ),
            ),
        λ x.
            let (named, (request, decision, asked, unused, decided, a)) = x in
            tests.1 (
              named,
              (
                request,
                decision,
                asked,
                unused,
                decided,
                Approves-Backs request decision expected now a,
              ),
            ),
      )
