-- ===== src/Upgrade/Authorized.antt =====
-- What stands behind a request to the runner of the upgrades (app/core/authorized_upgrade.py and
-- app/core/permissions.py).
use agenelf.Base.{
  ℕ, ◌≡◌, refl, ap, sym, subst, ◌∙◌, true, false, Option, none, some, Text, ◌∷◌, codes, text_eq,
  text_eq_iff, one_of, arith, ◌⊎◌, inl, inr, Result-cases, Result, ok, err, Exec, ◌>>=◌,
}
use agenelf.Operations.Requests.{read_json}
use agenelf.Permissions.Files.{AuthDecision, has_passed}
use agenelf.Permissions.Check.{expected_differs}
use agenelf.Permissions.Binding.{check_auth-Backs}
use agenelf.Upgrade.Session.{
  failed, SessionEvent, SessionFailure, SessionError, Candidate, null, given, UpgradeSession,
  ApplyRequest, UpgradeWorld, Stage, load_session, Outside,
}
use agenelf.Upgrade.Advance.{
  expected_of, when_intent, when_candidate, when_queued, try_advance, recovered, advance_loaded,
  advance_session,
}
use agenelf.Upgrade.Settled.{IsSettled, IsSettled-refl, close-IsSettled, when_queued-IsSettled}
use agenelf.Upgrade.Queue.{Queued, Either, when_candidate-Either, Either-after}
use agenelf.Upgrade.Keep.{Kept, when_intent-Kept}

null-ne-given : (c : Candidate) → null ≡ given c → ⊥
null-ne-given c h = cc

recovered-IsSettled :
    (o : Outside) (r : Result SessionError (Unit {0})) (s : Stage)
    → IsSettled s.world (recovered o r s).1.world
unfolding recovered
recovered-IsSettled o (ok _) s = IsSettled-refl s.world
recovered-IsSettled o (err e) s =
    close-IsSettled failed (SessionEvent.failure e)
      (record s { session = record s.session { failure = some (SessionFailure.raised e) } })

-- A step before can have set the binding, but to no null.
null-before :
    {s t : Stage}
    → Kept s t
    → t.session.candidate_binding ≡ null
    → s.session.candidate_binding ≡ null
null-before k h = elim k.bound [
  | inl same ↦ sym same ∙ h
  | inr (c, set) ↦ absurd (null-ne-given c (sym h ∙ set))
]

module _ (o : Outside) where
  Either-before :
      (now : ℕ) (s t : Stage) (u : UpgradeWorld)
      → Kept s t
      → Either o now t.session.candidate_binding t.world u
      → Either o now s.session.candidate_binding s.world u
  Either-before now s t u k (inl same) = inl (same ∙ k.requests)
  Either-before now s t u k (inr (c, q, kind)) = inr (
    c,
    record {
      name = q.name;
      request = q.request;
      names = q.names;
      written = q.written ∙ ap (λ rs. (q.name, some q.request) ∷ rs) k.requests;
      approved = q.approved;
    },
    elim kind [ inl there ↦ inl there | inr (e, was) ↦ inr (e, null-before k was) ],
  )

  -- The second and the third step of the `try`.
  abbrev then_submit : ℕ → Text → Exec Stage SessionError (Unit {0})
  then_submit now hex = do
    _ ← λ s. when_candidate o s.session.status now hex s
    λ s. when_queued o s.session.status s

  then_submit-Either :
      (now : ℕ) (hex : Text) (s : Stage)
      → Either o now s.session.candidate_binding s.world (then_submit now hex s).1.world
  then_submit-Either now hex s =
      let step = when_candidate o s.session.status now hex s in
      let first = when_candidate-Either o s.session.status now hex s in
      elim (Result-cases step.0) [
        | inr (x, e) ↦ rw e first
        | inl (u, e) ↦ rw e (
            Either-after o now s.session.candidate_binding s.world step.1.world
              (when_queued o step.1.session.status step.1).1.world first
              (when_queued-IsSettled o step.1.session.status step.1))
      ]

  try_advance-Either :
      (now : ℕ) (hex other : Text) (s : Stage)
      → Either o now s.session.candidate_binding s.world (try_advance o now hex other s).1.world
  unfolding try_advance
  try_advance-Either now hex other s =
      let step = when_intent o s.session.status now hex s in
      let first = when_intent-Kept o s.session.status now hex s in
      elim (Result-cases step.0) [
        | inr (x, e) ↦ rw e (inl first.requests)
        | inl (u, e) ↦ rw e (
            Either-before now s step.1 (then_submit now other step.1).1.world first
              (then_submit-Either now other step.1))
      ]

  -- Nothing is queued, or what is queued is approved, for the session of a file.
  abbrev Submitted : ℕ → Option UpgradeSession → UpgradeWorld → UpgradeWorld → Type 0
  Submitted now file before after =
      (after.requests ≡ before.requests)
      ⊎ ((session : UpgradeSession) × (file ≡ some session)
          × Either o now session.candidate_binding before after)

  advance_loaded-Submitted :
      (now : ℕ) (hex other : Text) (file : Option UpgradeSession) (w : UpgradeWorld)
      → Submitted now file w (advance_loaded o now hex other file w).1
  unfolding advance_loaded
  advance_loaded-Submitted now hex other none w = inl refl
  advance_loaded-Submitted now hex other (some session) w =
      let s : Stage = record { session = session; world = w } in
      let step = try_advance o now hex other s in
      inr (
        session,
        refl,
        Either-after o now session.candidate_binding w step.1.world
            (recovered o step.0 step.1).1.world (try_advance-Either now hex other s)
            (recovered-IsSettled o step.0 step.1),
      )

  advance_session-Submitted :
      (now : ℕ) (hex other id : Text) (w : UpgradeWorld)
      → Submitted now (load_session id w.sessions) w (advance_session o now hex other id w).1
  unfolding advance_session
  advance_session-Submitted now hex other id w =
      advance_loaded-Submitted now hex other (load_session id w.sessions) w

  pub expected-same :
      (encoded print : Text)
      → expected_differs o.digest (some encoded) print ≡ false
      → print ≡ o.digest encoded
  unfolding expected_differs
  expected-same encoded print h =
      let same : text_eq print (o.digest encoded) ≡ true = ground arith in
      (text_eq_iff print (o.digest encoded)).0 same

  -- The candidate of a request, of which the owner's decision has the fingerprint.
  pub record ForCandidate (r : ApplyRequest) (d : AuthDecision) : Type 0 where
    pub candidate : Candidate
    pub bound : r.payload.candidate_binding ≡ some candidate
    pub print : d.fingerprint ≡ o.digest (o.encode_candidate candidate)

  -- The file of the session, whose binding is a null, as that of the request is.
  pub record ForNull (id : Text) (r : ApplyRequest) (w : UpgradeWorld) : Type 0 where
    pub session : UpgradeSession
    pub file : load_session id w.sessions ≡ some session
    pub was : session.candidate_binding ≡ null
    pub bound : r.payload.candidate_binding ≡ none

  Queued-Backs :
      (now : ℕ) (id : Text) (c : Option Candidate) (session : UpgradeSession)
      (w after : UpgradeWorld) (q : Queued o now c w after) (decision : AuthDecision) (print : Text)
      → load_session id w.sessions ≡ some session
      → decision.fingerprint ≡ print
      → expected_differs o.digest (expected_of o c) print ≡ false
      → ((d : Candidate) × (c ≡ some d)) ⊎ ((c ≡ none) × (session.candidate_binding ≡ null))
      → ForCandidate q.request decision ⊎ ForNull id q.request w
  unfolding expected_of
  Queued-Backs now id c session w after q decision print file same expects (inl (d, e)) =
      inl (record {
        candidate = d;
        bound = q.names ∙ e;
        print =
            same
            ∙ expected-same (o.encode_candidate d) print (
                subst
                  (λ (x : Option Candidate).
                    expected_differs o.digest (expected_of o x) print ≡ false)
                  e expects);
      })
  Queued-Backs now id c session w after q decision print file same expects (inr (e, was)) =
      inr (record { session = session; file = file; was = was; bound = q.names ∙ e })

  -- A call of `advance_session` leaves the requests to the runner as they are, or it adds one. Then
  -- the owner has decided "approve" on the authorization that the request names, the decision has
  -- not expired, and nobody has used the authorization. The decision has the fingerprint of exactly
  -- the candidate in the request, unless the binding of the candidate is a null in the session's
  -- file: then there is no candidate in the request, and the fingerprint is compared with none.
  pub advance_session-authorized :
      (now : ℕ) (hex other id : Text) (w : UpgradeWorld)
      → let after = (advance_session o now hex other id w).1 in
        (after.requests ≡ w.requests)
        ⊎ ((name : Text) × (r : ApplyRequest) × (decision : AuthDecision) × (after.requests
              ≡ (name, some r) ∷ w.requests)
            × (read_json r.payload.candidate_auth_id after.auths.decisions ≡ some decision)
            × (decision.decision ≡ codes "approve")
            × (has_passed decision.expires_at now ≡ false)
            × (one_of after.auths.consumed r.payload.candidate_auth_id ≡ false)
            × (ForCandidate r decision ⊎ ForNull id r w))
  advance_session-authorized now hex other id w =
      elim (advance_session-Submitted now hex other id w) [
        | inl same ↦ inl same
        | inr (session, file, inl same) ↦ inl same
        | inr (session, file, inr (c, q, kind)) ↦
            let after = (advance_session o now hex other id w).1 in
            let (request, decision, asked, unused, decided, backs) =
              check_auth-Backs o.digest after.auths q.request.payload.candidate_auth_id
                (expected_of o c) now q.approved in
            inr (
              q.name,
              q.request,
              decision,
              q.written,
              decided,
              backs.says,
              backs.unexpired,
              unused,
              Queued-Backs now id c session w after q decision backs.print file backs.same
                  backs.expects kind,
            )
      ]
