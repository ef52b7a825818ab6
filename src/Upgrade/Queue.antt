-- ===== src/Upgrade/Queue.antt =====
-- Which step of a session queues a request for the runner (app/core/authorized_upgrade.py).
use agenelf.Base.{
  ℕ, ◌≡◌, refl, ap, ◌∙◌, Bool, true, false, Option, none, some, Text, ◌∷◌, ◌++◌, codes, is_some,
  ◌⊎◌, inl, inr, Bool-cases, Result-cases, if◌then◌else◌, Result, ok, err, Exec,
}
use agenelf.Operations.Requests.{find}
use agenelf.Permissions.Check.{AuthStatus, BindingError, check_auth}
use agenelf.Upgrade.Session.{
  SessionStatus, awaiting_candidate_approval, apply_queued, denied, expired, candidate_denied,
  candidate_expired, candidate_mismatch, candidate_used_elsewhere, apply_submitted, SessionError,
  ApplyRequest, Candidate, CandidateBinding, no_key, null, given, UpgradeWorld, Stage, save, note,
  stop_after, close, fail_with, after_candidate, Outside,
}
use agenelf.Upgrade.Settled.{IsSettled, save-IsSettled, close-IsSettled, fail_with-IsSettled}
use agenelf.Upgrade.Advance.{
  request_payload, apply_request, queue_request, checked_candidate, expected_of, submit_candidate,
  submit_apply, when_candidate,
}

-- The step stops the call, and leaves the requests.
pub record IsStopped (s : Stage) (m : Result SessionError Bool × Stage) : Type 0 where
  pub stopped : (m.0 ≡ ok false) ⊎ ((e : SessionError) × (m.0 ≡ err e))
  pub requests : m.1.world.requests ≡ s.world.requests

stop_after-IsStopped :
    (m : Exec Stage SessionError (Unit {0})) (s : Stage)
    → (m s).1.world.requests ≡ s.world.requests
    → IsStopped s (stop_after m s)
unfolding stop_after
stop_after-IsStopped m s h = elim (Result-cases (m s).0) [
  | inl (u, e) ↦ rw e (record { stopped = inl refl; requests = h })
  | inr (x, e) ↦ rw e (record { stopped = inr (x, refl); requests = h })
]

waits-IsStopped : (s : Stage) → IsStopped s (ok false, s)
waits-IsStopped s = record { stopped = inl refl; requests = refl }

-- It goes on with the same session, which was approved or has its request already.
abbrev pub GoesOn : AuthStatus → Stage → Result SessionError Bool × Stage → Type 0
GoesOn a s m =
    (m ≡ (ok true, s)) × ((a ≡ AuthStatus.approved) ⊎ (is_some s.session.apply_request_id ≡ true))

used-cases :
    (b : Bool) (a : AuthStatus) (s : Stage)
    → is_some s.session.apply_request_id ≡ b
    → let m = if b then (ok true, s) else stop_after (fail_with candidate_used_elsewhere) s in
      IsStopped s m ⊎ GoesOn a s m
used-cases true a s h = inr (refl, inr h)
used-cases false a s h =
    inl (
      stop_after-IsStopped (fail_with candidate_used_elsewhere) s
        (fail_with-IsSettled _ s).requests)

-- What a candidate's status leads to.
pub after_candidate-cases :
    (a : AuthStatus) (s : Stage)
    → IsStopped s (after_candidate a s) ⊎ GoesOn a s (after_candidate a s)
unfolding after_candidate
after_candidate-cases AuthStatus.denied s =
    inl (stop_after-IsStopped (close denied candidate_denied) s (close-IsSettled _ _ s).requests)
after_candidate-cases AuthStatus.pending s = inl (waits-IsStopped s)
after_candidate-cases AuthStatus.not_found s = inl (waits-IsStopped s)
after_candidate-cases AuthStatus.expired s =
    inl (stop_after-IsStopped (close expired candidate_expired) s (close-IsSettled _ _ s).requests)
after_candidate-cases AuthStatus.binding_mismatch s =
    inl (stop_after-IsStopped (fail_with candidate_mismatch) s (fail_with-IsSettled _ s).requests)
after_candidate-cases AuthStatus.used s =
    used-cases (is_some s.session.apply_request_id) AuthStatus.used s refl
after_candidate-cases AuthStatus.approved s = inr (refl, inl refl)

module _ (o : Outside) where
  -- A request that is queued, and the approval that its candidate has at that time.
  pub record Queued (now : ℕ) (c : Option Candidate) (before after : UpgradeWorld) : Type 0 where
    pub name : Text
    pub request : ApplyRequest
    pub names : request.payload.candidate_binding ≡ c
    pub written : after.requests ≡ (name, some request) ∷ before.requests
    pub approved :
        check_auth o.digest after.auths request.payload.candidate_auth_id (expected_of o c) now
        ≡ ok AuthStatus.approved

  -- The session of a stage with its request queued.
  abbrev pub with_request : Text → Option Candidate → Stage → Stage
  with_request name c s = record s {
    session = record (note apply_submitted s.session) {
      apply_request_id = some name;
      status = apply_queued;
    };
    world = record s.world {
      requests = (name, some (apply_request o name c s.session)) ∷ s.world.requests;
    };
  }

  -- `queue_request` leaves the requests, or writes one and saves the session.
  pub queue_request-cases :
      (name : Text) (c : Option Candidate) (s : Stage)
      → ((queue_request o name c true s).1.world.requests ≡ s.world.requests)
        ⊎ (queue_request o name c true s ≡ save (with_request name c s))
  unfolding queue_request
  queue_request-cases name c s = elim (Bool-cases (is_some s.session.apply_request_id)) [
    | inl there ↦ inl (rw there refl)
    | inr missing ↦ elim (Bool-cases (is_some (find name s.world.requests))) [
      | inl taken ↦ inl (rw missing (rw taken refl))
      | inr free ↦ inr (rw missing (rw free refl))
    ]
  ]

  queue_request-Queued :
      (name : Text) (c : Option Candidate) (now : ℕ) (s : Stage)
      → check_auth o.digest s.world.auths s.session.candidate_auth_id (expected_of o c) now
        ≡ ok AuthStatus.approved
      → ((queue_request o name c true s).1.world.requests ≡ s.world.requests)
        ⊎ Queued now c s.world (queue_request o name c true s).1.world
  unfolding apply_request request_payload
  queue_request-Queued name c now s h = elim (queue_request-cases name c s) [
    | inl same ↦ inl same
    | inr wrote ↦
        let still = save-IsSettled (with_request name c s) in
        inr (record {
          name = name;
          request = apply_request o name c s.session;
          names = refl;
          written =
              ap (λ (m : Result SessionError (Unit {0}) × Stage). m.1.world.requests) wrote
              ∙ still.requests;
          approved =
              ap
                (λ (m : Result SessionError (Unit {0}) × Stage).
                  check_auth o.digest m.1.world.auths s.session.candidate_auth_id (expected_of o c)
                    now)
                wrote
              ∙ ap (λ a. check_auth o.digest a s.session.candidate_auth_id (expected_of o c) now)
                  still.auths
              ∙ h;
        })
  ]

  pub queue_request-there :
      (name : Text) (c : Option Candidate) (s : Stage)
      → is_some s.session.apply_request_id ≡ true
      → (queue_request o name c true s).1.world.requests ≡ s.world.requests
  unfolding queue_request
  queue_request-there name c s h = rw h refl

  -- A stopped call queues nothing.
  pub checked_candidate-stopped :
      (hex : Text) (c : Option Candidate) (status : AuthStatus) (s : Stage)
      → IsStopped s (after_candidate status s)
      → (checked_candidate o hex c (ok status) s).1.world.requests ≡ s.world.requests
  unfolding checked_candidate queue_request
  checked_candidate-stopped hex c status s h = elim h.stopped [
    | inl e ↦ rw e h.requests
    | inr (x, e) ↦ rw e h.requests
  ]

  pub checked_candidate-went :
      (hex : Text) (c : Option Candidate) (status : AuthStatus) (s : Stage)
      → after_candidate status s ≡ (ok true, s)
      → checked_candidate o hex c (ok status) s
        ≡ queue_request o (codes "self-upgrade-" ++ hex) c true s
  unfolding checked_candidate
  checked_candidate-went hex c status s went = rw went refl

  checked_candidate-Queued :
      (now : ℕ) (hex : Text) (c : Option Candidate) (r : Result BindingError AuthStatus) (s : Stage)
      → check_auth o.digest s.world.auths s.session.candidate_auth_id (expected_of o c) now ≡ r
      → ((checked_candidate o hex c r s).1.world.requests ≡ s.world.requests)
        ⊎ Queued now c s.world (checked_candidate o hex c r s).1.world
  unfolding checked_candidate
  checked_candidate-Queued now hex c (err e) s h = inl refl
  checked_candidate-Queued now hex c (ok status) s h = elim (after_candidate-cases status s) [
    | inl stopped ↦ inl (checked_candidate-stopped hex c status s stopped)
    | inr (went, inl granted) ↦
        rw (checked_candidate-went hex c status s went)
          (queue_request-Queued (codes "self-upgrade-" ++ hex) c now s (h ∙ ap ok granted))
    | inr (went, inr there) ↦
        rw (checked_candidate-went hex c status s went)
          (inl (queue_request-there (codes "self-upgrade-" ++ hex) c s there))
  ]

  -- Nothing is queued, or what is queued is approved: for a candidate, or for none where the
  -- binding of the session is a null.
  abbrev pub Either : ℕ → CandidateBinding → UpgradeWorld → UpgradeWorld → Type 0
  Either now raw before after =
      (after.requests ≡ before.requests)
      ⊎ ((c : Option Candidate) × Queued now c before after
          × (((d : Candidate) × (c ≡ some d)) ⊎ ((c ≡ none) × (raw ≡ null))))

  submit_candidate-Either :
      (now : ℕ) (hex : Text) (raw : CandidateBinding) (s : Stage)
      → Either now raw s.world (submit_candidate o now hex raw s).1.world
  unfolding submit_candidate
  submit_candidate-Either now hex no_key s = inl refl
  submit_candidate-Either now hex null s = elim (checked_candidate-Queued now hex none _ s refl) [
    | inl same ↦ inl same
    | inr q ↦ inr (none, q, inr (refl, refl))
  ]
  submit_candidate-Either now hex (given c) s =
      elim (checked_candidate-Queued now hex (some c) _ s refl) [
        | inl same ↦ inl same
        | inr q ↦ inr (some c, q, inl (c, refl))
      ]

  pub when_candidate-Either :
      (st : SessionStatus) (now : ℕ) (hex : Text) (s : Stage)
      → Either now s.session.candidate_binding s.world (when_candidate o st now hex s).1.world
  unfolding when_candidate submit_apply
  when_candidate-Either awaiting_candidate_approval now hex s =
      submit_candidate-Either now hex s.session.candidate_binding s
  when_candidate-Either _ now hex s = inl refl

  pub Either-after :
      (now : ℕ) (raw : CandidateBinding) (w v u : UpgradeWorld)
      → Either now raw w v
      → IsSettled v u
      → Either now raw w u
  Either-after now raw w v u (inl same) still = inl (still.requests ∙ same)
  Either-after now raw w v u (inr (c, q, kind)) still = inr (
    c,
    record {
      name = q.name;
      request = q.request;
      names = q.names;
      written = still.requests ∙ q.written;
      approved =
          ap (λ a. check_auth o.digest a q.request.payload.candidate_auth_id (expected_of o c) now)
            still.auths
          ∙ q.approved;
    },
    kind,
  )
