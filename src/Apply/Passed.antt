-- ===== src/Apply/Passed.antt =====
-- What the runner has checked before it writes (scripts/self_upgrade_runner.py).
use agenelf.Base.{
  ℕ, ◌≡◌, refl, ◌⊎◌, inl, inr, Bool, true, false, Option, none, some, Text, ◌∷◌, arith, text_eq,
  bind-eq-ok, Result, ok, err,
}
use agenelf.Permissions.Files.{AuthFiles}
use agenelf.Permissions.Check.{AuthStatus, BindingError, check_auth, claim, consume_auth}
use agenelf.Permissions.Binding.{check_auth-Backs}
use agenelf.Upgrade.Session.{
  Candidate, CandidateBinding, no_key, null, given, binding_of, UpgradeSession, ApplyRequest,
  Outside,
}
use agenelf.Upgrade.Advance.{expected_of}
use agenelf.Apply.World.{RunnerError, RunnerWorld, require, candidate_repo_missing, tree_changed}
use agenelf.Apply.Validate.{validate_request, verify_bound, verify_candidate}
use agenelf.Apply.Process.{
  Handled, applied, apply_request_files, after_consume, after_tests, after_verify, after_check,
  with_binding, validated, handle,
}

-- Does the body of the `try` end with files applied?
unfoldable pub has_applied : Result RunnerError Handled → Bool
has_applied (ok (applied paths)) = true
has_applied _ = false

abbrev pub spent : AuthFiles → Text → AuthFiles
spent files id = record files { consumed = id ∷ files.consumed }

-- An authorization is consumed where `check_auth` approves it, and is then marked.
pub consume_auth-true :
    (digest : Text → Text) (files : AuthFiles) (id : Text) (expected : Option Text) (now : ℕ)
    → (consume_auth digest files id expected now).0 ≡ ok true
    → (check_auth digest files id expected now ≡ ok AuthStatus.approved)
      × ((consume_auth digest files id expected now).1 ≡ spent files id)
unfolding consume_auth claim
consume_auth-true digest files id expected now h =
    let approved : check_auth digest files id expected now ≡ ok AuthStatus.approved =
      ground arith in
    let (request, decision, asked, unused, decided, backs) =
      check_auth-Backs digest files id expected now approved in
    (approved, rw (approved, consume_auth) (rw (unused, claim) refl))

module _ (o : Outside) (resolve : Text → Option Text) where
  -- Nothing was written.
  pub record IsIdle (r : Result RunnerError Handled) (w after : RunnerWorld) : Type 0 where
    pub disk : after.disk ≡ w.disk
    pub results : after.upgrade.results ≡ w.upgrade.results
    pub requests : after.upgrade.requests ≡ w.upgrade.requests
    pub idle : has_applied r ≡ false

  abbrev pub with_auths : RunnerWorld → AuthFiles → RunnerWorld
  with_auths w auths = record w { upgrade = record w.upgrade { auths = auths } }

  -- The tests have passed and the authorization of the candidate was consumed; then come the files.
  pub record IsGranted (later : ℕ) (request : ApplyRequest) (binding : Option Text)
      (w : RunnerWorld) (m : Result RunnerError Handled × RunnerWorld) : Type 0 where
    pub test_report : Text
    pub tests_pass : o.run_tests w.upgrade.repo ≡ some test_report
    pub approved :
        check_auth o.digest w.upgrade.auths request.payload.candidate_auth_id binding later
        ≡ ok AuthStatus.approved
    pub goes :
        m
        ≡ apply_request_files o resolve request
            (with_auths w (spent w.upgrade.auths request.payload.candidate_auth_id))

  after_consume-cases :
      (request : ApplyRequest) (r : Result BindingError Bool) (w : RunnerWorld)
      → IsIdle (after_consume o resolve request r w).0 w (after_consume o resolve request r w).1
        ⊎ (r ≡ ok true)
  unfolding after_consume has_applied
  after_consume-cases request (err e) w =
      inl (record { disk = refl; results = refl; requests = refl; idle = refl })
  after_consume-cases request (ok false) w =
      inl (record { disk = refl; results = refl; requests = refl; idle = refl })
  after_consume-cases request (ok true) w = inr refl

  goes-on :
      (request : ApplyRequest) (w : RunnerWorld)
      → after_consume o resolve request (ok true) w ≡ apply_request_files o resolve request w
  unfolding after_consume
  goes-on request w = refl

  after_tests-cases :
      (later : ℕ) (request : ApplyRequest) (binding : Option Text) (tests : Option Text)
      (w : RunnerWorld)
      → o.run_tests w.upgrade.repo ≡ tests
      → let m = after_tests o resolve later request binding tests w in
        IsIdle m.0 w m.1 ⊎ IsGranted later request binding w m
  unfolding after_tests has_applied
  after_tests-cases later request binding none w h =
      inl (record { disk = refl; results = refl; requests = refl; idle = refl })
  after_tests-cases later request binding (some report) w h =
      let id = request.payload.candidate_auth_id in
      let step = consume_auth o.digest w.upgrade.auths id binding later in
      elim (after_consume-cases request step.0 (with_auths w step.1)) [
        | inl still ↦ inl (record {
          disk = still.disk;
          results = still.results;
          requests = still.requests;
          idle = still.idle;
        })
        | inr mine ↦
            let (approved, marked) =
              consume_auth-true o.digest w.upgrade.auths id binding later mine in
            inr (record {
              test_report = report;
              tests_pass = h;
              approved = approved;
              goes = rw mine (rw marked (goes-on request _));
            })
      ]

  after_verify-cases :
      (later : ℕ) (request : ApplyRequest) (binding : Option Text)
      (r : Result RunnerError (Unit {0})) (w : RunnerWorld)
      → let m = after_verify o resolve later request binding r w in
        IsIdle m.0 w m.1 ⊎ ((r ≡ ok tt) × IsGranted later request binding w m)
  unfolding after_verify has_applied
  after_verify-cases later request binding (err e) w =
      inl (record { disk = refl; results = refl; requests = refl; idle = refl })
  after_verify-cases later request binding (ok u) w =
      elim (after_tests-cases later request binding _ w refl) [
        | inl still ↦ inl still
        | inr granted ↦ inr (refl, granted)
      ]

  after_check-cases :
      (later : ℕ) (request : ApplyRequest) (session : UpgradeSession) (binding : Option Text)
      (r : Result BindingError AuthStatus) (w : RunnerWorld)
      → let m = after_check o resolve later request session binding r w in
        IsIdle m.0 w m.1
        ⊎ ((verify_candidate o resolve w request session ≡ ok tt)
            × IsGranted later request binding w m)
  unfolding after_check has_applied
  after_check-cases later request session binding (err e) w =
      inl (record { disk = refl; results = refl; requests = refl; idle = refl })
  after_check-cases later request session binding (ok AuthStatus.approved) w =
      after_verify-cases later request binding _ w
  after_check-cases later request session binding (ok AuthStatus.pending) w =
      inl (record { disk = refl; results = refl; requests = refl; idle = refl })
  after_check-cases later request session binding (ok _) w =
      inl (record { disk = refl; results = refl; requests = refl; idle = refl })

  -- Every check of a request that comes to its files.
  pub record Passed (later : ℕ) (request : ApplyRequest) (w : RunnerWorld)
      (m : Result RunnerError Handled × RunnerWorld) : Type 0 where
    pub session : UpgradeSession
    pub candidate : Candidate
    pub valid : validate_request o w.upgrade.sessions request ≡ ok session
    pub bound : session.candidate_binding ≡ given candidate
    pub verified : verify_candidate o resolve w request session ≡ ok tt
    pub granted : IsGranted later request (some (o.encode_candidate candidate)) w m

  -- `verify_candidate` refuses a session without a candidate.
  verify_candidate-null :
      (w : RunnerWorld) (request : ApplyRequest) (session : UpgradeSession)
      → session.candidate_binding ≡ null
      → verify_candidate o resolve w request session ≡ ok tt
      → ⊥
  unfolding verify_candidate verify_bound binding_of
  verify_candidate-null w request session e h =
      let (u, mounted, h2) = bind-eq-ok (require w.mounted candidate_repo_missing) _ h in
      let (v, same, h3) =
        bind-eq-ok
          (require (text_eq (o.tree_digest w.upgrade.repo) request.payload.candidate_digest)
            tree_changed)
          _ h2 in
      ground (arith, e, h3)

  with_binding-cases :
      (now later : ℕ) (request : ApplyRequest) (session : UpgradeSession) (raw : CandidateBinding)
      (w : RunnerWorld)
      → validate_request o w.upgrade.sessions request ≡ ok session
      → session.candidate_binding ≡ raw
      → let m = with_binding o resolve now later request session raw w in
        IsIdle m.0 w m.1 ⊎ Passed later request w m
  unfolding with_binding has_applied expected_of binding_of
  with_binding-cases now later request session no_key w h b =
      inl (record { disk = refl; results = refl; requests = refl; idle = refl })
  with_binding-cases now later request session null w h b =
      elim (after_check-cases later request session none
        (check_auth o.digest w.upgrade.auths request.payload.candidate_auth_id none now) w) [
          | inl still ↦ inl still
          | inr (verified, granted) ↦ absurd (verify_candidate-null w request session b verified)
        ]
  with_binding-cases now later request session (given c) w h b =
      elim (after_check-cases later request session (some (o.encode_candidate c))
        (check_auth o.digest w.upgrade.auths request.payload.candidate_auth_id
          (some (o.encode_candidate c)) now)
        w) [
          | inl still ↦ inl still
          | inr (verified, granted) ↦ inr (record {
            session = session;
            candidate = c;
            valid = h;
            bound = b;
            verified = verified;
            granted = granted;
          })
        ]

  validated-cases :
      (now later : ℕ) (request : ApplyRequest) (r : Result RunnerError UpgradeSession)
      (w : RunnerWorld)
      → validate_request o w.upgrade.sessions request ≡ r
      → let m = validated o resolve now later request r w in
        IsIdle m.0 w m.1 ⊎ Passed later request w m
  unfolding validated has_applied
  validated-cases now later request (err e) w h =
      inl (record { disk = refl; results = refl; requests = refl; idle = refl })
  validated-cases now later request (ok session) w h =
      with_binding-cases now later request session session.candidate_binding w h refl

  -- The body of the `try` writes nothing, or its request has passed every check.
  pub handle-cases :
      (now later : ℕ) (request : ApplyRequest) (w : RunnerWorld)
      → let m = handle o resolve now later request w in IsIdle m.0 w m.1 ⊎ Passed later request w m
  unfolding handle
  handle-cases now later request w = validated-cases now later request _ w refl
