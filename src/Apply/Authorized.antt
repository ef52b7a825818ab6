-- ===== src/Apply/Authorized.antt =====
-- What stands behind a file that the runner writes (scripts/self_upgrade_runner.py and
-- app/core/permissions.py).
use agenelf.Base.{
  all, ℕ, ◌≡◌, ap, sym, ◌∙◌, true, false, Option, some, Text, ◌∷◌, codes, one_of, is_some, Result,
}
use agenelf.Operations.Requests.{read_json}
use agenelf.Permissions.Files.{AuthDecision, has_passed}
use agenelf.Permissions.Binding.{check_auth-Backs}
use agenelf.Upgrade.Session.{Candidate, given, UpgradeSession, ApplyRequest, Outside}
use agenelf.Upgrade.Authorized.{expected-same}
use agenelf.Apply.World.{RunnerError, RunnerWorld}
use agenelf.Apply.Process.{Handled}
use agenelf.Apply.Passed.{Passed}
use agenelf.Apply.Checked.{
  validate_request-Agrees, in_scope, verify_records-in_scope, verify_candidate-ok,
}

module _ (o : Outside) (resolve : Text → Option Text) where
  -- The session of a request, with the approval of its candidate: the owner has decided "approve"
  -- for exactly its binding, nobody had used the authorization, the tree is the one in the binding,
  -- it has passed the tests, and each record's path is in the scope of the plan.
  pub record IsAuthorized (later : ℕ) (w : RunnerWorld) (session : UpgradeSession) : Type 0 where
    pub intent_consumed : session.intent_consumed ≡ true
    pub candidate : Candidate
    pub decision : AuthDecision
    pub bound : session.candidate_binding ≡ given candidate
    pub decided : read_json session.candidate_auth_id w.upgrade.auths.decisions ≡ some decision
    pub says : decision.decision ≡ codes "approve"
    pub print : decision.fingerprint ≡ o.digest (o.encode_candidate candidate)
    pub unexpired : has_passed decision.expires_at later ≡ false
    pub unused : one_of w.upgrade.auths.consumed session.candidate_auth_id ≡ false
    pub tree : candidate.candidate_tree_sha256 ≡ o.tree_digest w.upgrade.repo
    pub tests_pass : is_some (o.run_tests w.upgrade.repo) ≡ true
    pub scoped : all (in_scope session.plan.allowed_paths) session.changed_file_records ≡ true

  pub Passed-IsAuthorized :
      (later : ℕ) (request : ApplyRequest) (w : RunnerWorld)
      {m : Result RunnerError Handled × RunnerWorld}
      → (p : Passed o resolve later request w m)
      → (read_json request.payload.session_id w.upgrade.sessions ≡ some p.session)
        × (request.payload.candidate_auth_id ≡ p.session.candidate_auth_id)
        × (request.payload.changed_files ≡ p.session.changed_file_records)
        × IsAuthorized later w p.session
  Passed-IsAuthorized later request w p =
      let (loaded, agrees) =
        validate_request-Agrees o w.upgrade.sessions request p.session p.valid in
      let (asked, decision, found, unused, decided, backs) =
        check_auth-Backs o.digest w.upgrade.auths request.payload.candidate_auth_id
          (some (o.encode_candidate p.candidate)) later p.granted.approved in
      let (tree, checked) =
        verify_candidate-ok o resolve w request p.session p.candidate p.bound p.verified in
      (
        loaded,
        agrees.candidate,
        agrees.records,
        record {
          intent_consumed = agrees.consumed;
          candidate = p.candidate;
          decision = decision;
          bound = p.bound;
          decided =
              ap (λ (id : Text). read_json id w.upgrade.auths.decisions) (sym agrees.candidate)
              ∙ decided;
          says = backs.says;
          print =
              backs.same
              ∙ expected-same o (o.encode_candidate p.candidate) backs.print backs.expects;
          unexpired = backs.unexpired;
          unused = ap (one_of w.upgrade.auths.consumed) (sym agrees.candidate) ∙ unused;
          tree = tree;
          tests_pass = ap is_some p.granted.tests_pass;
          scoped =
              ap (all (in_scope p.session.plan.allowed_paths)) (sym agrees.records)
              ∙ verify_records-in_scope o resolve w p.session.plan.allowed_paths
                  request.payload.changed_files checked;
        },
      )

  -- The lock of the call is no part of it.
  pub IsAuthorized-locked :
      (later : ℕ) (request : ApplyRequest) (w : RunnerWorld) (session : UpgradeSession)
      → IsAuthorized later (record w { locks = request.id ∷ w.locks }) session
      → IsAuthorized later w session
  IsAuthorized-locked later request w session a = record {
    intent_consumed = a.intent_consumed;
    candidate = a.candidate;
    decision = a.decision;
    bound = a.bound;
    decided = a.decided;
    says = a.says;
    print = a.print;
    unexpired = a.unexpired;
    unused = a.unused;
    tree = a.tree;
    tests_pass = a.tests_pass;
    scoped = a.scoped;
  }
