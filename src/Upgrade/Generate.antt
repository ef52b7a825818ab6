-- ===== src/Upgrade/Generate.antt =====
-- `_advance_candidate` of app/core/authorized_upgrade.py. A call reads its clock once.
use agenelf.Base.{
  ℕ, Bool, true, false, Option, none, some, Text, List, Result, ok, err, Exec, ◌>>=◌, pure, raise,
}
use agenelf.Permissions.Check.{AuthStatus, BindingError, check_auth, consume_auth}
use agenelf.Permissions.Propose.{ProposeError, request_auth}
use agenelf.Upgrade.Paths.{UpgradeError}
use agenelf.Upgrade.Changes.{ChangeRecord, prepare_changes}
use agenelf.Upgrade.Session.{
  generating_candidate, awaiting_candidate_approval, SessionError, upgrade, binding, proposal,
  tests_failed, consume_failed, intent_used, candidate_ready, Candidate, given, UpgradeSession,
  Stage, save, note, stop_after, fail_with, after_intent, Outside, candidate_proposal,
}

-- After `consume_auth` of the intent: does the call go on?
unfoldable pub consumed_intent : Result BindingError Bool → Exec Stage SessionError Bool
unfolding stop_after fail_with save note
consumed_intent (err e) = raise (binding e)
consumed_intent (ok false) = stop_after (fail_with consume_failed)
consumed_intent (ok true) = do
  _ ← λ s.
      save (record s { session = record (note intent_used s.session) { intent_consumed = true } })
  pure true

-- After `request_auth` of the candidate.
unfoldable pub proposed : Result ProposeError Text → Exec Stage SessionError (Unit {0})
unfolding save note
proposed (err e) s = (err (proposal e), s)
proposed (ok id) s =
    save (record s { session = record (note candidate_ready s.session) { candidate_auth_id = id } })

module _ (o : Outside) where
  -- The intent is consumed unless it was.
  unfoldable pub consume_unless : Bool → ℕ → Exec Stage SessionError Bool
  unfolding consume_auth consumed_intent
  consume_unless true now s = (ok true, s)
  consume_unless false now s =
      let (r, auths) =
        consume_auth o.digest s.world.auths s.session.intent_auth_id
          (some (o.encode_plan s.session.plan)) now in
      consumed_intent r (record s { world = record s.world { auths = auths } })

  unfoldable pub consume_intent : ℕ → Exec Stage SessionError Bool
  unfolding consume_unless
  consume_intent now s = consume_unless s.session.intent_consumed now s

  unfoldable pub candidate_for : List ChangeRecord → Text → Stage → Candidate
  candidate_for records report s = record {
    session_id = s.session.id;
    intent_auth_id = s.session.intent_auth_id;
    goal_sha256 = s.session.plan.goal_sha256;
    scopes = s.session.plan.scopes;
    allowed_paths = s.session.plan.allowed_paths;
    changed_files = records;
    candidate_tree_sha256 = o.tree_digest s.world.repo;
    test_report_sha256 = report;
    baseline_manifest_sha256 = o.baseline_digest s.world.repo.baseline;
  }

  -- The session with a candidate to approve.
  unfoldable pub with_candidate : Candidate → List ChangeRecord → UpgradeSession → UpgradeSession
  with_candidate c records session = record session {
    status = awaiting_candidate_approval;
    candidate_binding = given c;
    candidate_digest = c.candidate_tree_sha256;
    changed_file_records = records;
  }

  -- The candidate that the tests have passed, and the proposal to approve it.
  unfoldable pub propose_candidate :
      ℕ → Text → List ChangeRecord → Text → Exec Stage SessionError (Unit {0})
  unfolding candidate_for with_candidate candidate_proposal request_auth proposed
  propose_candidate now hex records report s =
      let c = candidate_for records report s in
      let (r, auths) =
        request_auth o.digest o.encode_detail o.policy now hex
          (candidate_proposal s.session.id (o.encode_candidate c)) s.world.auths in
      proposed r (record s {
        session = with_candidate c records s.session;
        world = record s.world { auths = auths };
      })

  -- After the tests: their report, unless they failed.
  unfoldable pub tested :
      ℕ → Text → List ChangeRecord → Option Text → Exec Stage SessionError (Unit {0})
  unfolding propose_candidate
  tested now hex records none s = (err tests_failed, s)
  tested now hex records (some report) s = propose_candidate now hex records report s

  unfoldable pub test_candidate :
      ℕ → Text → Result UpgradeError (List ChangeRecord) → Exec Stage SessionError (Unit {0})
  unfolding tested
  test_candidate now hex (err e) s = (err (upgrade e), s)
  test_candidate now hex (ok records) s = tested now hex records (o.run_tests s.world.repo) s

  -- The answer of the language model, written to the working copy and tested.
  unfoldable pub write_candidate : ℕ → Text → Exec Stage SessionError (Unit {0})
  unfolding prepare_changes test_candidate
  write_candidate now hex s =
      let repo = s.world.repo in
      let (r, written) = prepare_changes o.tools s.session.plan (o.answer s.session repo) repo in
      test_candidate now hex r (record s { world = record s.world { repo = written } })

  unfoldable pub generate : ℕ → Text → Exec Stage SessionError (Unit {0})
  unfolding save write_candidate
  generate now hex = do
    _ ← λ s. save (record s {
      session = record s.session { status = generating_candidate };
      world = record s.world { repo = o.staged s.session };
    })
    write_candidate now hex

  unfoldable pub after_consuming : ℕ → Text → Bool → Exec Stage SessionError (Unit {0})
  unfolding generate
  after_consuming now hex false = pure tt
  after_consuming now hex true = generate now hex

  unfoldable pub go_on : ℕ → Text → Bool → Exec Stage SessionError (Unit {0})
  unfolding consume_intent after_consuming
  go_on now hex false = pure tt
  go_on now hex true = do going ← consume_intent now; after_consuming now hex going

  unfoldable pub checked_intent :
      ℕ → Text → Result BindingError AuthStatus → Exec Stage SessionError (Unit {0})
  unfolding after_intent go_on
  checked_intent now hex (err e) = raise (binding e)
  checked_intent now hex (ok status) = do going ← after_intent status; go_on now hex going

  -- `_advance_candidate`.
  unfoldable pub advance_candidate : ℕ → Text → Exec Stage SessionError (Unit {0})
  unfolding check_auth checked_intent
  advance_candidate now hex s =
      checked_intent now hex
        (check_auth o.digest s.world.auths s.session.intent_auth_id
          (some (o.encode_plan s.session.plan)) now)
        s
