-- ===== src/Upgrade/ScopeTests.antt =====
-- Plans, paths and changes as the program treats them, and the theorem at these.
use agenelf.Upgrade.Advance.{request_payload, apply_request}
use agenelf.Upgrade.Create.{
  may_restart, readable, list_sessions, first_for, find_session_for_plan, intent_proposal,
  new_session, open_session, create_for, create_planned, create_or_get_session,
}
use agenelf.Base.{
  ◌≤◌, ◌≡◌, refl, Bool, true, false, not, ◌&&◌, Text, List, [], ◌∷◌, codes, any, length, ok, err,
  pos,
}
use agenelf.Operations.Requests.{find, read_json}
use agenelf.Operations.Lifetime.{clamp_int, whole_seconds}
use agenelf.Operations.Submit.{evaluated}
use agenelf.Permissions.Files.{is_file_name, has_passed, required_of, distinct}
use agenelf.Permissions.Check.{
  still_open, binding_fingerprint, expected_differs, check_binding, lacks_votes, check_decision,
  check_auth, claim, consume_auth,
}
use agenelf.Permissions.Propose.{
  count_undecided, count_pending, is_elevated, is_irreversible, at_least_one, effective_ttl,
  needs_two, bound_text, build_auth_request, request_auth,
}
use agenelf.Policy.Paths.{drop_leading}
use agenelf.Upgrade.Paths.{
  path_out_of_scope, with_slashes, ends_slash, drop_trailing_slashes, extend_part, split_path,
  join_path, real_parts, last_part, last_suffix, ends_dot, suffix_of, bare_path, under_forbidden,
  path_forbidden, matches_rule, path_matches, has_file_type, check_parts, validate_repo_path,
}
use agenelf.Upgrade.Plan.{
  Plan, Scope, app_runtime, tests, scope_name, scope_paths, stripped_in, is_default, is_docs,
  is_tests, has_pattern, select, normalized_goal, expand_allowed_paths, named_scopes,
  classify_scopes, make_plan,
}
use agenelf.Upgrade.Changes.{
  Tools, Repo, ChangeRecord, text_or_empty, ends_with_py, is_test_path, check_test, is_document,
  total_lines, put_text, build_record, check_content, check_change, check_changes, write_changes,
  check_records, prepare_changes,
}
use agenelf.Upgrade.Written.{pairs, last_text}
use agenelf.Upgrade.InScope.{AllInScope, prepare_changes-InScope}
use agenelf.Upgrade.Session.{
  binding_of, is_stamp, is_session_id, load_session, without, put_first, save, note, stop_after,
  close, fail_with, after_intent, after_candidate, candidate_proposal,
}
use agenelf.Upgrade.Advance.{
  reloaded, queue_request, checked_candidate, submit_candidate, submit_apply, apply_result,
  expected_of, poll_for, poll_apply, when_intent, when_candidate, when_queued, try_advance,
  recovered, returned, advance_loaded, advance_session,
}
use agenelf.Upgrade.Generate.{
  consumed_intent, proposed, consume_unless, consume_intent, candidate_for, with_candidate,
  propose_candidate, tested, test_candidate, write_candidate, generate, after_consuming, go_on,
  checked_intent, advance_candidate,
}

unfoldable pub program : Unit {0}
unfolding find read_json clamp_int whole_seconds evaluated is_file_name has_passed required_of
    distinct still_open binding_fingerprint expected_differs check_binding lacks_votes
    check_decision check_auth claim consume_auth count_undecided count_pending is_elevated
    is_irreversible at_least_one effective_ttl needs_two bound_text build_auth_request request_auth
    drop_leading with_slashes ends_slash drop_trailing_slashes extend_part split_path join_path
    real_parts last_part last_suffix ends_dot suffix_of bare_path under_forbidden path_forbidden
    matches_rule path_matches has_file_type check_parts validate_repo_path scope_name scope_paths
    stripped_in is_default is_docs is_tests has_pattern select normalized_goal expand_allowed_paths
    named_scopes classify_scopes make_plan text_or_empty ends_with_py is_test_path check_test
    is_document total_lines put_text build_record check_content check_change check_changes
    write_changes check_records prepare_changes without put_first binding_of is_stamp is_session_id
    load_session stop_after save note close fail_with after_intent after_candidate
    candidate_proposal consumed_intent proposed reloaded consume_unless consume_intent candidate_for
    with_candidate write_candidate propose_candidate tested test_candidate generate after_consuming
    go_on checked_intent advance_candidate queue_request checked_candidate submit_candidate
    submit_apply apply_result poll_for poll_apply when_intent when_candidate when_queued returned
    expected_of try_advance recovered advance_loaded advance_session request_payload apply_request
    may_restart readable list_sessions first_for find_session_for_plan intent_proposal new_session
    open_session create_for create_planned create_or_get_session
program = tt

abbrev pub mentions : Scope → Text → Bool
mentions s goal = false

abbrev pub print : Text → Text
print s = 7 ∷ s

abbrev pub plan : Plan
plan = record {
  goal = codes "faster start";
  goal_sha256 = 7 ∷ codes "faster start";
  scopes = app_runtime ∷ tests ∷ [];
  allowed_paths = codes "app/core/" ∷ codes "app/tests/" ∷ [];
  max_files = 2;
  max_changed_lines = 50;
  fingerprint = codes "p";
}

planned :
    make_plan mentions print
      (λ p. codes "p")
      (codes " faster   start ")
      (codes "app_runtime " ∷ [])
      (pos 2)
      (pos 3)
    ≡ ok plan
unfolding program
planned = refl

-- A directory whose name begins with a dot counts as the directory without it.
dotted_path :
    validate_repo_path (codes ".app/core/x.py") (codes "app/core/" ∷ [])
    ≡ ok (codes ".app/core/x.py")
unfolding program
dotted_path = refl

-- Neither is a hidden directory forbidden that is meant to be.
dotted_forbidden : path_forbidden (codes ".git/config") ≡ false
unfolding program
dotted_forbidden = refl

outside_path :
    validate_repo_path (codes "scripts/x.py") (codes "app/core/" ∷ []) ≡ err path_out_of_scope
unfolding program
outside_path = refl

abbrev pub tools : Tools
tools = record {
  is_valid = λ path s. true;
  hits_redline = λ s. false;
  changed_lines = λ before after. length after;
  digest = print;
}

abbrev pub repo : Repo
repo = record {
  baseline = (codes "app/core/a.py", 7 ∷ codes "old") ∷ [];
  texts = (codes "app/core/a.py", codes "old") ∷ [];
  leaves = λ path. false;
}

abbrev pub changes : List (Text × Text)
changes = (codes "./app//core/a.py", codes "new") ∷ (codes "app/tests/test_a.py", codes "t") ∷ []

abbrev pub records : List ChangeRecord
records =
    record {
      path = codes "app/core/a.py";
      before_sha256 = 7 ∷ codes "old";
      after_sha256 = 7 ∷ codes "new";
      changed_lines = 3;
      created = false;
    }
    ∷ record {
      path = codes "app/tests/test_a.py";
      before_sha256 = [];
      after_sha256 = 7 ∷ codes "t";
      changed_lines = 1;
      created = true;
    }
    ∷ []

abbrev changed_repo : Repo
changed_repo = record repo {
  texts = (codes "app/core/a.py", codes "new") ∷ (codes "app/tests/test_a.py", codes "t") ∷ [];
}

prepared : prepare_changes tools plan changes repo ≡ (ok records, changed_repo)
unfolding program
prepared = refl

prepare_changes-InScope_example :
    (length records ≡ length changes)
    × (1 ≤ length records)
    × (length records ≤ plan.max_files)
    × (total_lines records ≤ plan.max_changed_lines)
    × AllInScope tools plan repo changes records
    × ((any (λ r. not (is_document r)) records
          && not (any (λ (r : ChangeRecord). is_test_path r.path) records))
        ≡ false)
    × (changed_repo.baseline ≡ repo.baseline)
    × (changed_repo.leaves ≡ repo.leaves)
    × ((q : Text)
        → find q changed_repo.texts ≡ last_text q (pairs records changes) (find q repo.texts))
prepare_changes-InScope_example = prepare_changes-InScope tools plan changes repo prepared
