-- ===== src/Apply/Validate.antt =====
-- `validate_request` and `verify_candidate` of scripts/self_upgrade_runner.py.
use agenelf.Base.{
  ◌==◌, Bool, true, false, not, ◌&&◌, Option, none, some, Text, List, [], ◌∷◌, codes, text_eq,
  starts_with, is_empty, is_some, leb, length, if◌then◌else◌, Result, ok, err, bind,
}
use agenelf.Operations.Requests.{find}
use agenelf.Upgrade.Paths.{UpgradeError, validate_repo_path}
use agenelf.Upgrade.Changes.{ChangeRecord}
use agenelf.Upgrade.Session.{
  SessionStatus, awaiting_candidate_approval, apply_queued, Candidate, binding_of, UpgradeSession,
  ApplyRequest, load_session, Outside, current_schema_version,
}
use agenelf.Apply.Disk.{Store, WriteError, target_path}
use agenelf.Apply.World.{
  RunnerError, invalid_id, fingerprint_mismatch, unsupported_version, no_session, wrong_status,
  intent_not_consumed, intent_id_mismatch, candidate_id_mismatch, candidate_binding_mismatch,
  manifest_mismatch, binding_missing, candidate_repo_missing, tree_changed, tree_not_bound,
  path_refused, candidate_file_missing, candidate_redline, candidate_hash_mismatch, target_refused,
  stale_target, target_exists, RunnerWorld, require, records_eq, binding_eq,
}

unfoldable pub can_apply : SessionStatus → Bool
can_apply apply_queued = true
can_apply awaiting_candidate_approval = true
can_apply _ = false

-- The checks that compare a request with its session.
unfoldable pub compare_session :
    ApplyRequest → Option UpgradeSession → Result RunnerError UpgradeSession
unfolding require can_apply binding_of binding_eq records_eq
compare_session request none = err no_session
compare_session request (some session) =
    let payload = request.payload in
    bind (require (can_apply session.status) wrong_status) λ _.
      bind (require session.intent_consumed intent_not_consumed) λ _.
        bind (require (text_eq payload.intent_auth_id session.intent_auth_id) intent_id_mismatch)
          λ _.
            bind
              (require (text_eq payload.candidate_auth_id session.candidate_auth_id)
                candidate_id_mismatch)
              λ _.
                bind
                  (require
                    (binding_eq payload.candidate_binding (binding_of session.candidate_binding))
                    candidate_binding_mismatch)
                  λ _.
                    bind
                      (require (records_eq payload.changed_files session.changed_file_records)
                        manifest_mismatch)
                      λ _. ok session

module _ (o : Outside) where
  -- `validate_request`: the session, for a request that agrees with it.
  unfoldable pub validate_request :
      List (Text × Option UpgradeSession) → ApplyRequest → Result RunnerError UpgradeSession
  unfolding require compare_session load_session
  validate_request sessions request =
      bind
        (require (starts_with (codes "self-upgrade-") request.id && leb (length request.id) 80)
          invalid_id)
        λ _.
          bind
            (require (text_eq (o.payload_digest request.payload) request.fingerprint)
              fingerprint_mismatch)
            λ _.
              bind
                (require (request.payload.schema_version == current_schema_version)
                  unsupported_version)
                λ _. compare_session request (load_session request.payload.session_id sessions)

  -- The file of the working copy, its redlines and its hash.
  unfoldable pub check_body : Option Text → Bool → Text → Result RunnerError (Unit {0})
  unfolding require
  check_body none link after = err candidate_file_missing
  check_body (some body) link after = bind (require (not link) candidate_file_missing) λ _.
      bind (require (not (o.tools.hits_redline body)) candidate_redline)
        λ _. require (text_eq (o.tools.digest body) after) candidate_hash_mismatch

  unfoldable pub has_digest : Option Text → Text → Bool
  has_digest none wanted = false
  has_digest (some body) wanted = text_eq (o.tools.digest body) wanted

  -- What stands at the target is what the candidate was made from.
  unfoldable pub check_baseline : Text → Option Text → Result RunnerError (Unit {0})
  unfolding require has_digest
  check_baseline before there =
      if is_empty before
      then require (not (is_some there)) target_exists
      else require (has_digest there before) stale_target

  unfoldable pub check_target :
      Text → Result WriteError Text → Store → Result RunnerError (Unit {0})
  unfolding check_baseline
  check_target before (err e) targets = err (target_refused e)
  check_target before (ok path) targets = check_baseline before (targets path)

  module _ (resolve : Text → Option Text) where
    unfoldable pub check_at :
        RunnerWorld → ChangeRecord → Result UpgradeError Text → Result RunnerError (Unit {0})
    unfolding find check_body check_target target_path
    check_at w r (err e) = err (path_refused e)
    check_at w r (ok relative) =
        bind (check_body (find relative w.upgrade.repo.texts) (w.links relative) r.after_sha256)
          λ _. check_target r.before_sha256 (target_path resolve relative) w.disk.targets

    -- The loop over the records.
    unfoldable pub verify_records :
        RunnerWorld → List Text → List ChangeRecord → Result RunnerError (Unit {0})
    unfolding check_at validate_repo_path
    verify_records w allowed [] = ok tt
    verify_records w allowed (r ∷ rs) =
        bind (check_at w r (validate_repo_path r.path allowed)) λ _. verify_records w allowed rs

    unfoldable pub verify_bound :
        RunnerWorld
        → ApplyRequest
        → UpgradeSession
        → Option Candidate
        → Result RunnerError (Unit {0})
    unfolding require verify_records
    verify_bound w request session none = err binding_missing
    verify_bound w request session (some c) =
        bind
          (require (text_eq c.candidate_tree_sha256 (o.tree_digest w.upgrade.repo)) tree_not_bound)
          λ _. verify_records w session.plan.allowed_paths request.payload.changed_files

    unfoldable pub verify_candidate :
        RunnerWorld → ApplyRequest → UpgradeSession → Result RunnerError (Unit {0})
    unfolding require binding_of verify_bound
    verify_candidate w request session = bind (require w.mounted candidate_repo_missing) λ _.
        bind
          (require (text_eq (o.tree_digest w.upgrade.repo) request.payload.candidate_digest)
            tree_changed)
          λ _. verify_bound w request session (binding_of session.candidate_binding)
