-- ===== src/Apply/Checked.antt =====
-- What the checks of the runner establish (scripts/self_upgrade_runner.py).
use agenelf.Base.{
  ◌==◌, ◌≡◌, refl, sym, subst, Bool, true, false, ◌&&◌, Option, none, some, Text, List, [], ◌∷◌,
  codes, text_eq, text_eq_iff, starts_with, all, leb, length, arith, Result, ok, err, bind-eq-ok,
  ap, Bool-cases, inl, inr,
}
use agenelf.Operations.Requests.{read_json}
use agenelf.Upgrade.Paths.{UpgradeError, validate_repo_path}
use agenelf.Upgrade.Changes.{ChangeRecord}
use agenelf.Upgrade.Session.{
  Candidate, given, binding_of, UpgradeSession, ApplyRequest, Outside, current_schema_version,
  is_session_id, load_session,
}
use agenelf.Apply.World.{
  RunnerError, invalid_id, fingerprint_mismatch, unsupported_version, wrong_status,
  intent_not_consumed, intent_id_mismatch, candidate_id_mismatch, candidate_binding_mismatch,
  manifest_mismatch, candidate_repo_missing, tree_changed, tree_not_bound, RunnerWorld, require,
  list_eq, bool_eq, record_eq, records_eq, binding_eq,
}
use agenelf.Apply.Validate.{
  can_apply, compare_session, validate_request, check_at, verify_records, verify_bound,
  verify_candidate,
}

unfoldable pub is_ok : {E A : Type 0} → Result E A → Bool
is_ok (ok a) = true
is_ok (err e) = false

-- Is the path of a record one that the plan allows?
unfoldable pub in_scope : List Text → ChangeRecord → Bool
unfolding is_ok
in_scope allowed r = is_ok (validate_repo_path r.path allowed)

pub require-ok : (b : Bool) (e : RunnerError) → require b e ≡ ok tt → b ≡ true
unfolding require
require-ok true e h = refl
require-ok false e h = ground arith

bool_eq-same : (a b : Bool) → bool_eq a b ≡ true → a ≡ b
unfolding bool_eq
bool_eq-same true b h = sym h
bool_eq-same false true h = h
bool_eq-same false false h = refl

record_eq-same : (r s : ChangeRecord) → record_eq r s ≡ true → r ≡ s
unfolding record_eq
record_eq-same r s h =
    let p : r.path ≡ s.path = (text_eq_iff r.path s.path).0 (ground arith) in
    let b : r.before_sha256 ≡ s.before_sha256 =
      (text_eq_iff r.before_sha256 s.before_sha256).0 (ground arith) in
    let a : r.after_sha256 ≡ s.after_sha256 =
      (text_eq_iff r.after_sha256 s.after_sha256).0 (ground arith) in
    let l : r.changed_lines ≡ s.changed_lines = ground arith in
    let c : r.created ≡ s.created = bool_eq-same r.created s.created (ground arith) in
    λ i. record {
      path = p i;
      before_sha256 = b i;
      after_sha256 = a i;
      changed_lines = l i;
      created = c i;
    }

records_eq-same : (rs ss : List ChangeRecord) → records_eq rs ss ≡ true → rs ≡ ss
unfolding records_eq list_eq
records_eq-same [] [] h = refl
records_eq-same [] (s ∷ ss) h = ground arith
records_eq-same (r ∷ rs) [] h = ground arith
records_eq-same (r ∷ rs) (s ∷ ss) h =
    let first : r ≡ s = record_eq-same r s (ground arith) in
    let rest : rs ≡ ss = records_eq-same rs ss (ground arith) in λ i. first i ∷ rest i

-- A request that agrees with its session.
pub record Agrees (request : ApplyRequest) (session : UpgradeSession) : Type 0 where
  pub status : can_apply session.status ≡ true
  pub consumed : session.intent_consumed ≡ true
  pub intent : request.payload.intent_auth_id ≡ session.intent_auth_id
  pub candidate : request.payload.candidate_auth_id ≡ session.candidate_auth_id
  pub records : request.payload.changed_files ≡ session.changed_file_records

compare_session-Agrees :
    (request : ApplyRequest) (loaded : Option UpgradeSession) (session : UpgradeSession)
    → compare_session request loaded ≡ ok session
    → (loaded ≡ some session) × Agrees request session
unfolding compare_session
compare_session-Agrees request none session h = ground arith
compare_session-Agrees request (some loaded) session h =
    let p = request.payload in
    let (u, status, h2) = bind-eq-ok (require (can_apply loaded.status) wrong_status) _ h in
    let (u, consumed, h3) = bind-eq-ok (require loaded.intent_consumed intent_not_consumed) _ h2 in
    let (u, intent, h4) =
      bind-eq-ok (require (text_eq p.intent_auth_id loaded.intent_auth_id) intent_id_mismatch) _
        h3 in
    let (u, candidate, h5) =
      bind-eq-ok
        (require (text_eq p.candidate_auth_id loaded.candidate_auth_id) candidate_id_mismatch) _
        h4 in
    let (u, binding, h6) =
      bind-eq-ok
        (require (binding_eq p.candidate_binding (binding_of loaded.candidate_binding))
          candidate_binding_mismatch)
        _ h5 in
    let (u, records, h7) =
      bind-eq-ok
        (require (records_eq p.changed_files loaded.changed_file_records) manifest_mismatch) _ h6 in
    let same : loaded ≡ session = ground arith in
    subst (λ (s : UpgradeSession). (some loaded ≡ some s) × Agrees request s) same
      (
        refl,
        record {
          status = require-ok (can_apply loaded.status) wrong_status status;
          consumed = require-ok loaded.intent_consumed intent_not_consumed consumed;
          intent =
              (text_eq_iff p.intent_auth_id loaded.intent_auth_id).0
                (require-ok _ intent_id_mismatch intent);
          candidate =
              (text_eq_iff p.candidate_auth_id loaded.candidate_auth_id).0
                (require-ok _ candidate_id_mismatch candidate);
          records =
              records_eq-same p.changed_files loaded.changed_file_records
                (require-ok _ manifest_mismatch records);
        },
      )

load_session-some :
    (id : Text) (sessions : List (Text × Option UpgradeSession)) (session : UpgradeSession)
    → load_session id sessions ≡ some session
    → read_json id sessions ≡ some session
unfolding load_session
load_session-some id sessions session h = elim (Bool-cases (is_session_id id)) [
  | inl formed ↦ ground arith
  | inr ill ↦ ground arith
]

module _ (o : Outside) where
  pub validate_request-Agrees :
      (sessions : List (Text × Option UpgradeSession)) (request : ApplyRequest)
      (session : UpgradeSession)
      → validate_request o sessions request ≡ ok session
      → (read_json request.payload.session_id sessions ≡ some session) × Agrees request session
  unfolding validate_request
  validate_request-Agrees sessions request session h =
      let (u, named, h2) =
        bind-eq-ok
          (require (starts_with (codes "self-upgrade-") request.id && leb (length request.id) 80)
            invalid_id)
          _ h in
      let (u, printed, h3) =
        bind-eq-ok
          (require (text_eq (o.payload_digest request.payload) request.fingerprint)
            fingerprint_mismatch)
          _ h2 in
      let (u, version, h4) =
        bind-eq-ok
          (require (request.payload.schema_version == current_schema_version) unsupported_version) _
          h3 in
      let (loaded, agrees) =
        compare_session-Agrees request (load_session request.payload.session_id sessions) session
          h4 in
      (load_session-some request.payload.session_id sessions session loaded, agrees)

  module _ (resolve : Text → Option Text) where
    check_at-valid :
        (w : RunnerWorld) (r : ChangeRecord) (path : Result UpgradeError Text)
        → check_at o resolve w r path ≡ ok tt
        → is_ok path ≡ true
    unfolding check_at is_ok
    check_at-valid w r (err e) h = ground arith
    check_at-valid w r (ok relative) h = refl

    pub verify_records-in_scope :
        (w : RunnerWorld) (allowed : List Text) (rs : List ChangeRecord)
        → verify_records o resolve w allowed rs ≡ ok tt
        → all (in_scope allowed) rs ≡ true
    unfolding verify_records in_scope
    verify_records-in_scope w allowed [] h = refl
    verify_records-in_scope w allowed (r ∷ rs) h =
        let (u, first, rest) =
          bind-eq-ok (check_at o resolve w r (validate_repo_path r.path allowed)) _ h in
        rw (check_at-valid w r (validate_repo_path r.path allowed) first)
          (verify_records-in_scope w allowed rs rest)

    pub verify_bound-ok :
        (w : RunnerWorld) (request : ApplyRequest) (session : UpgradeSession) (c : Candidate)
        → verify_bound o resolve w request session (some c) ≡ ok tt
        → (c.candidate_tree_sha256 ≡ o.tree_digest w.upgrade.repo)
          × (verify_records o resolve w session.plan.allowed_paths request.payload.changed_files
              ≡ ok tt)
    unfolding verify_bound
    verify_bound-ok w request session c h =
        let (u, tree, rest) =
          bind-eq-ok
            (require (text_eq c.candidate_tree_sha256 (o.tree_digest w.upgrade.repo))
              tree_not_bound)
            _ h in
        (
          (text_eq_iff c.candidate_tree_sha256 (o.tree_digest w.upgrade.repo)).0
              (require-ok _ tree_not_bound tree),
          rest,
        )

    -- The tree is the one in the binding, and every record was checked.
    pub verify_candidate-ok :
        (w : RunnerWorld) (request : ApplyRequest) (session : UpgradeSession) (c : Candidate)
        → session.candidate_binding ≡ given c
        → verify_candidate o resolve w request session ≡ ok tt
        → (c.candidate_tree_sha256 ≡ o.tree_digest w.upgrade.repo)
          × (verify_records o resolve w session.plan.allowed_paths request.payload.changed_files
              ≡ ok tt)
    unfolding verify_candidate binding_of
    verify_candidate-ok w request session c bound h =
        let (u, mounted, h2) = bind-eq-ok (require w.mounted candidate_repo_missing) _ h in
        let (u, same, h3) =
          bind-eq-ok
            (require (text_eq (o.tree_digest w.upgrade.repo) request.payload.candidate_digest)
              tree_changed)
            _ h2 in
        verify_bound-ok w request session c (
          subst (λ (b : Option Candidate). verify_bound o resolve w request session b ≡ ok tt)
            (ap binding_of bound) h3)
