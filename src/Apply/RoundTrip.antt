-- ===== src/Apply/RoundTrip.antt =====
-- The runner accepts the request that a session queues (app/core/authorized_upgrade.py and
-- scripts/self_upgrade_runner.py).
use agenelf.Base.{
  ℕ, ◌≤◌, ◌≡◌, refl, sym, subst, ap, ◌∙◌, ◌⊎◌, inl, inr, Bool, true, false, Option, none, some,
  Text, List, [], ◌∷◌, ◌++◌, codes, text_eq, text_eq_refl, leb, length, arith, Result, ok, err,
}
use agenelf.Operations.Requests.{find, read_json}
use agenelf.Permissions.Check.{AuthStatus, BindingError}
use agenelf.Upgrade.Plan.{Scope, scope_name}
use agenelf.Upgrade.Changes.{ChangeRecord}
use agenelf.Upgrade.Session.{
  apply_queued, SessionError, Candidate, CandidateBinding, no_key, null, given, binding_of,
  UpgradeSession, ApplyRequest, Stage, put_first, is_session_id, load_session, save, note, Outside,
}
use agenelf.Upgrade.Advance.{
  request_payload, apply_request, queue_request, checked_candidate, submit_candidate, submit_apply,
}
use agenelf.Upgrade.Queue.{
  after_candidate-cases, with_request, queue_request-cases, checked_candidate-stopped,
  checked_candidate-went,
}
use agenelf.Apply.World.{
  require, list_eq, bool_eq, record_eq, records_eq, scope_eq, candidate_eq, binding_eq,
}
use agenelf.Apply.Validate.{can_apply, compare_session, validate_request}

list_eq_refl :
    {A : Type 0} (eq : A → A → Bool) (xs : List A)
    → ((x : A) → eq x x ≡ true)
    → list_eq eq xs xs ≡ true
unfolding list_eq
list_eq_refl eq [] same = refl
list_eq_refl eq (x ∷ xs) same = rw (same x) (list_eq_refl eq xs same)

bool_eq_refl : (b : Bool) → bool_eq b b ≡ true
unfolding bool_eq
bool_eq_refl true = refl
bool_eq_refl false = refl

record_eq_refl : (r : ChangeRecord) → record_eq r r ≡ true
unfolding record_eq
record_eq_refl r = ground (
  arith,
  text_eq_refl r.path,
  text_eq_refl r.before_sha256,
  text_eq_refl r.after_sha256,
  bool_eq_refl r.created,
)

records_eq_refl : (rs : List ChangeRecord) → records_eq rs rs ≡ true
unfolding records_eq
records_eq_refl rs = list_eq_refl record_eq rs record_eq_refl

scope_eq_refl : (s : Scope) → scope_eq s s ≡ true
unfolding scope_eq
scope_eq_refl s = text_eq_refl (scope_name s)

candidate_eq_refl : (c : Candidate) → candidate_eq c c ≡ true
unfolding candidate_eq
candidate_eq_refl c =
    rw
      (
        text_eq_refl c.session_id,
        text_eq_refl c.intent_auth_id,
        text_eq_refl c.goal_sha256,
        list_eq_refl scope_eq c.scopes scope_eq_refl,
        list_eq_refl text_eq c.allowed_paths text_eq_refl,
        records_eq_refl c.changed_files,
        text_eq_refl c.candidate_tree_sha256,
        text_eq_refl c.test_report_sha256,
        text_eq_refl c.baseline_manifest_sha256,
      )
      refl

binding_eq_refl : (c : Option Candidate) → binding_eq c c ≡ true
unfolding binding_eq
binding_eq_refl none = refl
binding_eq_refl (some c) = candidate_eq_refl c

module _ (o : Outside) where
  compare_session-same :
      (name : Text) (c : Option Candidate) (session later : UpgradeSession)
      → later.status ≡ apply_queued
      → later.intent_consumed ≡ true
      → later.intent_auth_id ≡ session.intent_auth_id
      → later.candidate_auth_id ≡ session.candidate_auth_id
      → binding_of later.candidate_binding ≡ c
      → later.changed_file_records ≡ session.changed_file_records
      → compare_session (apply_request o name c session) (some later) ≡ ok later
  unfolding compare_session apply_request request_payload require can_apply
  compare_session-same name c session later status consumed intent candidate binding records =
      rw
        (
          status,
          consumed,
          intent,
          candidate,
          binding,
          records,
          text_eq_refl session.intent_auth_id,
          text_eq_refl session.candidate_auth_id,
          binding_eq_refl c,
          records_eq_refl session.changed_file_records,
        )
        refl

  -- A request that is queued, and accepted while the session's file stays as it is.
  pub record Accepted (before after : Stage) : Type 0 where
    pub name : Text
    pub request : ApplyRequest
    pub queued : after.world.requests ≡ (name, some request) ∷ before.world.requests
    pub valid : validate_request o after.world.sessions request ≡ ok after.session

  name-fits : (hex : Text) → length hex ≤ 67 → leb (length (codes "self-upgrade-" ++ hex)) 80 ≡ true
  name-fits hex h = ground arith

  validate_request-same :
      (hex : Text) (c : Option Candidate) (session later : UpgradeSession)
      (sessions : List (Text × Option UpgradeSession))
      → length hex ≤ 67
      → load_session session.id sessions ≡ some later
      → compare_session (apply_request o (codes "self-upgrade-" ++ hex) c session) (some later)
        ≡ ok later
      → validate_request o sessions (apply_request o (codes "self-upgrade-" ++ hex) c session)
        ≡ ok later
  unfolding validate_request apply_request request_payload require
  validate_request-same hex c session later sessions fits loaded same =
      rw (name-fits hex fits, text_eq_refl (o.payload_digest (request_payload o c session)), loaded)
        same

  -- What is saved is loaded again.
  load_session-save :
      (s : Stage)
      → is_session_id s.session.id ≡ true
      → load_session s.session.id (save s).1.world.sessions ≡ some s.session
  unfolding load_session save put_first read_json find
  load_session-save s formed = rw (formed, text_eq_refl s.session.id) refl

  save_same :
      (s : Stage)
      → is_session_id s.session.id ≡ true
      → ((save s).1.session ≡ s.session) × ((save s).1.world.requests ≡ s.world.requests)
  unfolding save
  save_same s formed = rw formed (refl, refl)

  with_request-Accepted :
      (hex : Text) (c : Option Candidate) (s : Stage)
      → length hex ≤ 67
      → is_session_id s.session.id ≡ true
      → s.session.intent_consumed ≡ true
      → binding_of s.session.candidate_binding ≡ c
      → Accepted s (save (with_request o (codes "self-upgrade-" ++ hex) c s)).1
  unfolding note
  with_request-Accepted hex c s fits formed consumed bound =
      let name = codes "self-upgrade-" ++ hex in
      let t = with_request o name c s in
      let (session, requests) = save_same t formed in
      record {
        name = name;
        request = apply_request o name c s.session;
        queued = requests;
        valid =
            validate_request-same hex c s.session t.session (save t).1.world.sessions fits
              (load_session-save t formed)
              (compare_session-same name c s.session t.session refl consumed refl refl bound refl)
            ∙ ap ok (sym session);
      }

  queue_request-Accepted :
      (hex : Text) (c : Option Candidate) (s : Stage)
      → length hex ≤ 67
      → is_session_id s.session.id ≡ true
      → s.session.intent_consumed ≡ true
      → binding_of s.session.candidate_binding ≡ c
      → let t = (queue_request o (codes "self-upgrade-" ++ hex) c true s).1 in
        (t.world.requests ≡ s.world.requests) ⊎ Accepted s t
  queue_request-Accepted hex c s fits formed consumed bound =
      elim (queue_request-cases o (codes "self-upgrade-" ++ hex) c s) [
        | inl same ↦ inl same
        | inr wrote ↦ inr (
            subst (λ (m : Result SessionError (Unit {0}) × Stage). Accepted s m.1) (sym wrote)
              (with_request-Accepted hex c s fits formed consumed bound))
      ]

  checked_candidate-Accepted :
      (hex : Text) (c : Option Candidate) (r : Result BindingError AuthStatus) (s : Stage)
      → length hex ≤ 67
      → is_session_id s.session.id ≡ true
      → s.session.intent_consumed ≡ true
      → binding_of s.session.candidate_binding ≡ c
      → let t = (checked_candidate o hex c r s).1 in
        (t.world.requests ≡ s.world.requests) ⊎ Accepted s t
  unfolding checked_candidate
  checked_candidate-Accepted hex c (err e) s fits formed consumed bound = inl refl
  checked_candidate-Accepted hex c (ok status) s fits formed consumed bound =
      elim (after_candidate-cases status s) [
        | inl stopped ↦ inl (checked_candidate-stopped o hex c status s stopped)
        | inr (went, why) ↦
            rw (checked_candidate-went o hex c status s went)
              (queue_request-Accepted hex c s fits formed consumed bound)
      ]

  submit_candidate-Accepted :
      (now : ℕ) (hex : Text) (raw : CandidateBinding) (s : Stage)
      → length hex ≤ 67
      → is_session_id s.session.id ≡ true
      → s.session.intent_consumed ≡ true
      → s.session.candidate_binding ≡ raw
      → let t = (submit_candidate o now hex raw s).1 in
        (t.world.requests ≡ s.world.requests) ⊎ Accepted s t
  unfolding submit_candidate binding_of
  submit_candidate-Accepted now hex no_key s fits formed consumed bound = inl refl
  submit_candidate-Accepted now hex null s fits formed consumed bound =
      checked_candidate-Accepted hex none _ s fits formed consumed (ap binding_of bound)
  submit_candidate-Accepted now hex (given c) s fits formed consumed bound =
      checked_candidate-Accepted hex (some c) _ s fits formed consumed (ap binding_of bound)

  -- `_submit_apply` queues nothing, or a request that `validate_request` of the runner accepts, with
  -- the session as the step has saved it: for a session whose identifier has the form of one and
  -- whose intent was consumed, and a new name of at most 67 characters after its prefix.
  pub submit_apply-validate_request :
      (now : ℕ) (hex : Text) (s : Stage)
      → length hex ≤ 67
      → is_session_id s.session.id ≡ true
      → s.session.intent_consumed ≡ true
      → let t = (submit_apply o now hex s).1 in (t.world.requests ≡ s.world.requests) ⊎ Accepted s t
  unfolding submit_apply
  submit_apply-validate_request now hex s fits formed consumed =
      submit_candidate-Accepted now hex s.session.candidate_binding s fits formed consumed refl
