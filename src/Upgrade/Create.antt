-- ===== src/Upgrade/Create.antt =====
-- `list_sessions`, `find_session_for_plan` and `create_or_get_session` of
-- app/core/authorized_upgrade.py. The files of the sessions come newest first.
use agenelf.Base.{
  ℕ, ◌≡◌, refl, sym, ap, ◌∙◌, Bool, true, false, not, ◌&&◌, Option, none, some, Text, List, [], ◌∷◌,
  ◌++◌, codes, text_eq, text_eq_refl, take, arith, ℤ, pos, Result-cases, inl, inr, if◌then◌else◌,
  Result, ok, err, bind, Bool-cases,
}
use agenelf.Permissions.Propose.{ProposeError, Proposal, request_auth}
use agenelf.Upgrade.Paths.{UpgradeError}
use agenelf.Upgrade.Plan.{Plan, Scope, make_plan}
use agenelf.Upgrade.Session.{
  SessionStatus, awaiting_intent_approval, denied, expired, failed, unknown_status, SessionError,
  upgrade, proposal, UpgradeSession, UpgradeWorld, Outside, intent_created, put_first, no_key, save,
  is_session_id,
}

-- Has a session ended in a way that lets its plan begin again?
unfoldable pub may_restart : SessionStatus → Bool
may_restart denied = true
may_restart expired = true
may_restart failed = true
may_restart (unknown_status name) = text_eq name (codes "rolled_back")
may_restart _ = false

unfoldable pub readable : List (Text × Option UpgradeSession) → List UpgradeSession
readable [] = []
readable ((name, none) ∷ files) = readable files
readable ((name, some session) ∷ files) = session ∷ readable files

unfoldable pub list_sessions : ℕ → UpgradeWorld → List UpgradeSession
unfolding readable
list_sessions limit w = readable (take limit w.sessions)

unfoldable pub first_for : Text → List UpgradeSession → Option UpgradeSession
unfolding may_restart
first_for fingerprint [] = none
first_for fingerprint (s ∷ ss) =
    let rest = first_for fingerprint ss in
    if text_eq s.plan_fingerprint fingerprint && not (may_restart s.status) then some s else rest

unfoldable pub find_session_for_plan : Plan → UpgradeWorld → Option UpgradeSession
unfolding first_for list_sessions
find_session_for_plan plan w = first_for plan.fingerprint (list_sessions 100 w)

-- The proposal of `_request_intent`.
unfoldable pub intent_proposal : Plan → Text → Proposal
intent_proposal plan encoded = record {
  skill = codes "authorized_self_upgrade";
  action = codes "authorize_upgrade_intent";
  detail = codes "允许 Agenelf 按精确范围升级：" ++ plan.goal;
  reason = codes "主人确认升级意图、路径范围和规模上限后才允许生成候选";
  ttl_seconds = pos 900;
  binding = some encoded;
  operation = codes "owner_authorized_self_upgrade_intent";
  capability = codes "agent.authorized_self_upgrade";
  channel = codes "cli";
}

unfoldable pub new_session : Text → Plan → Text → UpgradeSession
new_session id plan auth_id = record {
  id = id;
  status = awaiting_intent_approval;
  plan = plan;
  plan_fingerprint = plan.fingerprint;
  intent_auth_id = auth_id;
  intent_consumed = false;
  candidate_binding = no_key;
  candidate_digest = [];
  changed_file_records = [];
  candidate_auth_id = [];
  apply_request_id = none;
  failure = none;
  events = intent_created ∷ [];
}

-- The session file that is written first; its name is given.
unfoldable pub open_session :
    Text
    → Plan
    → Result ProposeError Text
    → UpgradeWorld
    → Result SessionError UpgradeSession × UpgradeWorld
unfolding new_session save
open_session id plan (err e) w = (err (proposal e), w)
open_session id plan (ok auth_id) w =
    let session = new_session id plan auth_id in
    let (r, s) = save (record { session = session; world = w }) in (bind r λ _. ok session, s.world)

open_session-find :
    (id : Text) (plan : Plan) (r : Result ProposeError Text) (w : UpgradeWorld)
    {session : UpgradeSession} {w' : UpgradeWorld}
    → open_session id plan r w ≡ (ok session, w')
    → find_session_for_plan plan w' ≡ some session
unfolding open_session save new_session find_session_for_plan list_sessions readable first_for
    may_restart put_first
open_session-find id plan (err e) w h = ground arith
open_session-find id plan (ok auth_id) w {session = session} h =
    elim (Bool-cases (is_session_id id)) [
      | inr ill ↦ ground arith
      | inl formed ↦
          let opened = new_session id plan auth_id in
          let wrote : (ok opened, record w { sessions = put_first id opened w.sessions })
              ≡ open_session id plan (ok auth_id) w =
            rw formed refl in
          let after =
            ap (λ (x : Result SessionError UpgradeSession × UpgradeWorld). x.1) (wrote ∙ h) in
          let same : opened ≡ session = ground (
            arith,
            ap (λ (x : Result SessionError UpgradeSession × UpgradeWorld). x.0) (wrote ∙ h),
          ) in
          ap (find_session_for_plan plan) (sym after)
          ∙ rw (text_eq_refl plan.fingerprint) (ap some same)
    ]

module _ (mentions : Scope → Text → Bool) (plan_digest : Plan → Text) (o : Outside) where
  unfoldable pub create_for :
      ℕ
      → Text
      → Text
      → Plan
      → Option UpgradeSession
      → UpgradeWorld
      → Result SessionError UpgradeSession × UpgradeWorld
  unfolding request_auth intent_proposal open_session
  create_for now hex id plan (some existing) w = (ok existing, w)
  create_for now hex id plan none w =
      let (r, auths) =
        request_auth o.digest o.encode_detail o.policy now hex
          (intent_proposal plan (o.encode_plan plan)) w.auths in
      open_session id plan r (record w { auths = auths })

  unfoldable pub create_planned :
      ℕ
      → Text
      → Text
      → Result UpgradeError Plan
      → UpgradeWorld
      → Result SessionError UpgradeSession × UpgradeWorld
  unfolding find_session_for_plan create_for
  create_planned now hex id (err e) w = (err (upgrade e), w)
  create_planned now hex id (ok plan) w =
      create_for now hex id plan (find_session_for_plan plan w) w

  unfoldable pub create_or_get_session :
      ℕ
      → Text
      → Text
      → Text
      → List Text
      → ℤ
      → ℤ
      → UpgradeWorld
      → Result SessionError UpgradeSession × UpgradeWorld
  unfolding make_plan create_planned
  create_or_get_session now hex id goal scopes max_files max_changed_lines w =
      create_planned now hex id
        (make_plan mentions o.digest plan_digest goal scopes max_files max_changed_lines) w

  create_for-again :
      (now : ℕ) (hex id : Text) (plan : Plan) (existing : Option UpgradeSession) (w : UpgradeWorld)
      {session : UpgradeSession} {w' : UpgradeWorld}
      → find_session_for_plan plan w ≡ existing
      → create_for now hex id plan existing w ≡ (ok session, w')
      → find_session_for_plan plan w' ≡ some session
  unfolding create_for
  create_for-again now hex id plan (some existing) w found h =
      let after = ap (λ (x : Result SessionError UpgradeSession × UpgradeWorld). x.1) h in
      ap (find_session_for_plan plan) (sym after) ∙ found ∙ ground arith
  create_for-again now hex id plan none w found h = open_session-find id plan _ _ h

  -- A second call for the same goal, scopes and limits, in the files as the first call left them,
  -- finds the session of the first one: it returns that session, asks for no second authorization
  -- and changes nothing.
  pub create_or_get_session-again :
      (now later : ℕ) (hex hex' id id' : Text) (goal : Text) (scopes : List Text)
      (max_files max_changed_lines : ℤ) (w : UpgradeWorld) (session : UpgradeSession)
      (w' : UpgradeWorld)
      → create_or_get_session now hex id goal scopes max_files max_changed_lines w
        ≡ (ok session, w')
      → create_or_get_session later hex' id' goal scopes max_files max_changed_lines w'
        ≡ (ok session, w')
  unfolding create_or_get_session create_planned create_for
  create_or_get_session-again now later hex hex' id id' goal scopes max_files max_changed_lines w
        session w' h =
      elim (Result-cases
        (make_plan mentions o.digest plan_digest goal scopes max_files max_changed_lines)) [
          | inr (e, bad) ↦ ground arith
          | inl (plan, made) ↦
              let first : create_for now hex id plan (find_session_for_plan plan w) w
                  ≡ (ok session, w') =
                sym (ap (λ r. create_planned now hex id r w) made) ∙ h in
              rw made (
                rw (create_for-again now hex id plan (find_session_for_plan plan w) w refl first)
                  refl)
        ]
