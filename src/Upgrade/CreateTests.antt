-- ===== src/Upgrade/CreateTests.antt =====
-- A session that is created, and the theorem at that session.
use agenelf.Base.{◌≡◌, refl, false, none, Text, [], ◌∷◌, codes, ok, pos}
use agenelf.Upgrade.Plan.{Plan}
use agenelf.Upgrade.Session.{
  awaiting_intent_approval, no_key, intent_created, UpgradeSession, UpgradeWorld,
}
use agenelf.Upgrade.Create.{create_or_get_session, create_or_get_session-again}
use agenelf.Upgrade.Tests.{outside, world}
use agenelf.Upgrade.ScopeTests.{program, mentions, plan}

abbrev plan_print : Plan → Text
plan_print p = 9 ∷ p.goal

abbrev second_name : Text
second_name = codes "upgrade-20260102-030406-00000002"

abbrev third_name : Text
third_name = codes "upgrade-20260102-030407-00000003"

abbrev opened : UpgradeSession
opened = record {
  id = second_name;
  status = awaiting_intent_approval;
  plan = record plan { fingerprint = 9 ∷ codes "faster start" };
  plan_fingerprint = 9 ∷ codes "faster start";
  intent_auth_id = codes "auth-00112233aabb";
  intent_consumed = false;
  candidate_binding = no_key;
  candidate_digest = [];
  changed_file_records = [];
  candidate_auth_id = [];
  apply_request_id = none;
  failure = none;
  events = intent_created ∷ [];
}

abbrev created_world : UpgradeWorld
created_world =
    (create_or_get_session mentions plan_print outside 5000000 (codes "00112233aabb") second_name
      (codes "faster start") (codes "app_runtime" ∷ []) (pos 2) (pos 3) world).1

created :
    create_or_get_session mentions plan_print outside 5000000
      (codes "00112233aabb")
      second_name
      (codes "faster start")
      (codes "app_runtime" ∷ [])
      (pos 2)
      (pos 3)
      world
    ≡ (ok opened, created_world)
unfolding program
created = refl

create_or_get_session-again_example :
    create_or_get_session mentions plan_print outside 9000000
      (codes "ffffffffffff")
      third_name
      (codes "faster start")
      (codes "app_runtime" ∷ [])
      (pos 2)
      (pos 3)
      created_world
    ≡ (ok opened, created_world)
create_or_get_session-again_example =
    create_or_get_session-again mentions plan_print outside 5000000 9000000 (codes "00112233aabb")
      (codes "ffffffffffff") second_name third_name (codes "faster start")
      (codes "app_runtime" ∷ []) (pos 2) (pos 3) world opened created_world created
