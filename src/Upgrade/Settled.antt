-- ===== src/Upgrade/Settled.antt =====
-- The steps of a session that leave the requests to the runner and the authorizations as they are
-- (app/core/authorized_upgrade.py).
use agenelf.Base.{
  ◌≡◌, refl, Bool, true, false, Option, none, some, Text, inl, inr, Bool-cases, if◌then◌else◌,
}
use agenelf.Upgrade.Session.{
  SessionStatus, apply_queued, failed, restart_required, succeeded, apply_succeeded, apply_failed,
  runner_failed, SessionEvent, SessionFailure, ApplyResult, UpgradeWorld, Stage, is_session_id,
  save, note, close, fail_with, Outside,
}
use agenelf.Upgrade.Advance.{reloaded, apply_result, poll_for, poll_apply, when_queued}

-- The same requests and authorizations.
pub record IsSettled (before after : UpgradeWorld) : Type 0 where
  pub requests : after.requests ≡ before.requests
  pub auths : after.auths ≡ before.auths

pub IsSettled-refl : (w : UpgradeWorld) → IsSettled w w
IsSettled-refl w = record { requests = refl; auths = refl }

pub save-IsSettled : (s : Stage) → IsSettled s.world (save s).1.world
unfolding save
save-IsSettled s = elim (Bool-cases (is_session_id s.session.id)) [
  | inl e ↦ rw e (record { requests = refl; auths = refl })
  | inr e ↦ rw e (IsSettled-refl s.world)
]

pub close-IsSettled :
    (st : SessionStatus) (e : SessionEvent) (s : Stage) → IsSettled s.world (close st e s).1.world
unfolding close
close-IsSettled st e s =
    save-IsSettled (record s { session = record (note e s.session) { status = st } })

reloaded-IsSettled : (restart : Bool) (s : Stage) → IsSettled s.world (reloaded restart s).1.world
unfolding reloaded
reloaded-IsSettled restart s = save-IsSettled (record s {
  session = record s.session { status = if restart then restart_required else succeeded };
})

pub fail_with-IsSettled :
    (f : SessionFailure) (s : Stage) → IsSettled s.world (fail_with f s).1.world
unfolding fail_with
fail_with-IsSettled f s =
    save-IsSettled (record s { session = record s.session { status = failed; failure = some f } })

module _ (o : Outside) where
  ended-IsSettled :
      (succeeded restart : Bool) (s : Stage)
      → IsSettled s.world
          (if succeeded
            then reloaded restart (record s { session = note apply_succeeded s.session })
            else close failed apply_failed
                (record s { session = record s.session { failure = some runner_failed } })).1.world
  ended-IsSettled true restart s =
      reloaded-IsSettled restart (record s { session = note apply_succeeded s.session })
  ended-IsSettled false restart s =
      close-IsSettled failed apply_failed
        (record s { session = record s.session { failure = some runner_failed } })

  apply_result-IsSettled :
      (r : Option ApplyResult) (s : Stage) → IsSettled s.world (apply_result o r s).1.world
  unfolding apply_result
  apply_result-IsSettled none s = IsSettled-refl s.world
  apply_result-IsSettled (some r) s =
      ended-IsSettled r.succeeded (if r.restart_required then true else o.reload_fails r) s

  poll_for-IsSettled : (id : Option Text) (s : Stage) → IsSettled s.world (poll_for o id s).1.world
  unfolding poll_for
  poll_for-IsSettled none s = IsSettled-refl s.world
  poll_for-IsSettled (some id) s = apply_result-IsSettled _ s

  pub when_queued-IsSettled :
      (st : SessionStatus) (s : Stage) → IsSettled s.world (when_queued o st s).1.world
  unfolding when_queued poll_apply
  when_queued-IsSettled apply_queued s = poll_for-IsSettled _ s
  when_queued-IsSettled _ s = IsSettled-refl s.world
