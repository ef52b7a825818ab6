-- ===== src/Upgrade/Keep.antt =====
-- The steps of a session before its candidate is approved leave the requests to the runner as they
-- are (app/core/authorized_upgrade.py), and set the binding of the candidate to no null.
use agenelf.Base.{
  ℕ, ◌≡◌, refl, ◌∙◌, Bool, true, false, Option, none, some, Text, List, ◌⊎◌, inl, inr, Bool-cases,
  Result-cases, if◌then◌else◌, Result, ok, err, Exec, ◌>>=◌,
}
use agenelf.Permissions.Check.{AuthStatus, BindingError, consume_auth}
use agenelf.Permissions.Propose.{ProposeError, request_auth}
use agenelf.Upgrade.Paths.{UpgradeError}
use agenelf.Upgrade.Changes.{ChangeRecord, prepare_changes}
use agenelf.Upgrade.Session.{
  SessionStatus, awaiting_intent_approval, SessionEvent, SessionFailure, SessionError, Candidate,
  given, denied, expired, intent_denied, intent_expired, intent_mismatch, candidate_proposal,
  failed, generating_candidate, candidate_ready, intent_used, Stage, is_session_id, save, note,
  stop_after, close, fail_with, after_intent, Outside,
}
use agenelf.Upgrade.Advance.{when_intent}
use agenelf.Upgrade.Generate.{
  consumed_intent, proposed, consume_unless, consume_intent, candidate_for, with_candidate,
  propose_candidate, tested, test_candidate, write_candidate, generate, after_consuming, go_on,
  checked_intent, advance_candidate,
}

pub record Kept (s t : Stage) : Type 0 where
  pub requests : t.world.requests ≡ s.world.requests
  pub bound :
      (t.session.candidate_binding ≡ s.session.candidate_binding)
      ⊎ ((c : Candidate) × (t.session.candidate_binding ≡ given c))

Kept-refl : (s : Stage) → Kept s s
Kept-refl s = record { requests = refl; bound = inl refl }

bound_trans :
    {s t u : Stage}
    → Kept s t
    → Kept t u
    → (u.session.candidate_binding ≡ s.session.candidate_binding)
      ⊎ ((c : Candidate) × (u.session.candidate_binding ≡ given c))
bound_trans k l = elim l.bound [
  | inr set ↦ inr set
  | inl same ↦ elim k.bound [ inl before ↦ inl (same ∙ before) | inr (c, e) ↦ inr (c, same ∙ e) ]
]

Kept-trans : {s t u : Stage} → Kept s t → Kept t u → Kept s u
Kept-trans k l = record { requests = l.requests ∙ k.requests; bound = bound_trans k l }

abbrev Keeps : {A : Type 0} → Exec Stage SessionError A → Type 0
Keeps m = (s : Stage) → Kept s (m s).1

module _ {A B : Type 0} where
  Keeps-bind :
      (m : Exec Stage SessionError A) (k : A → Exec Stage SessionError B)
      → Keeps m
      → ((a : A) → Keeps (k a))
      → Keeps (m >>= k)
  Keeps-bind m k first then_next s = elim (Result-cases (m s).0) [
    | inl (a, e) ↦ rw e (Kept-trans (first s) (then_next a (m s).1))
    | inr (x, e) ↦ rw e (first s)
  ]

save-Keeps : Keeps save
unfolding save
save-Keeps s = elim (Bool-cases (is_session_id s.session.id)) [
  | inl e ↦ rw e (record { requests = refl; bound = inl refl })
  | inr e ↦ rw e (Kept-refl s)
]

-- What is written with another session, or other files, that keep these.
save-Kept : (s t : Stage) → Kept s t → Kept s (save t).1
save-Kept s t k = Kept-trans k (save-Keeps t)

close-Keeps : (st : SessionStatus) (e : SessionEvent) → Keeps (close st e)
unfolding close note
close-Keeps st e s =
    save-Kept s (record s { session = record (note e s.session) { status = st } })
      (record { requests = refl; bound = inl refl })

fail_with-Keeps : (f : SessionFailure) → Keeps (fail_with f)
unfolding fail_with
fail_with-Keeps f s =
    save-Kept s (record s { session = record s.session { status = failed; failure = some f } })
      (record { requests = refl; bound = inl refl })

stop_after-Keeps : (m : Exec Stage SessionError (Unit {0})) → Keeps m → Keeps (stop_after m)
unfolding stop_after
stop_after-Keeps m keeps = Keeps-bind m _ keeps (λ u s. Kept-refl s)

unless-Kept :
    (b : Bool) (f : SessionFailure) (s : Stage)
    → Kept s (if b then (ok true, s) else stop_after (fail_with f) s).1
unless-Kept true f s = Kept-refl s
unless-Kept false f s = stop_after-Keeps _ (fail_with-Keeps f) s

after_intent-Keeps : (a : AuthStatus) → Keeps (after_intent a)
unfolding after_intent
after_intent-Keeps AuthStatus.denied s =
    stop_after-Keeps (close denied intent_denied) (close-Keeps denied intent_denied) s
after_intent-Keeps AuthStatus.pending s = Kept-refl s
after_intent-Keeps AuthStatus.not_found s = Kept-refl s
after_intent-Keeps AuthStatus.expired s =
    stop_after-Keeps (close expired intent_expired) (close-Keeps expired intent_expired) s
after_intent-Keeps AuthStatus.used s = unless-Kept s.session.intent_consumed _ s
after_intent-Keeps AuthStatus.binding_mismatch s =
    stop_after-Keeps (fail_with intent_mismatch) (fail_with-Keeps intent_mismatch) s
after_intent-Keeps AuthStatus.approved s = Kept-refl s

consumed_intent-Keeps : (r : Result BindingError Bool) → Keeps (consumed_intent r)
unfolding consumed_intent note
consumed_intent-Keeps (err e) = λ s. Kept-refl s
consumed_intent-Keeps (ok false) = stop_after-Keeps _ (fail_with-Keeps _)
consumed_intent-Keeps (ok true) =
    Keeps-bind _ _
      (λ s.
        save-Kept s
          (record s { session = record (note intent_used s.session) { intent_consumed = true } })
          (record { requests = refl; bound = inl refl }))
      (λ u s. Kept-refl s)

proposed-Keeps : (r : Result ProposeError Text) → Keeps (proposed r)
unfolding proposed note
proposed-Keeps (err e) s = Kept-refl s
proposed-Keeps (ok id) s =
    save-Kept s
      (record s { session = record (note candidate_ready s.session) { candidate_auth_id = id } })
      (record { requests = refl; bound = inl refl })

module _ (o : Outside) where
  consume_unless-Keeps : (b : Bool) (now : ℕ) → Keeps (consume_unless o b now)
  unfolding consume_unless
  consume_unless-Keeps true now s = Kept-refl s
  consume_unless-Keeps false now s =
      let (r, auths) =
        consume_auth o.digest s.world.auths s.session.intent_auth_id
          (some (o.encode_plan s.session.plan)) now in
      let t : Stage = record s { world = record s.world { auths = auths } } in
      Kept-trans {t = t} (record { requests = refl; bound = inl refl }) (consumed_intent-Keeps r t)

  propose_candidate-Keeps :
      (now : ℕ) (hex : Text) (records : List ChangeRecord) (report : Text)
      → Keeps (propose_candidate o now hex records report)
  unfolding propose_candidate with_candidate
  propose_candidate-Keeps now hex records report s =
      let c = candidate_for o records report s in
      let (r, auths) =
        request_auth o.digest o.encode_detail o.policy now hex
          (candidate_proposal s.session.id (o.encode_candidate c)) s.world.auths in
      let t : Stage = record s {
        session = with_candidate o c records s.session;
        world = record s.world { auths = auths };
      } in
      Kept-trans {t = t} (record { requests = refl; bound = inr (c, refl) }) (proposed-Keeps r t)

  tested-Keeps :
      (now : ℕ) (hex : Text) (records : List ChangeRecord) (report : Option Text)
      → Keeps (tested o now hex records report)
  unfolding tested
  tested-Keeps now hex records none s = Kept-refl s
  tested-Keeps now hex records (some report) s = propose_candidate-Keeps now hex records report s

  test_candidate-Keeps :
      (now : ℕ) (hex : Text) (r : Result UpgradeError (List ChangeRecord))
      → Keeps (test_candidate o now hex r)
  unfolding test_candidate
  test_candidate-Keeps now hex (err e) s = Kept-refl s
  test_candidate-Keeps now hex (ok records) s = tested-Keeps now hex records _ s

  write_candidate-Keeps : (now : ℕ) (hex : Text) → Keeps (write_candidate o now hex)
  unfolding write_candidate
  write_candidate-Keeps now hex s =
      let repo = s.world.repo in
      let (r, written) = prepare_changes o.tools s.session.plan (o.answer s.session repo) repo in
      let t : Stage = record s { world = record s.world { repo = written } } in
      Kept-trans {t = t} (record { requests = refl; bound = inl refl })
        (test_candidate-Keeps now hex r t)

  generate-Keeps : (now : ℕ) (hex : Text) → Keeps (generate o now hex)
  unfolding generate
  generate-Keeps now hex =
      Keeps-bind _ _
        (λ s.
          save-Kept s
            (record s {
              session = record s.session { status = generating_candidate };
              world = record s.world { repo = o.staged s.session };
            })
            (record { requests = refl; bound = inl refl }))
        (λ u. write_candidate-Keeps now hex)

  after_consuming-Keeps :
      (now : ℕ) (hex : Text) (going : Bool) → Keeps (after_consuming o now hex going)
  unfolding after_consuming
  after_consuming-Keeps now hex false = λ s. Kept-refl s
  after_consuming-Keeps now hex true = generate-Keeps now hex

  go_on-Keeps : (now : ℕ) (hex : Text) (going : Bool) → Keeps (go_on o now hex going)
  unfolding go_on consume_intent
  go_on-Keeps now hex false = λ s. Kept-refl s
  go_on-Keeps now hex true =
      Keeps-bind _ _ (λ s. consume_unless-Keeps s.session.intent_consumed now s)
        (after_consuming-Keeps now hex)

  checked_intent-Keeps :
      (now : ℕ) (hex : Text) (r : Result BindingError AuthStatus)
      → Keeps (checked_intent o now hex r)
  unfolding checked_intent
  checked_intent-Keeps now hex (err e) = λ s. Kept-refl s
  checked_intent-Keeps now hex (ok status) =
      Keeps-bind _ _ (after_intent-Keeps status) (go_on-Keeps now hex)

  pub when_intent-Kept :
      (st : SessionStatus) (now : ℕ) (hex : Text) (s : Stage)
      → Kept s (when_intent o st now hex s).1
  unfolding when_intent advance_candidate
  when_intent-Kept awaiting_intent_approval now hex s = checked_intent-Keeps now hex _ s
  when_intent-Kept _ now hex s = Kept-refl s
