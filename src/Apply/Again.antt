-- ===== src/Apply/Again.antt =====
-- A request that has a result is not handled again (scripts/self_upgrade_runner.py).
use agenelf.Base.{
  ℕ, ◌≡◌, refl, ap, ◌∙◌, subst, inl, inr, Bool, true, false, Option, some, Text, List, one_of,
  text_eq_refl, is_some, arith, Bool-cases, Option-cases, Result, ok, err,
}
use agenelf.Operations.Requests.{find, read_json}
use agenelf.Upgrade.Session.{ApplyRequest, ApplyResult, Outside}
use agenelf.Apply.World.{RunnerError, RunnerState, RunnerWorld}
use agenelf.Apply.Process.{
  Handled, waits, applied, put_result, release_lock, handle, report, under_lock, process_new,
  process_read, process_file, process_request,
}
use agenelf.Apply.Passed.{handle-cases}
use agenelf.Apply.Writes.{Passed-world}

unfoldable pub is_ended : RunnerState → Bool
is_ended RunnerState.succeeded = true
is_ended RunnerState.failed = true
is_ended _ = false

module _ (o : Outside) (resolve : Text → Option Text) where
  put_result-there :
      (id : Text) (r : ApplyResult) (w : RunnerWorld)
      → is_some (find id (put_result (is_some (find id w.upgrade.results)) id r w).upgrade.results)
        ≡ true
  unfolding put_result find
  put_result-there id r w = elim (Bool-cases (is_some (find id w.upgrade.results))) [
    | inl there ↦ rw there there
    | inr fresh ↦ rw fresh (rw (text_eq_refl id) refl)
  ]

  put_result-requests :
      (b : Bool) (id : Text) (r : ApplyResult) (w : RunnerWorld)
      → (put_result b id r w).upgrade.requests ≡ w.upgrade.requests
  unfolding put_result
  put_result-requests true id r w = refl
  put_result-requests false id r w = refl

  report-there :
      (id : Text) (r : Result RunnerError Handled) (w : RunnerWorld)
      → is_ended (report o resolve id r w).0 ≡ true
      → is_some (find id (release_lock id (report o resolve id r w).1).upgrade.results) ≡ true
  unfolding report release_lock is_ended
  report-there id (ok waits) w h = ground arith
  report-there id (ok (applied paths)) w h = put_result-there id _ w
  report-there id (err e) w h = put_result-there id _ w

  report-requests :
      (id : Text) (r : Result RunnerError Handled) (w : RunnerWorld)
      → (release_lock id (report o resolve id r w).1).upgrade.requests ≡ w.upgrade.requests
  unfolding report release_lock
  report-requests id (ok waits) w = refl
  report-requests id (ok (applied paths)) w = put_result-requests _ id _ w
  report-requests id (err e) w = put_result-requests _ id _ w

  handle-requests :
      (now later : ℕ) (request : ApplyRequest) (w : RunnerWorld)
      → (handle o resolve now later request w).1.upgrade.requests ≡ w.upgrade.requests
  handle-requests now later request w = elim (handle-cases o resolve now later request w) [
    | inl idle ↦ idle.requests
    | inr passed ↦
        ap (λ (x : RunnerWorld). x.upgrade.requests) (Passed-world o resolve later request w passed)
  ]

  -- A result is there, and the requests are the same.
  abbrev Closes : ApplyRequest → RunnerWorld → RunnerWorld → Type 0
  Closes request w after =
      (is_some (find request.id after.upgrade.results) ≡ true)
      × (after.upgrade.requests ≡ w.upgrade.requests)

  under_lock-Closes :
      (now later : ℕ) (request : ApplyRequest) (w : RunnerWorld)
      → is_ended (under_lock o resolve now later request w).0 ≡ true
      → Closes request w (under_lock o resolve now later request w).1
  unfolding under_lock
  under_lock-Closes now later request w h =
      let m = handle o resolve now later request w in
      (
        report-there request.id m.0 m.1 h,
        report-requests request.id m.0 m.1 ∙ handle-requests now later request w,
      )

  process_new-Closes :
      (now later : ℕ) (request : ApplyRequest) (taken : Bool) (w : RunnerWorld)
      → is_ended (process_new o resolve now later request taken w).0 ≡ true
      → Closes request w (process_new o resolve now later request taken w).1
  unfolding process_new is_ended
  process_new-Closes now later request true w h = ground arith
  process_new-Closes now later request false w h = under_lock-Closes now later request _ h

  process_read-Closes :
      (now later : ℕ) (request : ApplyRequest) (there : Bool) (w : RunnerWorld)
      → is_ended (process_read o resolve now later request there w).0 ≡ true
      → Closes request w (process_read o resolve now later request there w).1
  unfolding process_read is_ended
  process_read-Closes now later request true w h = ground arith
  process_read-Closes now later request false w h =
      process_new-Closes now later request (one_of w.locks request.id) w h

  process_request-Closes :
      (now later : ℕ) (name : Text) (w : RunnerWorld)
      → is_ended (process_request o resolve now later name w).0 ≡ true
      → (request : ApplyRequest) × (read_json name w.upgrade.requests ≡ some request)
        × Closes request w (process_request o resolve now later name w).1
  unfolding process_request process_file is_ended
  process_request-Closes now later name w h =
      elim (Option-cases (read_json name w.upgrade.requests)) [
        | inl missing ↦ absurd (ground arith)
        | inr (request, asked) ↦
            let there = is_some (find request.id w.upgrade.results) in
            let done : is_ended (process_read o resolve now later request there w).0 ≡ true =
              subst
                (λ (r : Option ApplyRequest).
                  is_ended (process_file o resolve now later r w).0 ≡ true)
                asked h in
            (request, asked, rw asked (process_read-Closes now later request there w done))
      ]

  process_request-done :
      (now later : ℕ) (name : Text) (w : RunnerWorld) (request : ApplyRequest)
      → read_json name w.upgrade.requests ≡ some request
      → is_some (find request.id w.upgrade.results) ≡ true
      → process_request o resolve now later name w ≡ (RunnerState.done, w)
  unfolding process_request process_file process_read
  process_request-done now later name w request asked there = rw asked (rw there refl)

  -- After a call that has succeeded or failed, a call for the same request file answers "done" at
  -- any time and leaves everything as it is, its files and the authorizations included.
  pub process_request-again :
      (now later now' later' : ℕ) (name : Text) (w : RunnerWorld)
      → is_ended (process_request o resolve now later name w).0 ≡ true
      → let end = (process_request o resolve now later name w).1 in
        process_request o resolve now' later' name end ≡ (RunnerState.done, end)
  process_request-again now later now' later' name w h =
      let (request, asked, (there, same)) = process_request-Closes now later name w h in
      let end = (process_request o resolve now later name w).1 in
      process_request-done now' later' name end request
        (ap (λ (rs : List (Text × Option ApplyRequest)). read_json name rs) same ∙ asked) there
