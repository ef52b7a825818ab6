-- ===== src/Apply/Calls.antt =====
-- What a call of `process_request` leaves behind (scripts/self_upgrade_runner.py).
use agenelf.Base.{
  ℕ, ◌≡◌, refl, ◌∙◌, ◌⊎◌, inl, inr, Bool, true, false, Option, some, Text, ◌∷◌, one_of, is_some,
  arith, Bool-cases, Option-cases, Result, ok, err,
}
use agenelf.Operations.Requests.{find, read_json}
use agenelf.Upgrade.Session.{ApplyRequest, ApplyResult, Outside}
use agenelf.Apply.World.{RunnerError, RunnerState, RunnerWorld}
use agenelf.Apply.Process.{
  Handled, waits, applied, put_result, release_lock, handle, report, under_lock, process_new,
  process_read, process_file, process_request,
}
use agenelf.Apply.Passed.{has_applied, Passed, handle-cases}

unfoldable pub is_succeeded : RunnerState → Bool
is_succeeded RunnerState.succeeded = true
is_succeeded _ = false

module _ (o : Outside) (resolve : Text → Option Text) where
  put_result-disk :
      (b : Bool) (id : Text) (r : ApplyResult) (w : RunnerWorld)
      → (put_result b id r w).disk ≡ w.disk
  unfolding put_result
  put_result-disk true id r w = refl
  put_result-disk false id r w = refl

  pub report-disk :
      (id : Text) (r : Result RunnerError Handled) (w : RunnerWorld)
      → (release_lock id (report o resolve id r w).1).disk ≡ w.disk
  unfolding report release_lock
  report-disk id (ok waits) w = refl
  report-disk id (ok (applied paths)) w = put_result-disk _ id _ w
  report-disk id (err e) w = put_result-disk _ id _ w

  report-waits :
      (id : Text) (r : Result RunnerError Handled) (w : RunnerWorld)
      → has_applied r ≡ false
      → is_succeeded (report o resolve id r w).0 ≡ false
  unfolding report has_applied is_succeeded
  report-waits id (ok waits) w h = refl
  report-waits id (ok (applied paths)) w h = ground arith
  report-waits id (err e) w h = refl

  abbrev pub locked_by : ApplyRequest → RunnerWorld → RunnerWorld
  locked_by request w = record w { locks = request.id ∷ w.locks }

  -- The request that a call handles, and what it has checked.
  pub record Handles (now later : ℕ) (name : Text) (w : RunnerWorld) : Type 0 where
    pub request : ApplyRequest
    pub asked : read_json name w.upgrade.requests ≡ some request
    pub fresh : is_some (find request.id w.upgrade.results) ≡ false
    pub passed :
        Passed o resolve later request
          (locked_by request w)
          (handle o resolve now later request (locked_by request w))
    pub goes :
        process_request o resolve now later name w
        ≡ under_lock o resolve now later request (locked_by request w)

  abbrev pub Rests : RunnerWorld → RunnerState × RunnerWorld → Type 0
  Rests w m = (m.1.disk ≡ w.disk) × (is_succeeded m.0 ≡ false)

  under_lock-cases :
      (now later : ℕ) (request : ApplyRequest) (w : RunnerWorld)
      → Rests w (under_lock o resolve now later request w)
        ⊎ Passed o resolve later request w (handle o resolve now later request w)
  unfolding under_lock
  under_lock-cases now later request w =
      let m = handle o resolve now later request w in
      elim (handle-cases o resolve now later request w) [
        | inl idle ↦
            inl (
              report-disk request.id m.0 m.1 ∙ idle.disk,
              report-waits request.id m.0 m.1 idle.idle,
            )
        | inr passed ↦ inr passed
      ]

  process_read-cases :
      (now later : ℕ) (request : ApplyRequest) (there : Bool) (w : RunnerWorld)
      → Rests w (process_read o resolve now later request there w)
        ⊎ ((there ≡ false)
            × Passed o resolve later request
                (locked_by request w)
                (handle o resolve now later request (locked_by request w))
            × (process_read o resolve now later request there w
                ≡ under_lock o resolve now later request (locked_by request w)))
  unfolding process_read process_new is_succeeded
  process_read-cases now later request true w = inl (refl, refl)
  process_read-cases now later request false w = elim (Bool-cases (one_of w.locks request.id)) [
    | inl taken ↦ inl (rw taken (refl, refl))
    | inr free ↦ elim (under_lock-cases now later request (locked_by request w)) [
      | inl rests ↦ inl (rw free rests)
      | inr passed ↦ inr (refl, passed, rw free refl)
    ]
  ]

  pub process_request-cases :
      (now later : ℕ) (name : Text) (w : RunnerWorld)
      → Rests w (process_request o resolve now later name w) ⊎ Handles now later name w
  unfolding process_request process_file is_succeeded
  process_request-cases now later name w = elim (Option-cases (read_json name w.upgrade.requests)) [
    | inl missing ↦ inl (rw missing (refl, refl))
    | inr (request, asked) ↦
        let there = is_some (find request.id w.upgrade.results) in
        elim (process_read-cases now later request there w) [
          | inl rests ↦ inl (rw asked rests)
          | inr (fresh, passed, goes) ↦ inr (record {
            request = request;
            asked = asked;
            fresh = fresh;
            passed = passed;
            goes = rw asked goes;
          })
        ]
  ]
