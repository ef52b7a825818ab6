-- ===== src/Permissions/Check.antt =====
-- `check_auth` and `consume_auth` of app/core/permissions.py.
use agenelf.Base.{
  ℕ, Bool, true, false, not, ◌&&◌, Option, none, some, Text, ◌∷◌, codes, text_eq, one_of, ltb,
  length, if◌then◌else◌, Result, ok, err, bind,
}
use agenelf.Operations.Requests.{read_json}
use agenelf.Permissions.Files.{
  RawBinding, absent, no_object, object, AuthRequest, AuthDecision, AuthFiles, is_file_name,
  has_passed, required_of, distinct,
}

-- `STATUS_PENDING` and the others.
pub data AuthStatus : Type 0 where
  pending approved denied expired used not_found binding_mismatch : AuthStatus

-- `canonical_binding` raises a `TypeError`.
pub data BindingError : Type 0 where
  binding_not_object : BindingError

unfoldable pub still_open : Option ℕ → ℕ → AuthStatus
unfolding has_passed
still_open expires_at now = if has_passed expires_at now then expired else pending

module _ (digest : Text → Text) where
  unfoldable pub binding_fingerprint : RawBinding → Result BindingError Text
  binding_fingerprint absent = ok (digest (codes "{}"))
  binding_fingerprint no_object = err binding_not_object
  binding_fingerprint (object binding) = ok (digest binding)

  unfoldable pub expected_differs : Option Text → Text → Bool
  expected_differs none actual = false
  expected_differs (some binding) actual = not (text_eq actual (digest binding))

  -- The decision says "approve": the expiry, then the fingerprints.
  unfoldable pub check_binding :
      AuthRequest → AuthDecision → Option Text → ℕ → Result BindingError AuthStatus
  unfolding has_passed binding_fingerprint expected_differs
  check_binding request decision expected now =
      if has_passed decision.expires_at now
      then ok expired
      else bind (binding_fingerprint request.binding) λ wanted.
        if not (text_eq decision.fingerprint wanted)
        then ok binding_mismatch
        else if expected_differs expected decision.fingerprint
        then ok binding_mismatch
        else ok approved

  unfoldable pub lacks_votes : AuthRequest → AuthDecision → Bool
  unfolding required_of distinct
  lacks_votes request decision =
      let required = required_of request.required_approvers in
      ltb 1 required && ltb (length (distinct decision.approvals)) required

  unfoldable pub check_decision :
      AuthRequest → AuthDecision → Option Text → ℕ → Result BindingError AuthStatus
  unfolding check_binding still_open lacks_votes required_of
  check_decision request decision expected now =
      if text_eq decision.decision (codes "deny")
      then ok denied
      else if not (text_eq decision.decision (codes "approve"))
      then (if ltb 1 (required_of request.required_approvers)
          then ok (still_open request.expires_at now)
          else ok not_found)
      else if lacks_votes request decision
      then ok (still_open request.expires_at now)
      else check_binding request decision expected now

  unfoldable pub check_auth : AuthFiles → Text → Option Text → ℕ → Result BindingError AuthStatus
  unfolding is_file_name read_json check_decision still_open
  check_auth files id expected now =
      if not (is_file_name id) then ok not_found else (elim (read_json id files.requests) [
        | none ↦ ok not_found
        | some request ↦
            if one_of files.consumed id then ok used else (elim (read_json id files.decisions) [
              | none ↦ ok (still_open request.expires_at now)
              | some decision ↦ check_decision request decision expected now
            ])
      ])

  unfoldable pub is_approved : Result BindingError AuthStatus → Bool
  is_approved (ok approved) = true
  is_approved _ = false

  -- The exclusive creation of the mark: does this call create it?
  unfoldable pub claim : AuthFiles → Text → Bool × AuthFiles
  claim files id =
      if one_of files.consumed id
      then (false, files)
      else (true, record files { consumed = id ∷ files.consumed })

  -- An error of `check_auth` is raised; the files are as they were.
  unfoldable pub consume_auth :
      AuthFiles → Text → Option Text → ℕ → Result BindingError Bool × AuthFiles
  unfolding check_auth claim
  consume_auth files id expected now = elim (check_auth files id expected now) [
    | err e ↦ (err e, files)
    | ok approved ↦ let (mine, after) = claim files id in (ok mine, after)
    | ok _ ↦ (ok false, files)
  ]
