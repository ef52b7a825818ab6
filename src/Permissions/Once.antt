-- ===== src/Permissions/Once.antt =====
-- Any number of callers of `consume_auth`, cut between its check and its exclusive creation of the
-- mark (app/core/permissions.py). Requests, decisions and the clock may be others at every step.
use agenelf.Base.{
  ℕ, zero, suc, ◌+◌, ◌≤◌, ◌≡◌, sym, ◌∙◌, ap, Bool, true, false, Option, Text, List, [], ◌∷◌,
  text_eq, text_eq_iff, one_of, arith, Bool-cases, inl, inr, if◌then◌else◌,
}
use agenelf.Permissions.Files.{AuthRequest, AuthDecision, AuthFiles}
use agenelf.Permissions.Check.{check_auth, is_approved, claim}

-- What a caller asks for, and how far it is.
pub record Use : Type 0 where
  pub id : Text
  pub expected : Option Text

pub data CallerAt : Type 0 where
  asking claiming : CallerAt
  answered : Bool → CallerAt

abbrev pub Caller : Type 0
Caller = Use × CallerAt

-- What a step finds beside the marks.
pub record Moment : Type 0 where
  pub now : ℕ
  pub requests : List (Text × Option AuthRequest)
  pub decisions : List (Text × Option AuthDecision)

abbrev pub files_at : Moment → List Text → AuthFiles
files_at m consumed = record { requests = m.requests; decisions = m.decisions; consumed = consumed }

module _ (digest : Text → Text) where
  unfoldable pub caller_step : Moment → Caller → List Text → Caller × List Text
  unfolding check_auth is_approved claim
  caller_step m (u, asking) consumed = (
    (
      u,
      if is_approved digest (check_auth digest (files_at m consumed) u.id u.expected m.now)
          then claiming
          else answered false,
    ),
    consumed,
  )
  caller_step m (u, claiming) consumed =
      let (mine, files) = claim digest (files_at m consumed) u.id in
      ((u, answered mine), files.consumed)
  caller_step m (u, answered b) consumed = ((u, answered b), consumed)

  -- The caller at this place makes its next step.
  unfoldable pub call : ℕ → Moment → List Caller → List Text → List Caller × List Text
  unfolding caller_step
  call i m [] consumed = ([], consumed)
  call zero m (c ∷ cs) consumed = let (c', after) = caller_step m c consumed in (c' ∷ cs, after)
  call (suc i) m (c ∷ cs) consumed = let (cs', after) = call i m cs consumed in (c ∷ cs', after)

  unfoldable pub calls : List (ℕ × Moment) → List Caller → List Text → List Caller × List Text
  unfolding call
  calls [] cs consumed = (cs, consumed)
  calls ((i, m) ∷ schedule) cs consumed =
      let (cs', after) = call i m cs consumed in calls schedule cs' after

  -- Did this caller get the authorization?
  unfoldable pub got : Text → Caller → Bool
  got id (u, answered true) = text_eq u.id id
  got id _ = false

  unfoldable pub winners : Text → List Caller → ℕ
  unfolding got
  winners id [] = 0
  winners id (c ∷ cs) = (if got id c then 1 else 0) + winners id cs

  abbrev marks : Text → List Text → ℕ
  marks id consumed = if one_of consumed id then 1 else 0

  caller_step-winners :
      (id : Text) (m : Moment) (c : Caller) (consumed : List Text) (others : ℕ)
      → others + (if got id c then 1 else 0) ≤ marks id consumed
      → let (c', after) = caller_step m c consumed in
        others + (if got id c' then 1 else 0) ≤ marks id after
  unfolding caller_step got claim
  caller_step-winners id m (u, asking) consumed others h =
      elim (Bool-cases
        (is_approved digest (check_auth digest (files_at m consumed) u.id u.expected m.now))) [
          | inl yes_now ↦ rw yes_now (omega (arith, h))
          | inr not_now ↦ rw not_now (omega (arith, h))
        ]
  caller_step-winners id m (u, claiming) consumed others h =
      elim (Bool-cases (one_of consumed u.id)) [
        | inl used ↦ rw used (omega (arith, h))
        | inr unused ↦ rw unused (elim (Bool-cases (text_eq u.id id)) [
          | inl mine ↦
              let none_yet : one_of consumed id ≡ false =
                ap (one_of consumed) (sym ((text_eq_iff u.id id).0 mine)) ∙ unused in
              ground (arith, text_eq_iff u.id id)
          | inr other ↦ ground arith
        ])
      ]
  caller_step-winners id m (u, answered b) consumed others h = h

  call-winners :
      (id : Text) (i : ℕ) (m : Moment) (cs : List Caller) (consumed : List Text) (others : ℕ)
      → others + winners id cs ≤ marks id consumed
      → let (cs', after) = call i m cs consumed in others + winners id cs' ≤ marks id after
  unfolding call winners
  call-winners id i m [] consumed others h = h
  call-winners id zero m (c ∷ cs) consumed others h =
      omega (arith, caller_step-winners id m c consumed (others + winners id cs) (omega (arith, h)))
  call-winners id (suc i) m (c ∷ cs) consumed others h = omega (
    arith,
    call-winners id i m cs consumed (others + (if got id c then 1 else 0)) (omega (arith, h)),
  )

  calls-winners :
      (id : Text) (schedule : List (ℕ × Moment)) (cs : List Caller) (consumed : List Text)
      (others : ℕ)
      → others + winners id cs ≤ marks id consumed
      → let (cs', after) = calls schedule cs consumed in others + winners id cs' ≤ marks id after
  unfolding calls
  calls-winners id [] cs consumed others h = h
  calls-winners id ((i, m) ∷ schedule) cs consumed others h =
      let (cs', after) = call i m cs consumed in
      calls-winners id schedule cs' after others (call-winners id i m cs consumed others h)

  -- However the steps of any number of callers are ordered, and whatever is written into the other
  -- directories in between: of callers of whom none has the authorization at first, at most one is
  -- told that it has it, and none if the mark of its use was there before.
  pub calls-once :
      (id : Text) (schedule : List (ℕ × Moment)) (cs : List Caller) (consumed : List Text)
      → winners id cs ≡ 0
      → winners id (calls schedule cs consumed).0 + (if one_of consumed id then 1 else 0) ≤ 1
  calls-once id schedule cs consumed fresh =
      let (cs', after) = calls schedule cs consumed in
      let kept =
        calls-winners id schedule cs consumed (if one_of consumed id then 1 else 0)
          (omega (arith, fresh)) in
      elim (Bool-cases (one_of after id)) [ inl e ↦ ground arith | inr e ↦ ground arith ]
