-- ===== src/Permissions/Race.antt =====
-- Several processes that call `request_auth` of app/core/permissions.py, cut between `_count_pending`
-- and the exclusive `_write`, while the owner decides.
use agenelf.Base.{
  ℕ, zero, suc, ◌+◌, ◌≤◌, ◌≡◌, refl, ap, true, Option, Text, List, [], ◌∷◌, length, is_some,
  text_eq, arith, Bool-cases, inl, inr, if◌then◌else◌,
}
use agenelf.Operations.Requests.{Evaluation, find}
use agenelf.Permissions.Files.{AuthRequest, AuthDecision, AuthFiles}
use agenelf.Permissions.Propose.{
  Proposal, max_pending_requests, count_undecided, count_pending, may_ask, build_auth_request,
  write_request,
}

-- A process is outside the call, or it has found room and has not written yet.
pub data Process : Type 0 where
  outside : Process
  admitted : AuthRequest → Process

pub record Ask : Type 0 where
  pub now : ℕ
  pub hex : Text
  pub proposal : Proposal

-- A step of the process at a place, which asks for this when it is outside; or a decision.
pub data RaceEvent : Type 0 where
  working : ℕ → Ask → RaceEvent
  deciding : Text → Option AuthDecision → RaceEvent

-- How many have found room and have not written.
unfoldable pub in_flight : List Process → ℕ
in_flight [] = 0
in_flight (outside ∷ ps) = in_flight ps
in_flight (admitted request ∷ ps) = suc (in_flight ps)

module _ (digest : Text → Text) (encode_detail : Text → Text → Text → Text)
    (policy : Text → Text → Option Evaluation) where
  -- The count, and then the write; an error of either ends the call.
  unfoldable pub process_step : Ask → Process → AuthFiles → Process × AuthFiles
  unfolding may_ask build_auth_request write_request
  process_step a outside files = (
    if may_ask files
        then admitted (build_auth_request digest encode_detail policy a.now a.hex a.proposal)
        else outside,
    files,
  )
  process_step a (admitted request) files =
      (outside, (write_request digest encode_detail policy request files).1)

  unfoldable pub work : ℕ → Ask → List Process → AuthFiles → List Process × AuthFiles
  unfolding process_step
  work i a [] files = ([], files)
  work zero a (p ∷ ps) files = let (p', after) = process_step a p files in (p' ∷ ps, after)
  work (suc i) a (p ∷ ps) files = let (ps', after) = work i a ps files in (p ∷ ps', after)

  unfoldable pub event_step : RaceEvent → List Process → AuthFiles → List Process × AuthFiles
  unfolding work
  event_step (working i a) ps files = work i a ps files
  event_step (deciding name decision) ps files =
      (ps, record files { decisions = (name, decision) ∷ files.decisions })

  unfoldable pub events : List RaceEvent → List Process → AuthFiles → List Process × AuthFiles
  unfolding event_step
  events [] ps files = (ps, files)
  events (e ∷ es) ps files = let (ps', after) = event_step e ps files in events es ps' after

  in_flight-length : (ps : List Process) → in_flight ps ≤ length ps
  unfolding in_flight
  in_flight-length [] = omega arith
  in_flight-length (outside ∷ ps) = omega (arith, in_flight-length ps)
  in_flight-length (admitted request ∷ ps) = omega (arith, in_flight-length ps)

  -- A write adds at most one open proposal.
  write_request-pending :
      (request : AuthRequest) (files : AuthFiles)
      → count_pending (write_request digest encode_detail policy request files).1
        ≤ suc (count_pending files)
  unfolding write_request count_pending count_undecided
  write_request-pending request files =
      elim (Bool-cases (is_some (find request.id files.requests))) [
        | inl taken ↦ rw taken (omega arith)
        | inr free ↦ rw free (elim (Bool-cases (is_some (find request.id files.decisions))) [
          | inl decided ↦ rw decided (omega arith)
          | inr undecided ↦ rw undecided (omega arith)
        ])
      ]

  find-more :
      (name other : Text) (d : Option AuthDecision) (ds : List (Text × Option AuthDecision))
      → is_some (find other ds) ≡ true
      → is_some (find other ((name, d) ∷ ds)) ≡ true
  unfolding find
  find-more name other d ds h = elim (Bool-cases (text_eq name other)) [
    | inl same ↦ rw same refl
    | inr two ↦ rw two h
  ]

  -- A decision leaves no more proposals open than before.
  count_undecided-decided :
      (name : Text) (d : Option AuthDecision) (ds : List (Text × Option AuthDecision))
      (requests : List (Text × Option AuthRequest))
      → count_undecided ((name, d) ∷ ds) requests ≤ count_undecided ds requests
  unfolding count_undecided
  count_undecided-decided name d ds [] = omega arith
  count_undecided-decided name d ds ((other, request) ∷ requests) =
      let rest = count_undecided-decided name d ds requests in
      elim (Bool-cases (is_some (find other ds))) [
        | inl decided ↦ rw (decided, find-more name other d ds decided) (omega (arith, rest))
        | inr undecided ↦ elim (Bool-cases (is_some (find other ((name, d) ∷ ds)))) [
          | inl now_decided ↦ rw (undecided, now_decided) (omega (arith, rest))
          | inr still ↦ rw (undecided, still) (omega (arith, rest))
        ]
      ]

  -- What a step of one process does to its share and to the files.
  process_step-pending :
      (a : Ask) (p : Process) (files : AuthFiles) (others k : ℕ)
      → others ≤ k
      → count_pending files + (others + in_flight (p ∷ [])) ≤ 10 + k
      → let (p', after) = process_step a p files in
        count_pending after + (others + in_flight (p' ∷ [])) ≤ 10 + k
  unfolding process_step in_flight may_ask
  process_step-pending a outside files others k small h = elim (Bool-cases (may_ask files)) [
    | inl room ↦ rw room (ground (arith, room, small))
    | inr full ↦ rw full h
  ]
  process_step-pending a (admitted request) files others k small h =
      omega (arith, h, write_request-pending request files)

  work-length :
      (i : ℕ) (a : Ask) (ps : List Process) (files : AuthFiles)
      → length (work i a ps files).0 ≡ length ps
  unfolding work
  work-length i a [] files = refl
  work-length zero a (p ∷ ps) files = refl
  work-length (suc i) a (p ∷ ps) files = ap suc (work-length i a ps files)

  in_flight-cons :
      (p : Process) (ps : List Process) → in_flight (p ∷ ps) ≡ in_flight (p ∷ []) + in_flight ps
  unfolding in_flight
  in_flight-cons outside ps = omega arith
  in_flight-cons (admitted request) ps = omega arith

  work-pending :
      (i : ℕ) (a : Ask) (ps : List Process) (files : AuthFiles) (others k : ℕ)
      → others + length ps ≤ suc k
      → count_pending files + (others + in_flight ps) ≤ 10 + k
      → let (ps', after) = work i a ps files in
        count_pending after + (others + in_flight ps') ≤ 10 + k
  unfolding work
  work-pending i a [] files others k small h = h
  work-pending zero a (p ∷ ps) files others k small h =
      let (p', after) = process_step a p files in
      omega (
        arith,
        in_flight-cons p' ps,
        process_step-pending a p files (others + in_flight ps) k
            (omega (arith, small, in_flight-length ps)) (omega (arith, h, in_flight-cons p ps)),
      )
  work-pending (suc i) a (p ∷ ps) files others k small h =
      let (ps', after) = work i a ps files in
      omega (
        arith,
        in_flight-cons p ps',
        work-pending i a ps files (others + in_flight (p ∷ [])) k
            (omega (arith, small, in_flight-length (p ∷ [])))
            (omega (arith, h, in_flight-cons p ps)),
      )

  event_step-pending :
      (e : RaceEvent) (ps : List Process) (files : AuthFiles) (k : ℕ)
      → length ps ≤ suc k
      → count_pending files + in_flight ps ≤ 10 + k
      → let (ps', after) = event_step e ps files in
        (length ps' ≤ suc k) × (count_pending after + in_flight ps' ≤ 10 + k)
  unfolding event_step count_pending
  event_step-pending (working i a) ps files k small h = (
    omega (arith, small, work-length i a ps files),
    omega (arith, work-pending i a ps files 0 k (omega (arith, small)) (omega (arith, h))),
  )
  event_step-pending (deciding name d) ps files k small h =
      (small, omega (arith, h, count_undecided-decided name d files.decisions files.requests))

  events-in_flight :
      (es : List RaceEvent) (ps : List Process) (files : AuthFiles) (k : ℕ)
      → length ps ≤ suc k
      → count_pending files + in_flight ps ≤ 10 + k
      → let (ps', after) = events es ps files in count_pending after + in_flight ps' ≤ 10 + k
  unfolding events
  events-in_flight [] ps files k small h = h
  events-in_flight (e ∷ es) ps files k small h =
      let (small', next) = event_step-pending e ps files k small h in
      events-in_flight es (event_step e ps files).0 (event_step e ps files).1 k small' next

  -- One process never leaves more than ten proposals open, and each further process that calls
  -- `request_auth` at the same time can add one to that: its count and its write are two steps. So
  -- much holds after any number of calls, and any decisions in between, if it held before, with
  -- those counted that are between the two steps.
  pub events-pending :
      (es : List RaceEvent) (ps : List Process) (files : AuthFiles) (k : ℕ)
      → length ps ≤ suc k
      → count_pending files + in_flight ps ≤ max_pending_requests + k
      → count_pending (events es ps files).1 ≤ max_pending_requests + k
  events-pending es ps files k small h = omega (arith, events-in_flight es ps files k small h)
