-- ===== src/Owner/Votes.antt =====
-- Whose votes a decision holds (app/core/owner_approval.py), and what that means for the status
-- "approved" (app/core/permissions.py).
use agenelf.Base.{
  ℕ, ◌≡◌, refl, ap, subst, ◌∙◌, Bool, true, not, ◌&&◌, ◌||◌, Option, none, some, Text, List, [],
  ◌∷◌, codes, text_eq, text_eq_iff, text_eq_refl, one_of, ltb, arith, inl, inr, Bool-cases,
  if◌then◌else◌, ok, Result-cases,
}
use agenelf.Operations.Requests.{read_json}
use agenelf.Owner.Files.{
  OwnerDecision, OwnerFiles, Codec, validate_request_id, load_request, request_fingerprint,
}
use agenelf.Owner.Decide.{
  Action, approve, deny, Ballot, parse_action, parse_actor, single_decision, earlier_votes,
  joint_decision, required_approvers, fresh_plan, read_ballot,
}
use agenelf.Owner.Turns.{Turn, seen, turn, turns, turn-Wrote, written}
use agenelf.Owner.Final.{Wrote-read}
use agenelf.Owner.People.{
  acting, approver, add, approvers, all_from, all_from-add, all_from-named, all_from-with_vote,
}

module _ (codec : Codec) where
  read_ballot-approver :
      (t : Turn) (files : OwnerFiles) (id : Text) {b : Ballot}
      → read_ballot codec t.request_id t.action t.reason t.decided_by files ≡ ok b
      → text_eq b.request_id id ≡ true
      → approver id t ≡ acting b.action b.actor
  unfolding read_ballot approver
  read_ballot-approver t files id {b = b} h own =
      elim (Result-cases (validate_request_id t.request_id)) [
        | inr (e, bad) ↦ ground arith
        | inl (rid, valid) ↦ elim (Result-cases (parse_action t.action)) [
          | inr (e, bad) ↦ ground arith
          | inl (a, parsed) ↦ elim (Result-cases (parse_actor t.decided_by)) [
            | inr (e, bad) ↦ ground arith
            | inl (who, named) ↦ elim (Result-cases (load_request rid files)) [
              | inr (e, bad) ↦ ground arith
              | inl (request, loaded) ↦ elim (Result-cases (request_fingerprint codec request)) [
                | inr (e, bad) ↦ ground arith
                | inl (print, printed) ↦
                    let made : record {
                      request_id = rid;
                      request = request;
                      fingerprint = print;
                      action = a;
                      actor = who;
                      reason = t.reason;
                    }
                        ≡ b =
                      ground arith in
                    rw valid (
                      rw parsed (
                        rw named (
                          subst
                            (λ (x : Ballot).
                              (if text_eq rid id then acting a who else none)
                              ≡ acting x.action x.actor)
                            made
                            (rw (ap (λ (x : Ballot). text_eq x.request_id id) made ∙ own) refl))))
              ]
            ]
          ]
        ]
      ]

-- The votes come from these people, and so does an approval.
abbrev pub backed : List Text → Option OwnerDecision → Bool
backed people none = true
backed people (some d) =
    all_from people d.approvals
    && (not (text_eq d.decision (codes "approve")) || one_of people d.decided_by)

backed-add :
    (o : Option Text) (people : List Text) (d : Option OwnerDecision)
    → backed people d ≡ true
    → backed (add o people) d ≡ true
unfolding add
backed-add o people none h = refl
backed-add none people (some d) h = h
backed-add (some p) people (some d) h = ground (arith, all_from-add (some p) people d.approvals)

all_from-earlier :
    (people : List Text) (o : Option OwnerDecision)
    → backed people o ≡ true
    → all_from people (earlier_votes o) ≡ true
unfolding earlier_votes
all_from-earlier people none h = refl
all_from-earlier people (some d) h = ground (arith, all_from-named people d.approvals)

fresh_plan-backed :
    (a : Action) (now : ℕ) (b : Ballot) (existing : Option OwnerDecision) (people : List Text)
    {d : OwnerDecision}
    → backed people existing ≡ true
    → written (fresh_plan a now b existing) ≡ some d
    → backed (add (acting a b.actor) people) (some d) ≡ true
unfolding fresh_plan single_decision joint_decision add
fresh_plan-backed deny now b existing people {d = d} h w =
    let single : single_decision now (codes "deny") b ≡ d = ground arith in
    subst (λ (x : OwnerDecision). backed people (some x) ≡ true) single refl
fresh_plan-backed approve now b existing people {d = d} h w =
    let whole = b.actor ∷ people in
    elim (Bool-cases (ltb 1 (required_approvers b.request))) [
      | inl several ↦
          let joint : joint_decision now b existing ≡ d = ground arith in
          subst (λ (x : OwnerDecision). backed whole (some x) ≡ true) joint
            (rw
              (all_from-with_vote whole (earlier_votes existing) b.actor
                (all_from-add (some b.actor) people (earlier_votes existing)
                  (all_from-earlier people existing h))
                (rw (text_eq_refl b.actor) refl))
              (rw (text_eq_refl b.actor) (ground arith)))
      | inr one_only ↦
          let single : single_decision now (codes "approve") b ≡ d = ground arith in
          subst (λ (x : OwnerDecision). backed whole (some x) ≡ true) single
            (rw (text_eq_refl b.actor) refl)
    ]

module _ (codec : Codec) where
  turn-backed :
      (t : Turn) (files : OwnerFiles) (id : Text) (people : List Text)
      → backed people (read_json id files.decisions) ≡ true
      → backed (add (approver id t) people) (read_json id (turn codec t files).1.decisions) ≡ true
  turn-backed t files id people h = elim (turn-Wrote codec t files) [
    | inl same ↦
        ap (λ ds. backed (add (approver id t) people) (read_json id ds)) same
        ∙ backed-add (approver id t) people (read_json id files.decisions) h
    | inr (b, ballot, w) ↦ elim (Bool-cases (text_eq b.request_id id)) [
      | inr other ↦
          let kept : read_json id (turn codec t files).1.decisions ≡ read_json id files.decisions =
            Wrote-read w id ∙ rw other refl in
          ap (backed (add (approver id t) people)) kept
          ∙ backed-add (approver id t) people (read_json id files.decisions) h
      | inl own ↦
          let before =
            ap (λ (x : Text). backed people (read_json x files.decisions))
              ((text_eq_iff b.request_id id).0 own)
            ∙ h in
          let now_there : read_json id (turn codec t files).1.decisions ≡ some w.decision =
            Wrote-read w id ∙ rw own refl in
          ap (backed (add (approver id t) people)) now_there
          ∙ ap (λ o. backed (add o people) (some w.decision))
              (read_ballot-approver codec t (seen t files) id ballot own)
          ∙ fresh_plan-backed b.action t.now b (read_json b.request_id files.decisions) people
              before w.planned
    ]
  ]

  pub turns-backed :
      (ts : List Turn) (files : OwnerFiles) (id : Text) (people : List Text)
      → backed people (read_json id files.decisions) ≡ true
      → backed (approvers id ts people) (read_json id (turns codec ts files).decisions) ≡ true
  unfolding turns approvers
  turns-backed [] files id people h = h
  turns-backed (t ∷ ts) files id people h =
      turns-backed ts (turn codec t files).1 id (add (approver id t) people)
        (turn-backed t files id people h)
