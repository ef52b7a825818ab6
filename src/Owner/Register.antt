-- ===== src/Owner/Register.antt =====
-- The verdict on a request as a register that is written once (app/core/owner_approval.py).
use agenelf.Base.{
  ℕ, ◌≡◌, refl, sym, ap, subst, ◌∙◌, true, Option, none, some, Text, List, [], ◌∷◌, codes, text_eq,
  text_eq_iff, ltb, arith, ◌⊎◌, inl, inr, Bool-cases, Result-cases, if◌then◌else◌, ok,
}
use agenelf.Operations.Requests.{read_json}
use agenelf.Owner.Files.{
  OwnerDecision, OwnerFiles, Codec, validate_request_id, load_request, request_fingerprint,
}
use agenelf.Owner.Decide.{
  Action, approve, deny, parse_action, parse_actor, Ballot, is_final, single_decision,
  earlier_votes, with_vote, has_quorum, joint_decision, required_approvers, fresh_plan, read_ballot,
}
use agenelf.Owner.Turns.{Turn, seen, turn, turns, turn-Wrote, is_open, written}
use agenelf.Owner.Final.{Wrote-read}

-- What a decision says in the end, if it says anything yet.
unfoldable pub verdict : Option OwnerDecision → Option Action
verdict none = none
verdict (some d) =
    if text_eq d.decision (codes "approve")
    then some approve
    else if text_eq d.decision (codes "deny")
    then some deny
    else none

-- A call leaves the register as it is, or it writes an empty one with the action that it asks for.
pub data Register (id : Text) (t : Turn) : Option Action → Option Action → Type 0 where
  keep : {v : Option Action} → Register id t v v
  settle :
      {a : Action}
      → validate_request_id t.request_id ≡ ok id
      → parse_action t.action ≡ ok a
      → Register id t none (some a)

pub data Registers (id : Text) : List Turn → Option Action → Option Action → Type 0 where
  no_call : {v : Option Action} → Registers id [] v v
  call :
      {t : Turn} {ts : List Turn} {u v w : Option Action}
      → Register id t u v
      → Registers id ts v w
      → Registers id (t ∷ ts) u w

verdict-open : (o : Option OwnerDecision) → is_open o ≡ true → verdict o ≡ none
unfolding verdict is_final
verdict-open none h = refl
verdict-open (some d) h = ground arith

-- What a plan writes says what was asked for, or nothing yet.
fresh_plan-verdict :
    (a : Action) (now : ℕ) (b : Ballot) (existing : Option OwnerDecision) {d : OwnerDecision}
    → written (fresh_plan a now b existing) ≡ some d
    → (verdict (some d) ≡ none) ⊎ (verdict (some d) ≡ some a)
unfolding fresh_plan single_decision joint_decision verdict
fresh_plan-verdict deny now b existing {d = d} w =
    let single : single_decision now (codes "deny") b ≡ d = ground arith in
    inr (subst (λ (x : OwnerDecision). verdict (some x) ≡ some deny) single refl)
fresh_plan-verdict approve now b existing {d = d} w =
    elim (Bool-cases (ltb 1 (required_approvers b.request))) [
      | inr one_only ↦
          let single : single_decision now (codes "approve") b ≡ d = ground arith in
          inr (subst (λ (x : OwnerDecision). verdict (some x) ≡ some approve) single refl)
      | inl several ↦
          let joint : joint_decision now b existing ≡ d = ground arith in
          subst
            (λ (x : OwnerDecision). (verdict (some x) ≡ none) ⊎ (verdict (some x) ≡ some approve))
            joint
            (elim (Bool-cases (
              has_quorum (required_approvers b.request)
                (with_vote b.actor (earlier_votes existing)))) [
                  | inl enough ↦ inr (rw enough refl)
                  | inr more ↦ inl (rw more refl)
                ])
    ]

module _ (codec : Codec) where
  read_ballot-checked :
      (request_id action reason who : Text) (files : OwnerFiles) {b : Ballot}
      → read_ballot codec request_id action reason who files ≡ ok b
      → (validate_request_id request_id ≡ ok b.request_id) × (parse_action action ≡ ok b.action)
  unfolding read_ballot
  read_ballot-checked request_id action reason who files {b = b} h =
      elim (Result-cases (validate_request_id request_id)) [
        | inr (e, bad) ↦ ground arith
        | inl (id, valid) ↦ elim (Result-cases (parse_action action)) [
          | inr (e, bad) ↦ ground arith
          | inl (a, parsed) ↦ elim (Result-cases (parse_actor who)) [
            | inr (e, bad) ↦ ground arith
            | inl (actor, named) ↦ elim (Result-cases (load_request id files)) [
              | inr (e, bad) ↦ ground arith
              | inl (request, loaded) ↦ elim (Result-cases (request_fingerprint codec request)) [
                | inr (e, bad) ↦ ground arith
                | inl (print, printed) ↦
                    let made : record {
                      request_id = id;
                      request = request;
                      fingerprint = print;
                      action = a;
                      actor = actor;
                      reason = reason;
                    }
                        ≡ b =
                      ground arith in
                    (
                      valid ∙ ap (λ (x : Ballot). ok x.request_id) made,
                      parsed ∙ ap (λ (x : Ballot). ok x.action) made,
                    )
              ]
            ]
          ]
        ]
      ]

  turn-Register :
      (t : Turn) (files : OwnerFiles) (id : Text)
      → Register id t
          (verdict (read_json id files.decisions))
          (verdict (read_json id (turn codec t files).1.decisions))
  turn-Register t files id =
      let before = verdict (read_json id files.decisions) in
      elim (turn-Wrote codec t files) [
        | inl same ↦ subst (λ ds. Register id t before (verdict (read_json id ds))) (sym same) keep
        | inr (b, ballot, w) ↦
            let (valid, asked) =
              read_ballot-checked t.request_id t.action t.reason t.decided_by (seen t files)
                ballot in
            elim (Bool-cases (text_eq b.request_id id)) [
              | inr other ↦
                  let kept : read_json id (turn codec t files).1.decisions
                      ≡ read_json id files.decisions =
                    Wrote-read w id ∙ rw other refl in
                  subst (λ o. Register id t before (verdict o)) (sym kept) keep
              | inl own ↦
                  let same_id = (text_eq_iff b.request_id id).0 own in
                  let empty : before ≡ none = verdict-open (read_json id files.decisions) (
                    ap (λ (x : Text). is_open (read_json x files.decisions)) (sym same_id)
                    ∙ w.undecided) in
                  let stored : read_json id (turn codec t files).1.decisions ≡ some w.decision =
                    Wrote-read w id ∙ rw own refl in
                  subst (λ o. Register id t before (verdict o)) (sym stored)
                    (subst (λ u. Register id t u (verdict (some w.decision))) (sym empty)
                      (elim (fresh_plan-verdict b.action t.now b
                        (read_json b.request_id files.decisions) w.planned) [
                          | inl open_still ↦ subst (λ u. Register id t none u) (sym open_still) keep
                          | inr decided ↦
                              subst (λ u. Register id t none u) (sym decided)
                                (settle (valid ∙ ap ok same_id) asked)
                        ]))
            ]
      ]

  -- The decisions refine one register for each request: in a sequence of calls, every call leaves
  -- the verdict on a request as it is, or it gives the first verdict. That verdict is the action
  -- that the call asks for, and the call names this request.
  pub turns-Registers :
      (ts : List Turn) (files : OwnerFiles) (id : Text)
      → Registers id ts
          (verdict (read_json id files.decisions))
          (verdict (read_json id (turns codec ts files).decisions))
  unfolding turns
  turns-Registers [] files id = no_call
  turns-Registers (t ∷ ts) files id =
      call (turn-Register t files id) (turns-Registers ts (turn codec t files).1 id)
