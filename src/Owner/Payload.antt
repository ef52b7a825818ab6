-- ===== src/Owner/Payload.antt =====
-- What the votes of a joint decision were for (app/core/owner_approval.py).
use agenelf.Base.{
  ℕ, ◌≡◌, refl, ap, ◌∙◌, true, false, not, ◌||◌, Option, none, some, Text, List, [], ◌∷◌, codes,
  text_eq, text_eq_refl, text_eq_sym, arith, if◌then◌else◌, Result, ok,
}
use agenelf.Operations.Requests.{read_json}
use agenelf.Operations.Lookup.{read_json-put}
use agenelf.Permissions.Files.{Vote, distinct}
use agenelf.Owner.Files.{ApprovalError, OwnerDecision, OwnerFiles, Codec}
use agenelf.Owner.Decide.{
  Action, approve, deny, Ballot, is_final, single_decision, named_votes, earlier_votes, with_vote,
  has_quorum, joint_decision, required_approvers, replace, fresh_plan, make_plan, store, commit,
  cast, read_ballot, apply_owner_decision,
}
use agenelf.Owner.Turns.{Turn, seen, turn, is_open}

-- An approval of a request that asks for two people.
pub record AsksTwo (b : Ballot) : Type 0 where
  pub approves : b.action ≡ approve
  pub two : required_approvers b.request ≡ 2

approve_plan :
    (a : Action) (now : ℕ) (b : Ballot) (existing : Option OwnerDecision)
    → a ≡ approve
    → required_approvers b.request ≡ 2
    → fresh_plan a now b existing ≡ replace (joint_decision now b existing)
unfolding fresh_plan
approve_plan deny now b existing e two = cc
approve_plan approve now b existing e two = rw two refl

joint_plan :
    (now : ℕ) (b : Ballot) (existing : Option OwnerDecision)
    → AsksTwo b
    → fresh_plan b.action now b existing ≡ replace (joint_decision now b existing)
joint_plan now b existing asks = approve_plan b.action now b existing asks.approves asks.two

cast-joint :
    (now : ℕ) (b : Ballot) (files : OwnerFiles) (existing : Option OwnerDecision)
    → AsksTwo b
    → read_json b.request_id files.decisions ≡ existing
    → make_plan now b existing ≡ ok (fresh_plan b.action now b existing)
    → cast now b files ≡ (
      ok (joint_decision now b existing),
      store b.request_id (joint_decision now b existing) files,
    )
unfolding cast commit
cast-joint now b files existing asks there planned =
    rw there (rw planned (rw (joint_plan now b existing asks) refl))

first_vote :
    (now : ℕ) (b : Ballot)
    → AsksTwo b
    → ((joint_decision now b none).decision ≡ codes "collecting")
      × ((joint_decision now b none).approvals ≡ some b.actor ∷ [])
unfolding joint_decision single_decision earlier_votes with_vote has_quorum distinct
first_vote now b asks = (rw asks.two refl, refl)

two_votes :
    (a c : Text)
    → text_eq a c ≡ false
    → (if has_quorum 2 (some a ∷ some c ∷ []) then codes "approve" else codes "collecting")
      ≡ codes "approve"
unfolding has_quorum distinct
two_votes a c other = rw other refl

second_vote :
    (now : ℕ) (b : Ballot) (d : OwnerDecision) (who : Text)
    → AsksTwo b
    → d.decision ≡ codes "collecting"
    → d.approvals ≡ some who ∷ []
    → text_eq b.actor who ≡ false
    → ((joint_decision now b (some d)).decision ≡ codes "approve")
      × ((joint_decision now b (some d)).approvals ≡ some who ∷ some b.actor ∷ [])
      × ((joint_decision now b (some d)).fingerprint ≡ b.fingerprint)
unfolding joint_decision single_decision earlier_votes with_vote has_quorum distinct named_votes
second_vote now b d who asks collecting votes other =
    let earlier : earlier_votes (some d) ≡ some who ∷ [] =
      ap (λ (x : Text). if text_eq x (codes "collecting") then named_votes d.approvals else [])
        collecting
      ∙ ap named_votes votes in
    let both : with_vote b.actor (earlier_votes (some d)) ≡ some who ∷ some b.actor ∷ [] =
      rw earlier (rw other refl) in
    (
      ap
            (λ (n : ℕ).
              if has_quorum n (with_vote b.actor (earlier_votes (some d)))
              then codes "approve"
              else codes "collecting")
            asks.two
          ∙ ap (λ (vs : List Vote). if has_quorum 2 vs then codes "approve" else codes "collecting")
              both
          ∙ two_votes who b.actor (text_eq_sym who b.actor ∙ other),
      both,
      refl,
    )

fresh_open :
    (now : ℕ) (b : Ballot) (existing : Option OwnerDecision)
    → is_open existing ≡ true
    → make_plan now b existing ≡ ok (fresh_plan b.action now b existing)
unfolding make_plan
fresh_open now b none h = refl
fresh_open now b (some d) h = ground arith

collecting_open : (d : OwnerDecision) → d.decision ≡ codes "collecting" → is_open (some d) ≡ true
unfolding is_final
collecting_open d collecting =
    ap (λ (x : Text). not (text_eq x (codes "approve") || text_eq x (codes "deny"))) collecting

module _ (codec : Codec) where
  turn-joint :
      (t : Turn) (files : OwnerFiles) (b : Ballot) (existing : Option OwnerDecision)
      → read_ballot codec t.request_id t.action t.reason t.decided_by (seen t files) ≡ ok b
      → AsksTwo b
      → read_json b.request_id files.decisions ≡ existing
      → make_plan t.now b existing ≡ ok (fresh_plan b.action t.now b existing)
      → read_json b.request_id (turn codec t files).1.decisions
        ≡ some (joint_decision t.now b existing)
  unfolding turn apply_owner_decision store
  turn-joint t files b existing ballot asks there planned = rw ballot (
      ap
        (λ (x : Result ApprovalError OwnerDecision × OwnerFiles).
          read_json b.request_id x.1.decisions)
        (cast-joint t.now b (seen t files) existing asks there planned)
      ∙ read_json-put b.request_id b.request_id (joint_decision t.now b existing) files.decisions
      ∙ rw (text_eq_refl b.request_id) refl)

  -- Where a request asks for two people and there is no decision: one of them approves it, the
  -- agent writes another request into its file, and another person approves that one. The decision
  -- then approves the second request by the votes of both, although the first never saw it.
  pub turns-other_payload :
      (t u : Turn) (files : OwnerFiles) (b c : Ballot)
      → read_json b.request_id files.decisions ≡ none
      → read_ballot codec t.request_id t.action t.reason t.decided_by (seen t files) ≡ ok b
      → read_ballot codec u.request_id u.action u.reason u.decided_by
          (seen u (turn codec t files).1)
        ≡ ok c
      → c.request_id ≡ b.request_id
      → text_eq c.actor b.actor ≡ false
      → AsksTwo b
      → AsksTwo c
      → (d : OwnerDecision) × (read_json c.request_id
            (turn codec u (turn codec t files).1).1.decisions
          ≡ some d)
        × (d.decision ≡ codes "approve")
        × (d.fingerprint ≡ c.fingerprint)
        × (d.approvals ≡ some b.actor ∷ some c.actor ∷ [])
  turns-other_payload t u files b c fresh first second same other two_b two_c =
      let d = joint_decision t.now b none in
      let (collecting, votes) = first_vote t.now b two_b in
      let stored = turn-joint t files b none first two_b fresh (fresh_open t.now b none refl) in
      let found = ap (λ (x : Text). read_json x (turn codec t files).1.decisions) same ∙ stored in
      let (says, both, print) = second_vote u.now c d b.actor two_c collecting votes other in
      (
        joint_decision u.now c (some d),
        turn-joint u (turn codec t files).1 c (some d) second two_c found
            (fresh_open u.now c (some d) (collecting_open d collecting)),
        says,
        print,
        both,
      )
