-- ===== src/Owner/Approved.antt =====
-- The decisions of app/core/owner_approval.py as app/core/permissions.py reads them.
use agenelf.Base.{
  ℕ, ◌≡◌, refl, sym, ap, ◌∙◌, true, false, ◌&&◌, Option, none, some, Text, List, [], ◌∷◌, codes,
  text_eq, text_eq_iff, one_of, all, length, ltb, arith, ok,
}
use agenelf.Operations.Requests.{read_json}
use agenelf.Operations.Lookup.{read_json-cons}
use agenelf.Permissions.Files.{AuthRequest, AuthDecision, AuthFiles, distinct, required_of}
use agenelf.Permissions.Check.{approved, check_auth, lacks_votes}
use agenelf.Permissions.Binding.{check_auth-Backs}
use agenelf.Owner.Files.{OwnerDecision, OwnerFiles, Codec, as_auth}
use agenelf.Owner.Turns.{Turn, turns}
use agenelf.Owner.Votes.{backed, turns-backed}
use agenelf.Owner.People.{approvers, no_repeats, distinct-no_repeats, all_from, all_from-distinct}

unfoldable pub auth_decisions :
    List (Text × Option OwnerDecision) → List (Text × Option AuthDecision)
unfolding as_auth
auth_decisions [] = []
auth_decisions ((name, none) ∷ ds) = (name, none) ∷ auth_decisions ds
auth_decisions ((name, some d) ∷ ds) = (name, some (as_auth d)) ∷ auth_decisions ds

abbrev map_auth : Option OwnerDecision → Option AuthDecision
map_auth none = none
map_auth (some d) = some (as_auth d)

auth_decisions-read :
    (id : Text) (ds : List (Text × Option OwnerDecision))
    → read_json id (auth_decisions ds) ≡ map_auth (read_json id ds)
unfolding auth_decisions read_json
auth_decisions-read id [] = refl
auth_decisions-read id ((name, none) ∷ ds) = ground (
  arith,
  read_json-cons {A = OwnerDecision} id name none ds,
  read_json-cons {A = AuthDecision} id name none (auth_decisions ds),
  auth_decisions-read id ds,
)
auth_decisions-read id ((name, some e) ∷ ds) = ground (
  arith,
  read_json-cons id name (some e) ds,
  read_json-cons id name (some (as_auth e)) (auth_decisions ds),
  auth_decisions-read id ds,
)

map_auth-some :
    (o : Option OwnerDecision) {a : AuthDecision}
    → map_auth o ≡ some a
    → (d : OwnerDecision) × (o ≡ some d) × (as_auth d ≡ a)
map_auth-some none h = ground arith
map_auth-some (some d) h = (d, refl, ground arith)

backed-all_from :
    (people : List Text) (d : OwnerDecision)
    → backed people (some d) ≡ true
    → all_from people d.approvals ≡ true
backed-all_from people d held = ground arith

decided_by-one_of :
    (people : List Text) (d : OwnerDecision)
    → backed people (some d) ≡ true
    → d.decision ≡ codes "approve"
    → one_of people d.decided_by ≡ true
decided_by-one_of people d held says =
    let approves : text_eq d.decision (codes "approve") ≡ true =
      (text_eq_iff d.decision (codes "approve")).1 says in
    ground arith

module _ (codec : Codec) where
  enough_votes :
      (request : AuthRequest) (d : OwnerDecision)
      → lacks_votes codec.digest request (as_auth d) ≡ false
      → (ltb 1 (required_of request.required_approvers)
          && ltb (length (distinct d.approvals)) (required_of request.required_approvers))
        ≡ false
  unfolding lacks_votes as_auth
  enough_votes request d h = h

  -- Where no decision was there at first, an authorization is approved after a sequence of calls
  -- only if the last word came from somebody who approved it in these calls, and if as many
  -- different people as the request asks for, where that is more than one, approved it there.
  pub turns-approved :
      (ts : List Turn) (files : OwnerFiles) (id : Text) (auths : AuthFiles) (expected : Option Text)
      (now : ℕ)
      → read_json id files.decisions ≡ none
      → auths.decisions ≡ auth_decisions (turns codec ts files).decisions
      → check_auth codec.digest auths id expected now ≡ ok approved
      → (request : AuthRequest) × (d : OwnerDecision) × (voters : List Text) × (read_json id
            auths.requests
          ≡ some request)
        × (read_json id (turns codec ts files).decisions ≡ some d)
        × (one_of (approvers id ts []) d.decided_by ≡ true)
        × (no_repeats voters ≡ true)
        × (all (one_of (approvers id ts [])) voters ≡ true)
        × ((ltb 1 (required_of request.required_approvers)
              && ltb (length voters) (required_of request.required_approvers))
            ≡ false)
  unfolding as_auth
  turns-approved ts files id auths expected now fresh shared status =
      let (request, a, asked, unused, decided, backs) =
        check_auth-Backs codec.digest auths id expected now status in
      let stored : map_auth (read_json id (turns codec ts files).decisions) ≡ some a =
        sym (auth_decisions-read id (turns codec ts files).decisions)
        ∙ ap (read_json id) (sym shared)
        ∙ decided in
      let (d, there, view) = map_auth-some (read_json id (turns codec ts files).decisions) stored in
      let whole = turns-backed codec ts files id [] (ap (backed []) fresh ∙ refl) in
      let held : backed (approvers id ts []) (some d) ≡ true =
        ap (backed (approvers id ts [])) (sym there) ∙ whole in
      let says : d.decision ≡ codes "approve" =
        ap (λ (x : AuthDecision). x.decision) view ∙ backs.says in
      let votes = ap (lacks_votes codec.digest request) view ∙ backs.votes in
      let people = approvers id ts [] in
      (
        request,
        d,
        distinct d.approvals,
        asked,
        there,
        decided_by-one_of people d held says,
        distinct-no_repeats d.approvals,
        all_from-distinct people d.approvals (backed-all_from people d held),
        enough_votes request d votes,
      )
