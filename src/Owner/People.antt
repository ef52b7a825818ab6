-- ===== src/Owner/People.antt =====
-- Who approves a request in a sequence of calls (app/core/owner_approval.py), and lists of votes that
-- come from some people.
use agenelf.Base.{
  ◌≡◌, refl, Bool, true, not, ◌&&◌, Option, none, some, Text, List, [], ◌∷◌, ◌++◌, text_eq, one_of,
  all, arith, if◌then◌else◌, Result, ok,
}
use agenelf.Permissions.Files.{Vote, distinct}
use agenelf.Owner.Files.{ApprovalError, validate_request_id}
use agenelf.Owner.Decide.{Action, approve, deny, parse_action, parse_actor, named_votes, with_vote}
use agenelf.Owner.Turns.{Turn}

abbrev pub acting : Action → Text → Option Text
acting deny who = none
acting approve who = some who

unfoldable pub actor_for :
    Text
    → Result ApprovalError Text
    → Result ApprovalError Action
    → Result ApprovalError Text
    → Option Text
actor_for id (ok rid) (ok action) (ok who) = if text_eq rid id then acting action who else none
actor_for id _ _ _ = none

-- The actor of a call, if it approves this request.
unfoldable pub approver : Text → Turn → Option Text
unfolding actor_for
approver id t =
    actor_for id (validate_request_id t.request_id) (parse_action t.action)
      (parse_actor t.decided_by)

unfoldable pub add : Option Text → List Text → List Text
add none people = people
add (some who) people = who ∷ people

-- Everybody who approves the request in these calls, added to some people.
unfoldable pub approvers : Text → List Turn → List Text → List Text
unfolding approver add
approvers id [] people = people
approvers id (t ∷ ts) people = approvers id ts (add (approver id t) people)

unfoldable pub no_repeats : List Text → Bool
no_repeats [] = true
no_repeats (x ∷ xs) = not (one_of xs x) && no_repeats xs

pub distinct-no_repeats : (votes : List Vote) → no_repeats (distinct votes) ≡ true
unfolding distinct no_repeats
distinct-no_repeats [] = refl
distinct-no_repeats (none ∷ votes) = distinct-no_repeats votes
distinct-no_repeats (some who ∷ votes) = ground (arith, distinct-no_repeats votes)

-- Do all votes come from these people?
abbrev pub all_from : List Text → List Vote → Bool
all_from people [] = true
all_from people (none ∷ votes) = all_from people votes
all_from people (some who ∷ votes) = one_of people who && all_from people votes

pub all_from-distinct :
    (people : List Text) (votes : List Vote)
    → all_from people votes ≡ true
    → all (one_of people) (distinct votes) ≡ true
unfolding distinct
all_from-distinct people [] h = refl
all_from-distinct people (none ∷ votes) h = all_from-distinct people votes h
all_from-distinct people (some who ∷ votes) h = ground (arith, all_from-distinct people votes)

pub all_from-add :
    (o : Option Text) (people : List Text) (votes : List Vote)
    → all_from people votes ≡ true
    → all_from (add o people) votes ≡ true
unfolding add
all_from-add none people votes h = h
all_from-add (some p) people [] h = refl
all_from-add (some p) people (none ∷ votes) h = all_from-add (some p) people votes h
all_from-add (some p) people (some who ∷ votes) h =
    ground (arith, all_from-add (some p) people votes)

pub all_from-named :
    (people : List Text) (votes : List Vote)
    → all_from people votes ≡ true
    → all_from people (named_votes votes) ≡ true
unfolding named_votes
all_from-named people [] h = refl
all_from-named people (none ∷ votes) h = all_from-named people votes h
all_from-named people (some who ∷ votes) h = ground (arith, all_from-named people votes)

pub all_from-append :
    (people : List Text) (votes : List Vote) (who : Text)
    → all_from people votes ≡ true
    → one_of people who ≡ true
    → all_from people (votes ++ some who ∷ []) ≡ true
all_from-append people [] who h k = ground arith
all_from-append people (none ∷ votes) who h k = all_from-append people votes who h k
all_from-append people (some w ∷ votes) who h k = ground (arith, all_from-append people votes who)

pub all_from-with_vote :
    (people : List Text) (votes : List Vote) (who : Text)
    → all_from people votes ≡ true
    → one_of people who ≡ true
    → all_from people (with_vote who votes) ≡ true
unfolding with_vote
all_from-with_vote people votes who h k = ground (arith, all_from-append people votes who h k)
