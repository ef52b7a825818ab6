-- ===== src/Permissions/Voters.antt =====
-- People and their votes, as the set of approvers of app/core/permissions.py counts them.
use agenelf.Base.{
  suc, ◌≤◌, ◌≡◌, refl, sym, ap, ◌∙◌, Bool, true, false, ◌&&◌, ◌||◌, none, some, Text, List, [], ◌∷◌,
  text_eq, text_eq_iff, text_eq_refl, one_of, all, length, arith, if◌then◌else◌, inl, inr,
  Bool-cases,
}
use agenelf.Permissions.Files.{Vote, distinct}
use agenelf.Owner.People.{no_repeats}

unfoldable pub has_voted : List Vote → Text → Bool
has_voted [] who = false
has_voted (none ∷ votes) who = has_voted votes who
has_voted (some voter ∷ votes) who = text_eq who voter || has_voted votes who

drop_one : Text → List Text → List Text
drop_one x [] = []
drop_one x (y ∷ ys) = if text_eq x y then ys else y ∷ drop_one x ys

drop_one-length :
    (x : Text) (ys : List Text) → one_of ys x ≡ true → suc (length (drop_one x ys)) ≤ length ys
unfolding drop_one
drop_one-length x [] h = ground arith
drop_one-length x (y ∷ ys) h = elim (Bool-cases (text_eq x y)) [
  | inl same ↦ rw same (omega arith)
  | inr two ↦ rw two (omega (arith, drop_one-length x ys (ground (arith, h, two))))
]

drop_one-keeps :
    (x z : Text) (ys : List Text)
    → text_eq z x ≡ false
    → one_of ys z ≡ true
    → one_of (drop_one x ys) z ≡ true
unfolding drop_one
drop_one-keeps x z [] two h = ground arith
drop_one-keeps x z (y ∷ ys) two h = elim (Bool-cases (text_eq x y)) [
  | inl same ↦
      let e = (text_eq_iff x y).0 same in
      let other : text_eq z y ≡ false = ap (text_eq z) (sym e) ∙ two in
      rw same (ground (arith, h, other))
  | inr apart ↦ elim (Bool-cases (text_eq z y)) [
    | inl here ↦ rw apart (ground (arith, here))
    | inr away ↦
        rw apart (ground (arith, away, drop_one-keeps x z ys two (ground (arith, h, away))))
  ]
]

symmetric : (x y : Text) → text_eq x y ≡ false → text_eq y x ≡ false
symmetric x y h = elim (Bool-cases (text_eq y x)) [
  | inr two ↦ two
  | inl same ↦ ground (arith, h, (text_eq_iff x y).1 (sym ((text_eq_iff y x).0 same)))
]

drop_one-all :
    (x : Text) (xs ys : List Text)
    → one_of xs x ≡ false
    → all (one_of ys) xs ≡ true
    → all (one_of (drop_one x ys)) xs ≡ true
drop_one-all x [] ys out h = refl
drop_one-all x (z ∷ xs) ys out h =
    let two = symmetric x z (ground (arith, out)) in
    ground (
      arith,
      drop_one-keeps x z ys two (ground (arith, h)),
      drop_one-all x xs ys (ground (arith, out)) (ground (arith, h)),
    )

-- Different texts of a list are no more than the list is long.
pub no_repeats-length :
    (xs ys : List Text) → no_repeats xs ≡ true → all (one_of ys) xs ≡ true → length xs ≤ length ys
unfolding no_repeats
no_repeats-length [] ys different h = omega arith
no_repeats-length (x ∷ xs) ys different h = omega (
  arith,
  drop_one-length x ys (ground (arith, h)),
  no_repeats-length xs (drop_one x ys) (ground (arith, different))
      (drop_one-all x xs ys (ground (arith, different)) (ground (arith, h))),
)

voter-same :
    (who voter : Text) (votes : List Text)
    → text_eq who voter ≡ true
    → one_of votes voter ≡ one_of votes who
voter-same who voter votes h = ap (one_of votes) (sym ((text_eq_iff who voter).0 h))

distinct-has_voted :
    (votes : List Vote) (who : Text) → one_of (distinct votes) who ≡ has_voted votes who
unfolding distinct has_voted
distinct-has_voted [] who = refl
distinct-has_voted (none ∷ votes) who = distinct-has_voted votes who
distinct-has_voted (some voter ∷ votes) who =
    let rest = distinct-has_voted votes who in
    elim (Bool-cases (one_of (distinct votes) voter)) [
      | inr fresh ↦ rw fresh (ap (λ b. text_eq who voter || b) rest)
      | inl there ↦ elim (Bool-cases (text_eq who voter)) [
        | inl same ↦ rw (there, same) (sym (voter-same who voter (distinct votes) same) ∙ there)
        | inr two ↦ rw (there, two) rest
      ]
    ]

pub all-distinct :
    (votes : List Vote) (people : List Text)
    → all (one_of (distinct votes)) people ≡ all (has_voted votes) people
all-distinct votes [] = refl
all-distinct votes (who ∷ people) =
    rw (distinct-has_voted votes who)
      (ap (λ b. has_voted votes who && b) (all-distinct votes people))

all_more :
    (xs ys : List Text) → all (one_of xs) ys ≡ true → (x : Text) → all (one_of (x ∷ xs)) ys ≡ true
all_more xs [] h x = refl
all_more xs (y ∷ ys) h x = ground (arith, h, all_more xs ys (ground (arith, h)) x)

pub all-one_of : (xs : List Text) → all (one_of xs) xs ≡ true
all-one_of [] = refl
all-one_of (x ∷ xs) = ground (arith, text_eq_refl x, all_more xs xs (all-one_of xs) x)
