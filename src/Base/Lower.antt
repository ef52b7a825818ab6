-- ===== src/Base/Lower.antt =====
-- `lower` and `strip` one after the other.
use Prim.Native.Nat.{ℕ, ◌+◌, ◌≤◌, ◌<◌}
use mathlib.Core.Path.{◌≡◌, refl, sym, ap, ap₂, subst, ◌∙◌}
use mathlib.Core.Logic.{inl, inr}
use mathlib.Core.Bool.{true, false, ◌&&◌}
use mathlib.Core.List.{[], ◌∷◌}
use native.Mathlib.Omega.{arith}
use agenelf.Base.Tests.{Bool-cases, leb, ◌==◌}
use agenelf.Base.Lists.{is_empty}
use agenelf.Base.Texts.{Text, is_space, lstrip, rstrip, strip, lower_char, lower}
use agenelf.Base.Strip.{strip_idem}

is_space-printable : (c : ℕ) → 33 ≤ c → c < 133 → is_space c ≡ false
is_space-printable c low high = ground arith

letter_up : (c : ℕ) → (leb b'A' c && leb c b'Z') ≡ true → lower_char c ≡ c + 32
letter_up c h = rw h refl

same_char : (c : ℕ) → (leb b'A' c && leb c b'Z') ≡ false → (c == 8490) ≡ false → lower_char c ≡ c
same_char c h k = rw h (rw k refl)

is_space-lower_char : (c : ℕ) → is_space (lower_char c) ≡ is_space c
is_space-lower_char c = elim (Bool-cases (leb b'A' c && leb c b'Z')) [
  | inl letter ↦
      let low : 65 ≤ c = ground arith in
      let high : c ≤ 90 = ground arith in
      ap (λ (d : ℕ). is_space d) (letter_up c letter)
      ∙ is_space-printable (c + 32) (omega arith) (omega arith)
      ∙ sym (is_space-printable c (omega arith) (omega arith))
  | inr other ↦ elim (Bool-cases (c == 8490)) [
    | inl kelvin ↦
        let e : c ≡ 8490 = ground arith in
        subst (λ (d : ℕ). is_space (lower_char d) ≡ is_space d) (sym e) refl
    | inr plain ↦ ap (λ (d : ℕ). is_space d) (same_char c other plain)
  ]
]

lower_char_idem : (c : ℕ) → lower_char (lower_char c) ≡ lower_char c
lower_char_idem c = ground arith

lower_idem : (s : Text) → lower (lower s) ≡ lower s
lower_idem [] = refl
lower_idem (c ∷ s) = ap₂ ◌∷◌ (lower_char_idem c) (lower_idem s)

is_empty-lower : (s : Text) → is_empty (lower s) ≡ is_empty s
is_empty-lower [] = refl
is_empty-lower (c ∷ s) = refl

rstrip-lower : (s : Text) → rstrip (lower s) ≡ lower (rstrip s)
rstrip-lower [] = refl
rstrip-lower (c ∷ s) = rw (rstrip-lower s) (
    rw (is_space-lower_char c) (
      rw (is_empty-lower (rstrip s)) (elim (Bool-cases (is_space c && is_empty (rstrip s))) [
        | inl e ↦ rw e refl
        | inr e ↦ rw e refl
      ])))

lstrip-lower : (s : Text) → lstrip (lower s) ≡ lower (lstrip s)
lstrip-lower [] = refl
lstrip-lower (c ∷ s) = rw (lstrip-lower s) (
    rw (is_space-lower_char c)
      (elim (Bool-cases (is_space c)) [ inl e ↦ rw e refl | inr e ↦ rw e refl ]))

strip-lower : (s : Text) → strip (lower s) ≡ lower (strip s)
strip-lower s = ap lstrip (rstrip-lower s) ∙ lstrip-lower (rstrip s)

-- A text that has been stripped and put into lower case stays as it is under the same.
pub lower-strip_idem : (s : Text) → lower (strip (lower (strip s))) ≡ lower (strip s)
lower-strip_idem s =
    ap lower (strip-lower (strip s))
    ∙ ap (λ (x : Text). lower (lower x)) (strip_idem s)
    ∙ lower_idem (strip s)
