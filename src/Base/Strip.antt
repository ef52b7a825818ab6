-- ===== src/Base/Strip.antt =====
-- `strip` twice is `strip` once.
use Prim.Native.Nat.{ℕ}
use mathlib.Core.Path.{◌≡◌, refl, ap, ◌∙◌}
use mathlib.Core.Logic.{inl, inr}
use mathlib.Core.List.{[], ◌∷◌}
use native.Mathlib.Omega.{arith}
use agenelf.Base.Tests.{Bool-cases}
use agenelf.Base.Texts.{Text, is_space, lstrip, rstrip, strip}

lstrip_idem : (s : Text) → lstrip (lstrip s) ≡ lstrip s
lstrip_idem [] = refl
lstrip_idem (c ∷ s) = elim (Bool-cases (is_space c)) [
  | inl space ↦ rw space (lstrip_idem s)
  | inr char ↦ rw char (rw char)
]

rstrip_idem : (s : Text) → rstrip (rstrip s) ≡ rstrip s
rstrip_idem [] = refl
rstrip_idem (c ∷ s) = ground (arith, rstrip_idem s)

rstrip-tail : (c : ℕ) (s : Text) → rstrip (c ∷ s) ≡ c ∷ s → rstrip s ≡ s
rstrip-tail c s h = ground arith

rstrip-lstrip : (s : Text) → rstrip s ≡ s → rstrip (lstrip s) ≡ lstrip s
rstrip-lstrip [] h = refl
rstrip-lstrip (c ∷ s) h = elim (Bool-cases (is_space c)) [
  | inl space ↦ rw space (rstrip-lstrip s (rstrip-tail c s h))
  | inr char ↦ rw char h
]

pub strip_idem : (s : Text) → strip (strip s) ≡ strip s
strip_idem s = ap lstrip (rstrip-lstrip (rstrip s) (rstrip_idem s)) ∙ lstrip_idem (rstrip s)
