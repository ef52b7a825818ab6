-- ===== src/Base/Int.antt =====
-- The integers that callers hand in where a list index is wanted, and the test that one is in range.
use Prim.Native.Nat.{ℕ}
use mathlib.Core.Option.{Option, none, some}
use agenelf.Base.Tests.{ltb, if◌then◌else◌}

-- `negsuc n` is -(n + 1).
pub data ℤ : Type 0 where
  pos : ℕ → ℤ
  negsuc : ℕ → ℤ

-- `not (i < 0 or i >= n)`, with the index as a natural number.
abbrev pub index_below : ℕ → ℤ → Option ℕ
index_below n (pos i) = if ltb i n then some i else none
index_below n (negsuc i) = none
