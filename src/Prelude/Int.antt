-- ===== src/Prelude/Int.antt =====
-- The integers of the program. `int` and `int64` values are only compared, so they are integers;
-- an `int32` is its bit pattern, a number below 2 ^ 32, so that sums wrap as in the program.
use Prim.Native.Nat.{ℕ, suc, ◌+◌, ◌%◌, ◌<◌, ◌≤◌}
use mathlib.Core.Path.{◌≡◌}
use mathlib.Core.Bool.{Bool}
use native.Mathlib.Omega.{arith}
use sidekick.Prelude.Tests.{ltb}

-- `negsuc n` is -(n + 1).
pub data ℤ : Type 0 where
  pos : ℕ → ℤ
  negsuc : ℕ → ℤ

abbrev pub pos_part : ℤ → ℕ
pos_part (pos n) = n
pos_part (negsuc n) = 0

abbrev pub neg_part : ℤ → ℕ
neg_part (pos n) = 0
neg_part (negsuc n) = suc n

abbrev pub ltb_ℤ : ℤ → ℤ → Bool
ltb_ℤ a b = ltb (pos_part a + neg_part b) (pos_part b + neg_part a)

infix 50 ◌<ℤ◌ ◌≤ℤ◌
abbrev pub ◌<ℤ◌ : ℤ → ℤ → Type 0
a <ℤ b = pos_part a + neg_part b < pos_part b + neg_part a

abbrev pub ◌≤ℤ◌ : ℤ → ℤ → Type 0
a ≤ℤ b = pos_part a + neg_part b ≤ pos_part b + neg_part a

-- An `int32`, as its bit pattern.
abbrev pub Int32 : Type 0
Int32 = ℕ

abbrev pub add32 : Int32 → Int32 → Int32
add32 a b = (a + b) % 4294967296

-- The signed order: adding 2 ^ 31 turns it into the order of the patterns.
abbrev pub ltb32 : Int32 → Int32 → Bool
ltb32 a b = ltb ((a + 2147483648) % 4294967296) ((b + 2147483648) % 4294967296)

-- On patterns of numbers that are not negative the signed order is that of ℕ.
pub ltb32-eq-ltb : (a b : ℕ) → a < 2147483648 → b < 2147483648 → ltb32 a b ≡ ltb a b
ltb32-eq-ltb a b p q = ground arith
