-- ===== src/Prelude/Int.antt =====
-- Signed integers (Go's int, which the development does not bound) over the native numbers.
use Prim.Native.Nat.{ℕ, suc, ◌+◌, ◌-◌, ◌%◌, ◌≤◌}
use mathlib.Core.Bool.{Bool, false}
use paqet.Prelude.Tests.{ltb, ◌==◌}

-- `negsuc n` is -(n + 1).
pub data ℤ : Type 0 where
  pos : ℕ → ℤ
  negsuc : ℕ → ℤ

abbrev pub pos_part : ℤ → ℕ
pos_part (pos n) = n
pos_part (negsuc n) = 0

abbrev pub neg_part : ℤ → ℕ
neg_part (pos n) = 0
neg_part (negsuc n) = suc n

infix 50 ◌≤ℤ◌
abbrev pub ◌≤ℤ◌ : ℤ → ℤ → Type 0
a ≤ℤ b = pos_part a + neg_part b ≤ pos_part b + neg_part a

abbrev pub ltb_ℤ : ℤ → ℤ → Bool
ltb_ℤ a b = ltb (pos_part a + neg_part b) (pos_part b + neg_part a)

-- a == n for a number n.
abbrev pub is_ℕ : ℤ → ℕ → Bool
is_ℕ (pos n) m = n == m
is_ℕ (negsuc n) m = false

-- uint16(a): the two's complement residue.
abbrev pub u16_of_ℤ : ℤ → ℕ
u16_of_ℤ (pos n) = n % 65536
u16_of_ℤ (negsuc n) = 65535 - n % 65536
