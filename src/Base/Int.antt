-- ===== src/Base/Int.antt =====
-- Signed integers over the native numbers, and their 32 and 64 bits.
use Prim.Native.Nat.{ℕ, suc, ◌+◌, ◌-◌, ◌%◌, ◌^◌, ◌≤◌}
use mathlib.Core.Bool.{Bool}
use lin_stat.Base.Tests.{ltb, ◌==◌, if◌then◌else◌}

-- `negsuc n` is -(n + 1).
pub data ℤ : Type 0 where
  pos : ℕ → ℤ
  negsuc : ℕ → ℤ

abbrev pub pos_part : ℤ → ℕ
pos_part (pos n) = n
pos_part (negsuc n) = 0

abbrev pub neg_part : ℤ → ℕ
neg_part (pos n) = 0
neg_part (negsuc n) = suc n

infix 50 ◌≤ℤ◌
abbrev pub ◌≤ℤ◌ : ℤ → ℤ → Type 0
a ≤ℤ b = pos_part a + neg_part b ≤ pos_part b + neg_part a

abbrev pub ltb_ℤ : ℤ → ℤ → Bool
ltb_ℤ a b = ltb (pos_part a + neg_part b) (pos_part b + neg_part a)

-- The bits of an integer in two's complement, of `w` bits.
abbrev pub bits_of_int : ℕ → ℤ → ℕ
bits_of_int w (pos n) = n % 2 ^ w
bits_of_int w (negsuc n) = 2 ^ w - 1 - n % 2 ^ w

-- The integer that `w` bits stand for.
abbrev pub int_of_bits : ℕ → ℕ → ℤ
int_of_bits w b = if ltb (b + b) (2 ^ w) then pos b else negsuc (2 ^ w - 1 - b)

-- A conversion to int32_t.
abbrev pub int32 : ℤ → ℤ
int32 z = int_of_bits 32 (bits_of_int 32 z)

-- A value passed as int64_t, as its 64 bits.
abbrev pub bits64 : ℤ → ℕ
bits64 z = bits_of_int 64 z

abbrev pub is_zero : ℤ → Bool
is_zero z = pos_part z + neg_part z == 0
