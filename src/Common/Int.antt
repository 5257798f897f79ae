-- ===== src/Common/Int.antt =====
-- The integers, for `long`, `long long` and `off_t`.
use Prim.Native.Nat.{ℕ, ◌+◌, ◌-◌, ◌%◌, ◌^◌}
use mathlib.Core.Bool.{Bool, false}
use unworkable.Common.Abort.{Outcome, ok, fault}
use unworkable.Common.Tests.{◌==◌, ltb, leb, if◌then◌else◌}

-- `negsuc n` is -(n + 1).
pub data ℤ : Type 0 where
  pos : ℕ → ℤ
  negsuc : ℕ → ℤ

-- A comparison with a count.
abbrev pub is_nat : ℤ → ℕ → Bool
is_nat (pos n) k = n == k
is_nat (negsuc n) k = false

-- The conversion to an unsigned word of `w` bits.
abbrev pub to_word : ℕ → ℤ → ℕ
to_word w (pos n) = n % 2 ^ w
to_word w (negsuc n) = (2 ^ w - 1) - n % 2 ^ w

abbrev pub pos_part : ℤ → ℕ
pos_part (pos n) = n
pos_part (negsuc n) = 0

abbrev pub neg_part : ℤ → ℕ
neg_part (pos n) = 0
neg_part (negsuc n) = n + 1

abbrev pub sub_ℕ : ℕ → ℕ → ℤ
sub_ℕ a b = if leb b a then pos (a - b) else negsuc (b - a - 1)

-- A value that 64 bits have room for; C leaves the overflow undefined.
abbrev pub in_64 : ℤ → Outcome ℤ
in_64 (pos n) = if ltb n (2 ^ 63) then ok (pos n) else fault
in_64 (negsuc n) = if ltb n (2 ^ 63) then ok (negsuc n) else fault

abbrev pub add_64 : ℤ → ℤ → Outcome ℤ
add_64 a b = in_64 (sub_ℕ (pos_part a + pos_part b) (neg_part a + neg_part b))
