-- ===== src/Util.antt =====
-- util.c: the bits of a bitfield.
pub mod Bits
use unworkable.Common.{
  ℕ, ◌+◌, ◌-◌, ◌/◌, ◌%◌, ◌^◌, ◌≡◌, Bool, not, List, Outcome, ok, must, ◌>>=◌, ◌==◌, get_elem?, set,
  u8,
}
use Prim.Native.Nat.{bit_and, bit_or}

-- The mask of a bit: `1u << (7u - (bit & 7u))`.
abbrev pub mask : ℕ → ℕ
mask bit = 2 ^ (7 - bit % 8)

-- `bitfield[byte] |= 1 << (7u - (bit & 7u))`, with `byte = bit >> 3u`.
pub setbit : List ℕ → ℕ → Outcome (List ℕ)
setbit bitfield bit = do
  x ← must (get_elem? bitfield (bit / 8))
  ok (set bitfield (bit / 8) (u8 (bit_or x (mask bit))))

-- `(bitfield[byte] & (1u << (7u - (bit & 7u)))) != 0`
unfoldable pub getbit : List ℕ → ℕ → Outcome Bool
getbit bitfield bit = do
  x ← must (get_elem? bitfield (bit / 8))
  ok (not (bit_and x (mask bit) == 0))
