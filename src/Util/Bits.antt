-- ===== src/Util/Bits.antt =====
-- util_setbit and util_getbit of util.c against a bitfield as a set of indices.
use unworkable.Common.{
  ℕ, zero, suc, ◌-◌, ◌*◌, ◌/◌, ◌%◌, ◌^◌, ◌<◌, ◌≡◌, refl, Bool, true, false, not, ◌&&◌, List, ok,
  arith, ◌==◌, if◌then◌else◌, length, get_elem?, set, u8, All, get_elem?_of_lt, get_elem?-set_self,
  get_elem?-set_ne, All-get_elem?, All-set, length-set, some,
}
use Prim.Native.Nat.{bit_and, bit_or, bit_and-bitwise}
use unworkable.Common.{replicate, get_elem?-replicate, ◌*◌}
use native.Mathlib.Decide.{ℕ_discrete}
use unworkable.Util.{mask, setbit, getbit}

-- A bitfield is an array of bytes.
abbrev pub IsBytes : List ℕ → Type 0
IsBytes xs = All (λ x. x < 256) xs

-- The bit that a mask names, in a byte.
abbrev bit_at : ℕ → ℕ → Bool
bit_at x k = not (bit_and x (2 ^ (7 - k)) == 0)

every : (ℕ → Bool) → ℕ → Bool
every p zero = true
every p (suc k) = every p k && p k

every-at : (p : ℕ → Bool) (k : ℕ) {x : ℕ} → x < k → every p k ≡ true → p x ≡ true
unfolding every
every-at p zero lt h = elim lt [ ]
every-at p (suc k) {x} lt h = ground (arith, every-at p k {x = x})

same : Bool → Bool → Bool
same true b = b
same b c = not c

same-eq : (a b : Bool) → same a b ≡ true → a ≡ b
unfolding same
same-eq a b h = ground arith

-- Setting bit `k` of byte `x` gives a byte in which `k` is set and each other bit `j` is as before.
agrees : ℕ → ℕ → ℕ → Bool
agrees x k j = same (bit_at (u8 (bit_or x (2 ^ (7 - k)))) j) (if k == j then true else bit_at x j)

table : every (λ x. every (λ k. every (agrees x k) 8) 8) 256 ≡ true
unfolding every agrees same
table = refl

bit_at-set :
    (x k j : ℕ)
    → x < 256
    → k < 8
    → j < 8
    → bit_at (u8 (bit_or x (2 ^ (7 - k)))) j ≡ (if k == j then true else bit_at x j)
unfolding agrees
bit_at-set x k j hx hk hj = same-eq _ _ (
    every-at (agrees x k) 8 hj (
      every-at (λ k'. every (agrees x k') 8) 8 hk
        (every-at (λ x'. every (λ k'. every (agrees x' k') 8) 8) 256 hx table)))

-- Two bits of one byte are the same bit if they have the same place in it.
place : (i j : ℕ) → i / 8 ≡ j / 8 → (i % 8 == j % 8) ≡ (i == j)
place i j e = ground arith

bitfield_bound : (bitfield : List ℕ) (i : ℕ) → i < 8 * length bitfield → i / 8 < length bitfield
bitfield_bound bitfield i h = omega arith

-- What `setbit` stores.
abbrev with_bit : List ℕ → ℕ → ℕ → List ℕ
with_bit bitfield i x = set bitfield (i / 8) (u8 (bit_or x (mask i)))

module _ (bitfield : List ℕ) (bytes : IsBytes bitfield) where
  getbit-with_bit :
      (i : ℕ) {x : ℕ}
      → get_elem? bitfield (i / 8) ≡ some x
      → i / 8 < length bitfield
      → (j : ℕ) → getbit (with_bit bitfield i x) j ≡ (if i == j then ok true else getbit bitfield j)
  unfolding getbit
  getbit-with_bit i {x} e h j = elim (ℕ_discrete (i / 8) (j / 8)) [
    | yes p ↦
        rw (← p, get_elem?-set_self bitfield (i / 8) _ h, e)
          (ground (
            arith,
            bit_at-set x (i % 8) (j % 8) (All-get_elem? _ bitfield (i / 8) bytes e) (omega arith)
                (omega arith),
            place i j p,
          ))
    | no p ↦
        let apart : (i == j) ≡ false = ground arith in
        rw (get_elem?-set_ne bitfield (i / 8) (j / 8) _ p, apart)
  ]

  -- Setting a bit in the range of an array of bytes sets it, changes no other, and keeps an array of bytes of the same size.
  pub setbit-getbit :
      (i : ℕ)
      → i < 8 * length bitfield
      → (bitfield' : List ℕ) × (setbit bitfield i ≡ ok bitfield')
        × (length bitfield' ≡ length bitfield)
        × IsBytes bitfield'
        × ((j : ℕ) → getbit bitfield' j ≡ (if i == j then ok true else getbit bitfield j))
  unfolding setbit
  setbit-getbit i h =
      let (x, e) = get_elem?_of_lt bitfield (i / 8) (bitfield_bound bitfield i h) in
      (
        with_bit bitfield i x,
        rw e,
        length-set bitfield (i / 8) _,
        All-set _ bitfield (i / 8) bytes (omega arith),
        getbit-with_bit i e (bitfield_bound bitfield i h),
      )

-- A zeroed bitfield has no bit set.
pub replicate-IsBytes : (n : ℕ) → IsBytes (replicate n 0)
replicate-IsBytes zero = tt
replicate-IsBytes (suc n) = (omega arith, replicate-IsBytes n)

pub getbit-replicate : (n j : ℕ) → j < 8 * n → getbit (replicate n 0) j ≡ ok false
unfolding getbit
getbit-replicate n j h =
    rw (get_elem?-replicate {A = ℕ} n 0 (j / 8) (omega arith)) (rw (bit_and-bitwise 0 (mask j)))
