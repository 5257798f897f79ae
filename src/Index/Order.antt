-- ===== src/Index/Order.antt =====
-- The comparison of network.c orders the keys of the index.
use unworkable.Common.{ℕ, ◌^◌, ◌<◌, ◌≡◌, if◌then◌else◌, ltb, sub32, arith}
use unworkable.Index.{Sign, negative, zero, positive, sign_of, cmp}

-- The order by index, and by offset within one index.
abbrev pub lexicographic : ℕ → ℕ → ℕ → ℕ → Sign
lexicographic i o j q =
    if ltb i j
    then negative
    else if ltb j i
    then positive
    else if ltb o q
    then negative
    else if ltb q o
    then positive
    else zero

sign_of_lem :
    (a b : ℕ)
    → a < 2 ^ 31
    → b < 2 ^ 31
    → sign_of (sub32 a b) ≡ (if ltb a b then negative else if ltb b a then positive else zero)
sign_of_lem a b h k = ground arith

-- On keys below 2 ^ 31 the comparison by wrapped differences is the lexicographic order.
pub cmp-lexicographic :
    (i o j q : ℕ)
    → i < 2 ^ 31
    → o < 2 ^ 31
    → j < 2 ^ 31
    → q < 2 ^ 31
    → cmp i o j q ≡ lexicographic i o j q
unfolding cmp
cmp-lexicographic i o j q hi ho hj hq = ground (arith, sign_of_lem i j hi hj, sign_of_lem o q ho hq)
