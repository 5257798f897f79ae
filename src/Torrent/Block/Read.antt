-- ===== src/Torrent/Block/Read.antt =====
-- torrent_block_read of torrent.c against a slice of the concatenated mappings.
use mathlib.Core.Path.{subst}
use mathlib.Core.List.{append-nil, append_assoc}
use unworkable.Common.{
  ◌∙◌, length-drop, length-append, sym, ap, false, true, Bool-cases, inl, inr, ◌⊎◌, ℕ, ◌+◌, ◌-◌,
  ◌^◌, ◌≤◌, ◌<◌, ◌≡◌, ◌≢◌, refl, List, [], ◌∷◌, ◌++◌, none, some, Outcome, ok, arith, length, take,
  drop, All, ltb,
}
use unworkable.Common.Slices.{flatten, take-append, drop-append, take_all, drop_all, take-nil}
use unworkable.Torrent.{Mmap}
use unworkable.Torrent.Block.{Block, direct, copied, null, ilen_of, read_loop, block_read}

-- The lengths are `u_int32_t`.
abbrev pub Fit : List Mmap → Type 0
Fit mmaps = All (λ m. length m < 2 ^ 32) mmaps

-- The length that is left in a mapping after the walk to the offset does not wrap.
ilen :
    (len off cntbase : ℕ)
    → len < 2 ^ 32
    → off - cntbase ≤ len
    → ilen_of len off cntbase ≡ len - (off - cntbase)
ilen len off cntbase h p = omega arith

-- A slice that goes past the first mapping, and one that does not.
slice_onward :
    (tlen : ℕ) (m : Mmap) (rest : List ℕ) (b : List ℕ)
    → length m ≤ tlen
    → (b ++ m) ++ take (tlen - length m) rest ≡ b ++ take tlen (m ++ rest)
slice_onward tlen m rest b h = rw (take-append tlen m rest, take_all tlen m h) (append_assoc b m _)

slice_within :
    (tlen : ℕ) (m : Mmap) (rest : List ℕ) → tlen ≤ length m → take tlen m ≡ take tlen (m ++ rest)
slice_within tlen m rest h =
    let none_left : tlen - length m ≡ 0 = omega arith in
    rw (take-append tlen m rest, none_left) (sym (append-nil _))

-- Once the offset is reached, the loop copies the front of what is left.
read_loop_reached :
    (off cntlen tlen : ℕ) (b : List ℕ) (ms : List Mmap)
    → off ≤ cntlen
    → Fit ms
    → read_loop off cntlen off tlen (some b) ms ≡ ok (copied (b ++ take tlen (flatten ms)))
unfolding read_loop
read_loop_reached off cntlen tlen b [] h fit = rw (take-nil {A = ℕ} tlen, append-nil b)
read_loop_reached off cntlen tlen b (m ∷ ms) h fit =
    let reached : ltb (cntlen + length m) off ≡ false = ground arith in
    let here : off - off ≡ 0 = omega arith in
    let size : ilen_of (length m) off off ≡ length m = omega arith in
    let fits : ltb (length m) (length m) ≡ false = ground arith in
    rw (reached, size, fits, here, take_all (length m) m (omega arith))
      (elim (Bool-cases (ltb (length m) tlen)) [
        | inl more ↦
            rw
              (
                more,
                read_loop_reached off (cntlen + length m) (tlen - length m) (b ++ m) ms
                    (omega arith) fit.1,
              )
              (ap (λ l. ok (copied l)) (slice_onward tlen m (flatten ms) b (ground arith)))
        | inr last ↦
            rw last
              (ap (λ l. ok (copied (b ++ l))) (slice_within tlen m (flatten ms) (ground arith)))
      ])

-- The bytes that the caller finds, where a block was found.
abbrev pub Reads : List ℕ → Outcome Block → Type 0
Reads s r = (r ≡ ok (direct s)) ⊎ (r ≡ ok (copied s))

-- The offset lies behind the first mapping, and in it.
slice_behind :
    (s : ℕ) (m : Mmap) (rest : List ℕ)
    → length m ≤ s
    → drop s (m ++ rest) ≡ drop (s - length m) rest
slice_behind s m rest h = rw (drop-append s m rest, drop_all s m h)

slice_inside :
    (s : ℕ) (m : Mmap) (rest : List ℕ) → s ≤ length m → drop s (m ++ rest) ≡ drop s m ++ rest
slice_inside s m rest h =
    let none_left : s - length m ≡ 0 = omega arith in rw (drop-append s m rest, none_left)

-- The mapping in which the offset lies.
read_loop_first :
    (off cntlen tlen : ℕ) (m : Mmap) (ms : List Mmap)
    → cntlen ≤ off
    → off ≤ cntlen + length m
    → Fit (m ∷ ms)
    → Reads
        (take tlen (drop (off - cntlen) m ++ flatten ms))
        (read_loop off cntlen cntlen tlen none (m ∷ ms))
unfolding read_loop
read_loop_first off cntlen tlen m ms h p fit =
    let s = off - cntlen in
    let reached : ltb (cntlen + length m) off ≡ false = ground arith in
    let size : ilen_of (length m) off cntlen ≡ length (drop s m) =
      ilen (length m) off cntlen fit.0 (omega arith) ∙ sym (length-drop s m) in
    let fits : ltb (length m) (length (drop s m)) ≡ false = ground (arith, length-drop s m) in
    rw (reached, size, fits, take_all (length (drop s m)) (drop s m) (omega arith))
      (elim (Bool-cases (ltb (length (drop s m)) tlen)) [
        | inl more ↦
            rw
              (
                more,
                read_loop_reached off (cntlen + length m) (tlen - length (drop s m)) (drop s m) ms
                    (omega arith) fit.1,
              )
              (inr (
                ap (λ l. ok (copied l))
                  (slice_onward tlen (drop s m) (flatten ms) [] (ground arith))))
        | inr last ↦ rw last (
            inl
              (ap (λ l. ok (direct l)) (slice_within tlen (drop s m) (flatten ms) (ground arith))))
      ])

-- Before the offset is reached.
read_loop_skipping :
    (off cntlen tlen : ℕ) (ms : List Mmap)
    → cntlen ≤ off
    → off ≤ cntlen + length (flatten ms)
    → ms ≢ []
    → Fit ms
    → Reads
        (take tlen (drop (off - cntlen) (flatten ms)))
        (read_loop off cntlen cntlen tlen none ms)
unfolding read_loop
read_loop_skipping off cntlen tlen [] h p e fit = absurd (e refl)
read_loop_skipping off cntlen tlen (m ∷ ms) h p e fit =
    elim (Bool-cases (ltb (cntlen + length m) off)) [
      | inl before ↦
          let shorter : off - cntlen - length m ≡ off - (cntlen + length m) = omega arith in
          let goes_on : off ≤ cntlen + length m + length (flatten ms) =
            omega (arith, length-append m (flatten ms)) in
          rw (before, slice_behind (off - cntlen) m (flatten ms) (ground arith), shorter)
            (read_loop_skipping off (cntlen + length m) tlen ms (ground arith) goes_on
              (λ q. ground (arith, ap (λ l. length (flatten l)) q)) fit.1)
      | inr reached ↦
          rw (slice_inside (off - cntlen) m (flatten ms) (ground arith))
            (read_loop_first off cntlen tlen m ms h (ground arith) fit)
    ]

-- If there are mappings, each shorter than 2 ^ 32 bytes, and the offset lies in them or at their end, the caller is given the bytes from it on: `len` of them, or those
-- up to the end of the last mapping where there are fewer.
pub block_read-Reads :
    (mmaps : List Mmap) (off len : ℕ)
    → mmaps ≢ []
    → Fit mmaps
    → off ≤ length (flatten mmaps)
    → Reads (take len (drop off (flatten mmaps))) (block_read mmaps off len)
unfolding block_read
block_read-Reads mmaps off len e fit h =
    subst (λ k. Reads (take len (drop k (flatten mmaps))) (read_loop off 0 0 len none mmaps))
      (omega arith) (read_loop_skipping off 0 len mmaps (omega arith) (omega arith) e fit)

read_loop_null :
    (off cntlen cntbase tlen : ℕ) (ms : List Mmap)
    → cntlen + length (flatten ms) < off
    → read_loop off cntlen cntbase tlen none ms ≡ ok null
unfolding read_loop
read_loop_null off cntlen cntbase tlen [] h = refl
read_loop_null off cntlen cntbase tlen (m ∷ ms) h =
    let goes_on : cntlen + length m + length (flatten ms) < off =
      omega (arith, length-append m (flatten ms)) in
    let before : ltb (cntlen + length m) off ≡ true = ground arith in
    rw before (read_loop_null off (cntlen + length m) (cntbase + length m) tlen ms goes_on)

-- If the offset lies behind the last byte of the mappings, the caller is given NULL.
pub block_read-null :
    (mmaps : List Mmap) (off len : ℕ)
    → length (flatten mmaps) < off
    → block_read mmaps off len ≡ ok null
unfolding block_read
block_read-null mmaps off len h = read_loop_null off 0 0 len mmaps (omega arith)
