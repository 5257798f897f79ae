-- ===== src/Torrent/Block/Write.antt =====
-- torrent_block_write of torrent.c against a copy into the concatenated mappings, and the round trip
-- through torrent_block_read.
use mathlib.Core.Path.{subst}
use unworkable.Common.{
  ℕ, zero, suc, ◌+◌, ◌-◌, ◌≤◌, ◌≡◌, ◌≢◌, refl, sym, ap, ◌∙◌, List, [], ◌∷◌, ◌++◌, Bool-cases, inl,
  inr, false, arith, length, take, drop, ltb, map, length-drop,
}
use unworkable.Common.Slices.{
  flatten, put, take_all, drop_all, drop-drop, length-put, put-append, put-take, put-nil,
  take-drop-put,
}
use unworkable.Torrent.{Mmap}
use unworkable.Torrent.Block.{write_loop, block_write, block_read}
use unworkable.Torrent.Block.Read.{Fit, Reads, block_read-Reads}

length_zero : (xs : List ℕ) → length xs ≡ 0 → xs ≡ []
length_zero [] h = refl
length_zero (x ∷ xs) h = absurd (omega arith)

put_behind : (at : ℕ) (src xs : List ℕ) → length xs ≤ at → put at src xs ≡ xs
put_behind zero [] xs h = refl
put_behind zero (s ∷ src) [] h = refl
put_behind zero (s ∷ src) (x ∷ xs) h = absurd (omega arith)
put_behind (suc at) src [] h = refl
put_behind (suc at) src (x ∷ xs) h = ap (λ l. x ∷ l) (put_behind at src xs (omega arith))

-- A copy from the front that fills the first mapping and goes on, and one that ends in it.
put_onward :
    (at k : ℕ) (d m rest : List ℕ)
    → length m ≡ at + k
    → put at (take k d) m ++ put 0 (drop k d) rest ≡ put at d (m ++ rest)
put_onward at k d m rest h = ground (arith, put-append at d m rest, put-take at k d m)

put_within :
    (at k : ℕ) (d m rest : List ℕ)
    → at + k ≤ length m
    → length d ≤ k
    → put at (take k d) m ++ rest ≡ put at d (m ++ rest)
put_within at k d m rest h p = ground (
  arith,
  put-append at d m rest,
  take_all k d,
  drop_all (length m - at) d,
  put-nil (at - length m) rest,
)

module _ (off len : ℕ) (d : List ℕ) (size : length d ≡ len) where
  -- Once the offset is reached, what is left of the block goes to the front of what is left.
  write_loop_reached :
      (cntlen bytesleft : ℕ) (ms : List Mmap)
      → off ≤ cntlen
      → bytesleft ≤ len
      → flatten (write_loop off len d cntlen off bytesleft ms)
        ≡ put 0 (drop (len - bytesleft) d) (flatten ms)
  unfolding write_loop
  write_loop_reached cntlen bytesleft [] h p =
      sym (length_zero _ (length-put 0 (drop (len - bytesleft) d) []))
  write_loop_reached cntlen bytesleft (m ∷ ms) h p = elim (Bool-cases (ltb bytesleft len)) [
    | inl begun ↦ elim (Bool-cases (ltb (length m) bytesleft)) [
      | inl more ↦
          rw (begun, more, write_loop_reached cntlen (bytesleft - length m) ms h (omega arith))
            (ground (
              arith,
              put_onward 0 (length m) (drop (len - bytesleft) d) m (flatten ms),
              drop-drop (length m) (len - bytesleft) d,
            ))
      | inr last ↦
          rw (begun, last)
            (put_within 0 bytesleft (drop (len - bytesleft) d) m (flatten ms) (ground arith)
              (omega (arith, length-drop (len - bytesleft) d)))
    ]
    | inr fresh ↦
        let all : bytesleft ≡ len = ground arith in
        let none_done : len - len ≡ 0 = omega arith in
        let here : off - off ≡ 0 = omega arith in
        let size' : length m - 0 ≡ length m = omega arith in
        let reached : ltb (cntlen + length m) off ≡ false = ground arith in
        elim (Bool-cases (ltb (length m) len)) [
          | inl more ↦
              rw
                (
                  fresh,
                  reached,
                  here,
                  size',
                  more,
                  write_loop_reached (cntlen + length m) (bytesleft - length m) ms (omega arith)
                      (omega arith),
                  all,
                  none_done,
                )
                (ground (arith, put_onward 0 (length m) d m (flatten ms)))
          | inr last ↦
              rw (fresh, reached, here, size', last, all, none_done)
                (put_within 0 len d m (flatten ms) (ground arith) (omega arith))
        ]
  ]

  -- The mapping in which the offset lies.
  write_loop_first :
      (cntlen : ℕ) (m : Mmap) (ms : List Mmap)
      → cntlen ≤ off
      → off ≤ cntlen + length m
      → flatten (write_loop off len d cntlen cntlen len (m ∷ ms))
        ≡ put (off - cntlen) d (m ++ flatten ms)
  unfolding write_loop
  write_loop_first cntlen m ms h p =
      let s = off - cntlen in
      let fresh : ltb len len ≡ false = ground arith in
      let reached : ltb (cntlen + length m) off ≡ false = ground arith in
      elim (Bool-cases (ltb (length m - s) len)) [
        | inl more ↦
            let left : len - (len - (length m - s)) ≡ length m - s = ground arith in
            rw
              (
                fresh,
                reached,
                more,
                write_loop_reached (cntlen + length m) (len - (length m - s)) ms (omega arith)
                    (omega arith),
                left,
              )
              (put_onward s (length m - s) d m (flatten ms) (omega arith))
        | inr last ↦
            rw (fresh, reached, last)
              (put_within s len d m (flatten ms) (ground arith) (omega arith))
      ]

  -- Before the offset is reached.
  write_loop_skipping :
      (cntlen : ℕ) (ms : List Mmap)
      → cntlen ≤ off
      → flatten (write_loop off len d cntlen cntlen len ms) ≡ put (off - cntlen) d (flatten ms)
  unfolding write_loop
  write_loop_skipping cntlen [] h = sym (length_zero _ (length-put (off - cntlen) d []))
  write_loop_skipping cntlen (m ∷ ms) h = elim (Bool-cases (ltb (cntlen + length m) off)) [
    | inl before ↦
        let fresh : ltb len len ≡ false = ground arith in
        let shorter : off - cntlen - length m ≡ off - (cntlen + length m) = omega arith in
        let whole : length m - (off - cntlen) ≡ 0 = ground arith in
        rw
          (
            fresh,
            before,
            write_loop_skipping (cntlen + length m) ms (ground arith),
            put-append (off - cntlen) d m (flatten ms),
            shorter,
            whole,
          )
          (ap (λ l. l ++ put (off - (cntlen + length m)) d (flatten ms))
            (sym (put_behind (off - cntlen) d m (ground arith))))
    | inr reached ↦ write_loop_first cntlen m ms h (ground arith)
  ]

-- A write of a block into a piece is a copy of it, at the offset, into the concatenation of the piece's
-- mappings: the bytes before and behind it stay, and of the block only what lies past the end of the
-- piece is dropped.
pub block_write-put :
    (mmaps : List Mmap) (off : ℕ) (d : List ℕ)
    → flatten (block_write mmaps off (length d) d) ≡ put off d (flatten mmaps)
unfolding block_write
block_write-put mmaps off d =
    write_loop_skipping off (length d) d refl 0 mmaps (omega arith)
    ∙ ap (λ k. put k d (flatten mmaps)) off_zero
  where
    off_zero : off - 0 ≡ off
    off_zero = omega arith

module _ (off len : ℕ) (d : List ℕ) where
  map-length-write_loop :
      (cntlen cntbase bytesleft : ℕ) (ms : List Mmap)
      → map length (write_loop off len d cntlen cntbase bytesleft ms) ≡ map length ms
  unfolding write_loop
  map-length-write_loop cntlen cntbase bytesleft [] = refl
  map-length-write_loop cntlen cntbase bytesleft (m ∷ ms) = ground (
    arith,
    length-put 0 (take (length m) (drop (len - bytesleft) d)) m,
    length-put 0 (take bytesleft (drop (len - bytesleft) d)) m,
    length-put (off - cntbase) (take (length m - (off - cntbase)) d) m,
    length-put (off - cntbase) (take len d) m,
    map-length-write_loop cntlen cntbase (bytesleft - length m) ms,
    map-length-write_loop (cntlen + length m) (cntbase + length m) bytesleft ms,
    map-length-write_loop (cntlen + length m) off (bytesleft - (length m - (off - cntbase))) ms,
  )

Fit-map-length : (ms ns : List Mmap) → map length ms ≡ map length ns → Fit ns → Fit ms
Fit-map-length [] ns e fit = tt
Fit-map-length (m ∷ ms) [] e fit = absurd (cc)
Fit-map-length (m ∷ ms) (n ∷ ns) e fit = (ground arith, Fit-map-length ms ns (ground arith) fit.1)

nonempty-map-length : (ms ns : List Mmap) → map length ms ≡ map length ns → ns ≢ [] → ms ≢ []
nonempty-map-length ms [] e h q = h refl
nonempty-map-length [] (n ∷ ns) e h q = cc
nonempty-map-length (m ∷ ms) (n ∷ ns) e h q = cc

-- If there are mappings, each shorter than 2 ^ 32 bytes, a block that lies in them is read back as it was written, whatever mappings it crosses.
pub block_read-block_write :
    (mmaps : List Mmap) (off : ℕ) (d : List ℕ)
    → mmaps ≢ []
    → Fit mmaps
    → off + length d ≤ length (flatten mmaps)
    → Reads d (block_read (block_write mmaps off (length d) d) off (length d))
unfolding block_write
block_read-block_write mmaps off d e fit h =
    let ms' = block_write mmaps off (length d) d in
    let same = map-length-write_loop off (length d) d 0 0 (length d) mmaps in
    let copy = block_write-put mmaps off d in
    let found : take (length d) (drop off (flatten ms')) ≡ d =
      ap (λ l. take (length d) (drop off l)) copy ∙ take-drop-put off d (flatten mmaps) h in
    let size : length (flatten ms') ≡ length (flatten mmaps) =
      ap length copy ∙ length-put off d (flatten mmaps) in
    subst (λ s. Reads s (block_read ms' off (length d))) found
      (block_read-Reads ms' off (length d) (nonempty-map-length ms' mmaps same e)
        (Fit-map-length ms' mmaps same fit) (omega arith))
