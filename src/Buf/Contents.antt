-- ===== src/Buf/Contents.antt =====
-- What is read from a buffer of buf.c is what has been put into it.
use unworkable.Common.{
  ℕ, zero, suc, ◌+◌, ◌-◌, ◌^◌, ◌≤◌, ◌<◌, ◌≡◌, refl, ap, sym, ◌∙◌, Bool, true, false, List, [], ◌∷◌,
  ◌++◌, Option, none, some, Outcome, ok, fault, ◌>>=◌, ltb, if◌then◌else◌, length, get_elem?, take,
  drop, replicate, arith, Bool-cases, ◌==◌, inl, inr, get_elem?_of_lt, All, length-append,
  length-replicate,
}
use unworkable.Common.Slices.{put, flatten, take_all, drop_step, length-put, put-nil, put_whole}
use unworkable.Buf.{
  Buf, size, size_left, buf_alloc, memcpy, load_reads, buf_load, buf_getc, buf_grow, buf_set,
}

-- All that buf_getc gives until it gives EOF, `n` bytes at most.
abbrev next : (Buf → Outcome (List ℕ)) → Option ℕ × Buf → Outcome (List ℕ)
next more (none, b) = ok []
next more (some c, b) = more b >>= λ cs. ok (c ∷ cs)

pub read_out : ℕ → Buf → Outcome (List ℕ)
read_out zero b = ok []
read_out (suc n) b = buf_getc b >>= next (read_out n)

-- One byte more of a slice.
slice_step :
    (xs : List ℕ) (at k : ℕ) {x : ℕ}
    → get_elem? xs at ≡ some x
    → x ∷ take k (drop (at + 1) xs) ≡ take (suc k) (drop at xs)
slice_step xs at k {x} e = rw (drop_step xs at e) refl

read_out_lem :
    (n : ℕ) (b : Buf)
    → b.cur + b.len ≤ size b
    → b.len < b.pos + n
    → read_out n b ≡ ok (take (b.len - b.pos) (drop (b.cur + b.pos) b.bytes))
unfolding read_out buf_getc
read_out_lem zero b h e = let over : b.len - b.pos ≡ 0 = omega arith in rw over refl
read_out_lem (suc n) b h e = elim (Bool-cases (ltb b.pos b.len)) [
  | inl inside ↦
      let (x, at) = get_elem?_of_lt b.bytes (b.cur + b.pos) (ground arith) in
      let here : b.cur + (b.pos + 1) ≡ b.cur + b.pos + 1 = omega arith in
      let left : b.len - b.pos ≡ suc (b.len - (b.pos + 1)) = ground arith in
      rw (inside, at, read_out_lem n (record b { pos = b.pos + 1 }) h (omega arith), here, left)
        (ap (λ l. ok l) (slice_step b.bytes (b.cur + b.pos) (b.len - (b.pos + 1)) at))
  | inr over ↦ let none_left : b.len - b.pos ≡ 0 = ground arith in rw (over, none_left) refl
]

-- A copy behind a copy is one copy.
put-put :
    (at : ℕ) (as' bs xs : List ℕ) → put (at + length as') bs (put at as' xs) ≡ put at (as' ++ bs) xs
put-put zero [] bs xs = refl
put-put zero (a ∷ as') bs [] = put_empty (length as') bs
  where
    put_empty : (n : ℕ) (bs : List ℕ) → put (0 + suc n) bs [] ≡ []
    put_empty n bs = ground arith
put-put zero (a ∷ as') bs (x ∷ xs) =
    let n : 0 + suc (length as') ≡ suc (0 + length as') = omega arith in
    rw n (ap (λ l. a ∷ l) (put-put zero as' bs xs))
put-put (suc at) as' bs [] =
    let n : suc at + length as' ≡ suc (at + length as') = omega arith in rw n refl
put-put (suc at) as' bs (x ∷ xs) =
    let n : suc at + length as' ≡ suc (at + length as') = omega arith in
    rw n (ap (λ l. x ∷ l) (put-put at as' bs xs))

-- The result of the reads, behind the data that are there.
abbrev loaded : List ℕ → Buf → Buf
loaded xs b = record b { bytes = put (b.cur + b.len) xs b.bytes; len = b.len + length xs }

loaded_path :
    (b : Buf) {bytes bytes' : List ℕ} {len len' : ℕ}
    → bytes ≡ bytes'
    → len ≡ len'
    → ok (record b { bytes = bytes; len = len }) ≡ ok (record b { bytes = bytes'; len = len' })
loaded_path b e₁ e₂ i = ok (record b { bytes = e₁ i; len = e₂ i })

-- One read that fits.
read_fits :
    (b : Buf) (xs : List ℕ)
    → b.cur + b.len + length xs ≤ size b
    → size b < 2 ^ 64
    → (if ltb (size_left b) (length xs)
        then fault
        else memcpy b.bytes (b.cur + b.len) xs (length xs))
      ≡ ok (put (b.cur + b.len) xs b.bytes)
read_fits b xs h fits =
    let room : ltb (size_left b) (length xs) ≡ false = ground arith in
    let inside : ltb (size b) (b.cur + b.len + length xs) ≡ false = ground arith in
    let source : ltb (length xs) (length xs) ≡ false = ground arith in
    rw (room, source, inside, take_all (length xs) xs (omega arith)) refl

load_reads_lem :
    (reads : List (List ℕ)) (b : Buf)
    → All (λ r. 0 < length r) reads
    → b.cur + b.len + length (flatten reads) ≤ size b
    → size b < 2 ^ 64
    → load_reads reads b ≡ ok (loaded (flatten reads) b)
unfolding load_reads
load_reads_lem [] b some_read h fits =
    loaded_path b (sym (put-nil (b.cur + b.len) b.bytes)) (omega arith)
load_reads_lem ([] ∷ reads) b some_read h fits = absurd (omega (arith, some_read.0))
load_reads_lem ((x ∷ xs) ∷ reads) b some_read h fits =
    let sum : b.cur + (b.len + length (x ∷ xs)) ≡ b.cur + b.len + length (x ∷ xs) = omega arith in
    let room : b.cur + b.len + length (x ∷ xs) + length (flatten reads) ≤ size b =
      omega (arith, length-append (x ∷ xs) (flatten reads)) in
    let size_put = length-put (b.cur + b.len) (x ∷ xs) b.bytes in
    rw
      (
        read_fits b (x ∷ xs) (omega arith) fits,
        load_reads_lem reads (loaded (x ∷ xs) b) some_read.1 (omega arith) (omega arith),
      )
      (loaded_path b
        (ap (λ n. put n (flatten reads) (put (b.cur + b.len) (x ∷ xs) b.bytes)) sum
          ∙ put-put (b.cur + b.len) (x ∷ xs) (flatten reads) b.bytes)
        (omega (arith, length-append (x ∷ xs) (flatten reads))))

-- A buffer with a file in it, of which nothing has been read.
abbrev pub filled : Bool → List ℕ → Buf
filled flags s = record { autoext = flags; bytes = s; cur = 0; len = length s; pos = 0 }

-- A file is loaded whole, however the reads have cut it up.
pub buf_load-filled :
    (reads : List (List ℕ)) (flags : Bool)
    → All (λ r. 0 < length r) reads
    → length (flatten reads) < 2 ^ 64
    → buf_load (length (flatten reads)) reads flags ≡ ok (filled flags (flatten reads))
unfolding buf_load buf_alloc
buf_load-filled reads flags some_read fits =
    let file = flatten reads in
    let n = length file in
    let zeros : length (replicate {A = ℕ} n 0) ≡ n = length-replicate n 0 in
    let whole : put 0 file (replicate n 0) ≡ file = put_whole file (replicate n 0) (sym zeros) in
    load_reads_lem reads (buf_alloc n flags) some_read (omega arith) (omega arith)
    ∙ loaded_path (filled flags file) whole (omega arith)

-- A file whose reads, none of them empty, give as many bytes as its size says is loaded, and what is read from the
-- buffer, up to EOF, is the file, however the reads have cut it up.
pub read_out-buf_load :
    (reads : List (List ℕ)) (flags : Bool)
    → All (λ r. 0 < length r) reads
    → length (flatten reads) < 2 ^ 64
    → (b : Buf) × (buf_load (length (flatten reads)) reads flags ≡ ok b)
      × (read_out (suc (length (flatten reads))) b ≡ ok (flatten reads))
read_out-buf_load reads flags some_read fits =
    let file = flatten reads in
    (
      filled flags file,
      buf_load-filled reads flags some_read fits,
      read_out_lem (suc (length file)) (filled flags file) (omega arith) (omega arith)
          ∙ ap (λ l. ok l) (take_all (length file - 0) file (omega arith)),
    )

-- A set that makes the buffer grow, to the new size exactly, is defined only at offset 0, where it copies the
-- whole of what is given: at any other offset more bytes are copied than there are.
pub buf_set-grown :
    (fresh : ℕ → List ℕ) (b : Buf) (src : List ℕ) (off : ℕ)
    → b.autoext ≡ true
    → size b < length src + off
    → ((n : ℕ) → length (fresh n) ≡ n)
    → buf_set fresh b src off
      ≡ (if off == 0 then ok (length src, record b { bytes = src; len = length src }) else fault)
unfolding buf_set buf_grow
buf_set-grown fresh b src off auto more sized = elim (Bool-cases (off == 0)) [
  | inl here ↦
      let start : off ≡ 0 = ground arith in
      let grows : ltb (size b) (length src + off) ≡ true = ground arith in
      let n = length src - size b in
      let room : length (b.bytes ++ fresh n) ≡ length src =
        omega (arith, length-append b.bytes (fresh n), sized n) in
      let all : length src + off ≡ length src = omega arith in
      let source : ltb (length src) (length src) ≡ false = ground arith in
      let inside : ltb (length (b.bytes ++ fresh n)) (off + length src) ≡ false = ground arith in
      let some_left : ltb 0 (length src) ≡ true = ground arith in
      rw (grows, auto, all, source, inside, here, some_left)
        (rw
          (
            start,
            take_all (length src) src (omega arith),
            put_whole src (b.bytes ++ fresh n) (sym room),
          )
          refl)
  | inr there ↦
      let grows : ltb (size b) (length src + off) ≡ true = ground arith in
      let short : ltb (length src) (length src + off) ≡ true = ground arith in
      rw (grows, auto, short, there) refl
]
