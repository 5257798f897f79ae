-- ===== src/Buf.antt =====
-- buf.c: a buffer of bytes with a position to read at. Files and descriptors are what is read from them.
pub mod Contents
use unworkable.Common.{
  ℕ, zero, suc, ◌+◌, ◌-◌, ◌^◌, Bool, List, [], ◌∷◌, ◌++◌, Option, none, some, Outcome, ok, fault,
  must, ◌>>=◌, ltb, if◌then◌else◌, length, get_elem?, take, replicate, u64,
}
use unworkable.Common.Slices.{put}

-- `struct buf`. `bytes` is the memory at `cb_buf`, `cb_size` bytes of it, and `cur` is `cb_cur - cb_buf`.
-- Of the flags only BUF_AUTOEXT is used.
pub record Buf : Type 0 where
  pub autoext : Bool
  pub bytes : List ℕ
  pub cur : ℕ
  pub len : ℕ
  pub pos : ℕ

abbrev pub size : Buf → ℕ
size b = length b.bytes

-- SIZE_LEFT, in `size_t`
abbrev pub size_left : Buf → ℕ
size_left b = u64 (size b + 2 ^ 64 + 2 ^ 64 - b.cur - b.len)

pub buf_alloc : ℕ → Bool → Buf
buf_alloc len autoext = record {
  autoext = autoext;
  bytes = replicate len 0;
  cur = 0;
  len = 0;
  pos = 0;
}

-- `memcpy(dst + at, src, n)`: a fault if it leaves either region.
abbrev pub memcpy : List ℕ → ℕ → List ℕ → ℕ → Outcome (List ℕ)
memcpy dst at src n =
    if ltb (length src) n
    then fault
    else if ltb (length dst) (at + n)
    then fault
    else ok (put at (take n src) dst)

-- The loop of buf_load, over what the reads give: bytes, at most as many as were asked for, or none at
-- the end of the file. `bp` runs along with `cb_len`.
pub load_reads : List (List ℕ) → Buf → Outcome Buf
load_reads [] b = ok b
load_reads ([] ∷ reads) b = ok b
load_reads ((x ∷ xs) ∷ reads) b = do
  let got = length (x ∷ xs)
  bytes ← if ltb (size_left b) got then fault else memcpy b.bytes (b.cur + b.len) (x ∷ xs) got
  load_reads reads (record b { bytes = bytes; len = b.len + got })

-- A file that can be opened, of a size, and what the reads of it give.
pub buf_load : ℕ → List (List ℕ) → Bool → Outcome Buf
buf_load st_size reads flags = load_reads reads (buf_alloc st_size flags)

unfoldable pub buf_release : Buf → List ℕ
buf_release b = b.bytes

-- `fresh` is what `realloc` puts behind the old bytes, `len` of them.
pub buf_grow : List ℕ → Buf → Buf
buf_grow fresh b = record b { bytes = b.bytes ++ fresh }

-- Whether the buffer grows is decided by what is asked for and by the flag.
abbrev pub set_room : Buf → ℕ → ℕ → (ℕ → List ℕ) → Buf × ℕ
set_room b len off fresh =
    if ltb (size b) (len + off)
    then (if b.autoext
        then (buf_grow (fresh (len + off - size b)) b, len + off)
        else (b, u64 (size b + 2 ^ 64 - off)))
    else (b, len)

-- The result is the number that is returned.
pub buf_set : (ℕ → List ℕ) → Buf → List ℕ → ℕ → Outcome (ℕ × Buf)
buf_set fresh b src off = do
  let room = set_room b (length src) off fresh
  bytes ← memcpy (room.0).bytes off src room.1
  ok (
    room.1,
    record (room.0) {
      bytes = bytes;
      len = room.1;
      cur = if ltb 0 room.1 then (room.0).cur else off;
    },
  )

-- `none` for EOF
unfoldable pub buf_getc : Buf → Outcome (Option ℕ × Buf)
buf_getc b =
    if ltb b.pos b.len
    then (must (get_elem? b.bytes (b.cur + b.pos)) >>= λ c.
        ok (some c, record b { pos = b.pos + 1 }))
    else ok (none, b)

unfoldable pub buf_ungetc : Buf → Buf
buf_ungetc b = if ltb 0 b.len then record b { pos = u64 (b.pos + 2 ^ 64 - 1) } else b

unfoldable pub buf_len : Buf → ℕ
buf_len b = b.len

unfoldable pub buf_pos : Buf → ℕ
buf_pos b = b.pos
