-- ===== src/Torrent/Block.antt =====
-- torrent_block_read and torrent_block_write of torrent.c: a block of a piece that lies across one
-- mapping or several.
pub mod Read
pub mod Write
use unworkable.Common.{
  ℕ, ◌+◌, ◌-◌, ◌^◌, List, [], ◌∷◌, ◌++◌, Option, none, some, Outcome, ok, die, if◌then◌else◌, ltb,
  length, take, drop, u32,
}
use unworkable.Common.Slices.{put}
use unworkable.Torrent.{Mmap}

-- What torrent_block_read returns. With `hint` 0, a pointer into a mapping, here the `len` bytes that
-- it points to; with `hint` 1, a new block of `len` bytes, here those that were copied into it, the
-- rest being left as `malloc` gave them; or NULL.
pub data Block : Type 0 where
  direct : List ℕ → Block
  copied : List ℕ → Block
  null : Block

-- What the block holds so far: `none` before it is allocated.
abbrev pub block_bytes : Option (List ℕ) → List ℕ
block_bytes none = []
block_bytes (some b) = b

-- After the loop.
abbrev pub finish : Option (List ℕ) → Outcome Block
finish none = ok null
finish (some b) = ok (copied b)

-- The mapping holds all that is left to read.
abbrev pub last_copy : Option (List ℕ) → List ℕ → Outcome Block
last_copy none bytes = ok (direct bytes)
last_copy (some b) bytes = ok (copied (b ++ bytes))

-- `tmmp->len - (off - cntbase)` as a `u_int32_t`.
abbrev pub ilen_of : ℕ → ℕ → ℕ → ℕ
ilen_of len off cntbase = u32 (len + 2 ^ 64 - (off - cntbase))

-- The loop over the mappings; `cntbase` is at most `off` throughout.
pub read_loop : ℕ → ℕ → ℕ → ℕ → Option (List ℕ) → List Mmap → Outcome Block
read_loop off cntlen cntbase tlen block [] = finish block
read_loop off cntlen cntbase tlen block (m ∷ ms) =
    let cntlen' = cntlen + length m in
    let skip = read_loop off cntlen' (cntbase + length m) tlen block ms in
    let ilen = ilen_of (length m) off cntbase in
    let aptr = drop (off - cntbase) m in
    let onward =
      read_loop off cntlen' off (tlen - ilen) (some (block_bytes block ++ take ilen aptr)) ms in
    if ltb cntlen' off
    then skip
    else if ltb (length m) ilen
    then die
    else if ltb ilen tlen
    then onward
    else last_copy block (take tlen aptr)

pub block_read : List Mmap → ℕ → ℕ → Outcome Block
block_read mmaps off len = read_loop off 0 0 len none mmaps

-- The loop of torrent_block_write: `d` is the block, of `len` bytes. Each `memcpy` is a `put`.
pub write_loop : ℕ → ℕ → List ℕ → ℕ → ℕ → ℕ → List Mmap → List Mmap
write_loop off len d cntlen cntbase bytesleft [] = []
write_loop off len d cntlen cntbase bytesleft (m ∷ ms) =
    let diff = len - bytesleft in
    let cntlen' = cntlen + length m in
    let walk = off - cntbase in
    let tlen = length m - walk in
    let whole = write_loop off len d cntlen cntbase (bytesleft - length m) ms in
    let skip = write_loop off len d cntlen' (cntbase + length m) bytesleft ms in
    let onward = write_loop off len d cntlen' off (bytesleft - tlen) ms in
    if ltb bytesleft len
    then (if ltb (length m) bytesleft
        then put 0 (take (length m) (drop diff d)) m ∷ whole
        else put 0 (take bytesleft (drop diff d)) m ∷ ms)
    else if ltb cntlen' off
    then m ∷ skip
    else if ltb tlen len
    then put walk (take tlen d) m ∷ onward
    else put walk (take len d) m ∷ ms

pub block_write : List Mmap → ℕ → ℕ → List ℕ → List Mmap
block_write mmaps off len d = write_loop off len d 0 0 len mmaps
