-- ===== src/Torrent/Resume.antt =====
-- torrent_bitfield_get, torrent_empty and the fast resume file of torrent.c. The name of the file and the
-- opening of it are not modelled: a dump is the bytes that are written, and a load is given what the
-- file holds, or nothing where it cannot be opened.
pub mod Bitfield
pub mod Load
use unworkable.Common.{
  ℕ, zero, suc, ◌+◌, ◌/◌, Bool, true, false, List, Option, none, some, Outcome, ok, ◌>>=◌,
  if◌then◌else◌, length, set, replicate, take, u32,
}
use unworkable.Common.Slices.{put}
use unworkable.Util.{setbit, getbit}
use unworkable.Torrent.{Piece, Torrent}
use unworkable.Torrent.Pieces.{piece_find}

-- `(tp->num_pieces + 7u) / 8u`
abbrev pub bitfield_len : Torrent → ℕ
bitfield_len tp = u32 (tp.num_pieces + 7) / 8

-- `left` rounds of the loop, from index `i`.
pub bitfield_loop : Torrent → ℕ → ℕ → List ℕ → Outcome (List ℕ)
bitfield_loop tp zero i bitfield = ok bitfield
bitfield_loop tp (suc left) i bitfield = do
  tpp ← piece_find tp i
  bitfield' ← if tpp.cksumok then setbit bitfield i else ok bitfield
  bitfield_loop tp left (i + 1) bitfield'

pub bitfield_get : Torrent → Outcome (List ℕ)
unfolding bitfield_loop
bitfield_get tp = bitfield_loop tp tp.num_pieces 0 (replicate (bitfield_len tp) 0)

pub empty_loop : Torrent → ℕ → ℕ → Outcome Bool
empty_loop tp zero i = ok true
empty_loop tp (suc left) i = do
  tpp ← piece_find tp i
  let rest = empty_loop tp left (i + 1)
  if tpp.cksumok then ok false else rest

pub empty : Torrent → Outcome Bool
unfolding empty_loop
empty tp = empty_loop tp tp.num_pieces 0

-- What torrent_fastresume_dump writes.
pub fastresume_dump : Torrent → Outcome (List ℕ)
fastresume_dump tp = bitfield_get tp

-- `torrent_piece_find` gives a pointer into the array, through which the flag is set.
pub load_loop : List ℕ → ℕ → ℕ → Torrent → Outcome Torrent
load_loop bitfield zero i tp = ok tp
load_loop bitfield (suc left) i tp = do
  tpp ← piece_find tp i
  bit ← getbit bitfield i
  load_loop bitfield left (i + 1) (
      if bit
      then record tp {
        piece_array = set tp.piece_array i (record tpp { cksumok = true });
        good_pieces = u32 (tp.good_pieces + 1);
        downloaded = tp.downloaded + tpp.len;
      }
      else tp)

-- The return value is true for 0, false for -1. `fread` fills the front of the zeroed buffer with what
-- the file has.
pub fastresume_load : Torrent → Option (List ℕ) → Outcome (Bool × Torrent)
fastresume_load tp none = ok (false, tp)
fastresume_load tp (some file) = do
  let bitfield = put 0 (take (bitfield_len tp) file) (replicate (bitfield_len tp) 0)
  tp' ← load_loop bitfield tp.num_pieces 0 tp
  ok (true, tp')
