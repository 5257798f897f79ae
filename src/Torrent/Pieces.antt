-- ===== src/Torrent/Pieces.antt =====
-- torrent_pieces_create and torrent_piece_find of torrent.c: the array of piece descriptors.
pub mod Find
pub mod Lengths
use unworkable.Common.{
  ℕ, zero, suc, ◌+◌, ◌-◌, ◌*◌, ◌^◌, Bool, false, List, [], ◌∷◌, Outcome, die, must, ltb, ◌==◌,
  if◌then◌else◌, get_elem?, u32, u64, sub32,
}
use unworkable.Torrent.{TorrentType, multifile, singlefile, Piece, Torrent}

-- `piece_array + idx`, behind the test of the index, which wraps for a torrent with no pieces.
unfoldable pub piece_find : Torrent → ℕ → Outcome Piece
piece_find tp idx =
    if ltb (sub32 tp.num_pieces 1) idx then die else must (get_elem? tp.piece_array idx)

-- The length of the irregular last piece, by the type of torrent. `off` is an `off_t`; the product of
-- the other type is one of two `u_int32_t`.
abbrev pub last_len : Torrent → TorrentType → ℕ → ℕ
last_len tp singlefile off = u32 (tp.file_length + 2 ^ 64 - off)
last_len tp multifile off =
    u32 (tp.total_length + 2 ^ 64 - u32 (sub32 tp.num_pieces 1 * tp.piece_length))

-- The descriptor that one round of the loop fills in.
pub piece_at : Torrent → ℕ → Piece
piece_at tp i =
    let off = u64 (tp.piece_length * i) in
    record {
      cksumok = false;
      mapped = false;
      len = if i == sub32 tp.num_pieces 1 then last_len tp tp.type off else tp.piece_length;
      index = i;
      mmaps = [];
      places = [];
    }

-- `left` rounds of the loop, from index `i`.
pub create_loop : Torrent → ℕ → ℕ → List Piece
create_loop tp zero i = []
create_loop tp (suc left) i = piece_at tp i ∷ create_loop tp left (i + 1)

pub pieces_create : Torrent → Torrent
unfolding create_loop
pieces_create tp = record tp { piece_array = create_loop tp tp.num_pieces 0 }
