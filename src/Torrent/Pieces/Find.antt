-- ===== src/Torrent/Pieces/Find.antt =====
-- torrent_piece_find of torrent.c, in range.
use unworkable.Common.{
  ℕ, ◌+◌, ◌^◌, ◌<◌, ◌≡◌, some, ok, arith, length, get_elem?, get_elem?_of_lt, le→ltb, sub32,
}
use unworkable.Torrent.{Piece, Torrent}
use unworkable.Torrent.Pieces.{piece_find}

-- The array has a descriptor for each piece, and their number leaves room in 32 bits.
pub record Arrayed (tp : Torrent) : Type 0 where
  pub described : length tp.piece_array ≡ tp.num_pieces
  pub room : tp.num_pieces + 7 < 2 ^ 32

-- In range, `piece_find` finds the descriptor.
pub piece_find_lem :
    (tp : Torrent)
    → Arrayed tp
    → (i : ℕ) → i < tp.num_pieces
    → (p : Piece) × (get_elem? tp.piece_array i ≡ some p) × (piece_find tp i ≡ ok p)
unfolding piece_find
piece_find_lem tp v i h =
    let (p, e) = get_elem?_of_lt tp.piece_array i (omega arith) in
    (p, e, rw (le→ltb (sub32 tp.num_pieces 1) i (omega arith), e))
