-- ===== src/Tests/Storage.antt =====
-- Runs of the model of torrent.c and util.c, and its theorems at concrete arguments.
use unworkable.Common.{ℕ, ◌*◌, ◌<◌, ◌≡◌, List, [], ◌∷◌, true, some, ok, arith, min, length}
use unworkable.Util.{getbit}
use unworkable.Util.Bits.{IsBytes}
use unworkable.Torrent.{Piece}
use unworkable.Torrent.Block.{block_read, block_write}
use unworkable.Torrent.Block.Read.{Reads, block_read-Reads}
use unworkable.Torrent.Block.Write.{block_read-block_write}
use unworkable.Torrent.Pieces.{piece_find, pieces_create}
use unworkable.Torrent.Pieces.Lengths.{
  Sized, sum_len, piece_find-pieces_create, sum_len-pieces_create,
}
use unworkable.Torrent.Resume.{bitfield_get, fastresume_dump, fastresume_load}
use unworkable.Torrent.Resume.Bitfield.{good_at, bitfield_get-good_at}
use unworkable.Torrent.Resume.Load.{progress, restarted, fastresume_load-fastresume_dump}
use unworkable.Tests.Data.{two_maps, two_pieces, two_pieces-Arrayed}

two_pieces-Sized : Sized two_pieces
two_pieces-Sized = record {
  some_piece = omega arith;
  pieces_fit = omega arith;
  length_fits = omega arith;
  before_last = omega arith;
  up_to_last = omega arith;
}

block_read-block_write_example :
    Reads (71 ∷ 72 ∷ 73 ∷ []) (block_read (block_write two_maps 2 3 (71 ∷ 72 ∷ 73 ∷ [])) 2 3)
block_read-block_write_example =
    block_read-block_write two_maps 2 (71 ∷ 72 ∷ 73 ∷ []) (λ e. cc) (omega arith, (omega arith, tt))
      (omega arith)

block_read-Reads_example : Reads (4 ∷ 5 ∷ 6 ∷ []) (block_read two_maps 3 3)
block_read-Reads_example =
    block_read-Reads two_maps 3 3 (λ e. cc) (omega arith, (omega arith, tt)) (omega arith)

bitfield_get-good_at_example :
    (bitfield : List ℕ) × (bitfield_get two_pieces ≡ ok bitfield)
    × (length bitfield ≡ 1)
    × IsBytes bitfield
    × ((j : ℕ)
        → j < 8 * length bitfield
        → getbit bitfield j ≡ ok (good_at two_pieces.piece_array j))
bitfield_get-good_at_example = bitfield_get-good_at two_pieces two_pieces-Arrayed

fastresume_load-fastresume_dump_example :
    (file : List ℕ) × (fastresume_dump two_pieces ≡ ok file)
    × (fastresume_load (restarted two_pieces) (some file)
        ≡ ok (true, progress two_pieces two_pieces.piece_array 1 10))
fastresume_load-fastresume_dump_example =
    fastresume_load-fastresume_dump two_pieces two_pieces-Arrayed

piece_find-pieces_create_example :
    (p : Piece) × (piece_find (pieces_create two_pieces) 1 ≡ ok p)
    × (p.index ≡ 1)
    × (p.len ≡ min 10 4)
piece_find-pieces_create_example =
    piece_find-pieces_create two_pieces two_pieces-Sized 1 (omega arith)

sum_len-pieces_create_example : sum_len (pieces_create two_pieces).piece_array ≡ 14
sum_len-pieces_create_example = sum_len-pieces_create two_pieces two_pieces-Sized
