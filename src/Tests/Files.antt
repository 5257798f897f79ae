-- ===== src/Tests/Files.antt =====
-- The mapping and the check of pieces at concrete arguments.
use unworkable.Common.{
  ℕ, ◌≡◌, ◌↔◌, refl, Bool, true, false, List, [], ◌∷◌, ◌++◌, ok, arith, if◌then◌else◌, set,
}
use unworkable.Common.Slices.{flatten, put}
use unworkable.Torrent.{Mmap, Piece, Torrent, multifile}
use unworkable.Torrent.Pieces.{piece_find}
use unworkable.Torrent.Mapping.{places_of, piece_map, piece_unmap}
use unworkable.Torrent.Mapping.Sync.{piece_unmap-put}
use unworkable.Torrent.Mapping.Cut.{cut}
use unworkable.Torrent.Mapping.Bytes.{lengths, widths, piece_map-slice}
use unworkable.Torrent.Hash.{piece_checkhash}
use unworkable.Torrent.Hash.Digest.{digest_at, marked, piece_checkhash-digest}
use unworkable.Tests.Data.{two_pieces, first_piece, second_piece}

-- Two files, of six bytes and eight, and a piece of ten bytes that lies in both.
abbrev long_piece : Piece
long_piece = record {
  cksumok = false;
  mapped = false;
  len = 10;
  index = 0;
  mmaps = [];
  places = [];
}

abbrev two_files : Torrent
two_files = record two_pieces {
  type = multifile;
  piece_array = long_piece ∷ long_piece ∷ [];
  files = 6 ∷ 8 ∷ [];
  disk = (1 ∷ 2 ∷ 3 ∷ 4 ∷ 5 ∷ 6 ∷ []) ∷ (7 ∷ 8 ∷ 9 ∷ 10 ∷ 11 ∷ 12 ∷ 13 ∷ 14 ∷ []) ∷ [];
}

found_long : piece_find two_files 0 ≡ ok long_piece
unfolding piece_find
found_long = refl

piece_map-slice_example :
    (ms : List Mmap) × ((piece_map two_files 0
        ≡ ok (record two_files {
          piece_array = set two_files.piece_array 0 (record long_piece {
            mmaps = ms;
            places = places_of (cut 0 (6 ∷ 8 ∷ []) 0 10);
            mapped = true;
          });
        }))
      × ((flatten ms ≡ 1 ∷ 2 ∷ 3 ∷ 4 ∷ 5 ∷ 6 ∷ 7 ∷ 8 ∷ 9 ∷ 10 ∷ [])
          × (lengths ms ≡ widths (cut 0 (6 ∷ 8 ∷ []) 0 10))))
piece_map-slice_example =
    piece_map-slice two_files 0 long_piece found_long (omega arith) (omega arith) (
      (
        refl,
        (
          (
            omega arith,
            (λ e. absurd (omega arith)),
            (omega arith, (λ e. absurd (omega arith)), tt),
          ),
          omega arith,
        ),
      ))

-- A function in the place of SHA-1, and a torrent that has what it gives for the first piece.
abbrev twice : List ℕ → List ℕ
twice xs = xs ++ xs

abbrev hashed : Torrent
hashed = record two_pieces { piece_hashes = twice (flatten first_piece.mmaps) }

found_first : piece_find hashed 0 ≡ ok first_piece
unfolding piece_find
found_first = refl

piece_checkhash-digest_example :
    (b : Bool) × ((piece_checkhash twice hashed 0
        ≡ ok (b, if b then marked hashed 0 first_piece else hashed))
      × ((b ≡ true) ↔ (twice (flatten first_piece.mmaps) ≡ digest_at hashed 0)))
piece_checkhash-digest_example =
    piece_checkhash-digest twice hashed 0 first_piece found_first refl (λ e. cc)
      (omega arith, (omega arith, tt)) refl (omega arith) (omega arith)

-- The second piece of the torrent lies behind the ten bytes of the first.
found_second : piece_find two_pieces 1 ≡ ok second_piece
unfolding piece_find
found_second = refl

piece_unmap-put_example :
    (disk : List (List ℕ)) × ((piece_unmap 4096 two_pieces 1
        ≡ ok (record two_pieces {
          disk = disk;
          piece_array =
              set two_pieces.piece_array 1
                (record second_piece { mmaps = []; places = []; mapped = false });
        }))
      × ((flatten disk ≡ put 10 (0 ∷ 0 ∷ 0 ∷ 0 ∷ []) (flatten two_pieces.disk))
          × (lengths disk ≡ 14 ∷ [])))
unfolding cut
piece_unmap-put_example =
    piece_unmap-put 4096 two_pieces 1 10 second_piece found_second (omega arith) (omega arith) refl
      refl (omega arith, tt)
