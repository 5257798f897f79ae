-- ===== src/Torrent.antt =====
-- torrent.c: the torrent, its pieces and the files they lie in.
pub mod Block
pub mod Hash
pub mod Mapping
pub mod Parse
pub mod Pieces
pub mod Resume
use unworkable.Common.{ℕ, Bool, List}

-- A mapping (`struct torrent_mmap`) is the bytes that its `addr` and `len` span.
abbrev pub Mmap : Type 0
Mmap = List ℕ

pub data TorrentType : Type 0 where
  multifile singlefile : TorrentType

-- `struct torrent_piece`: the two flags, `CKSUMOK` and `MAPPED`, stand as two fields. The back
-- pointer to the torrent is dropped, and `blocks`, which nothing uses. `places` has the file and the
-- offset in it of each mapping of `mmaps`.
pub record Piece : Type 0 where
  pub cksumok : Bool
  pub mapped : Bool
  pub len : ℕ
  pub index : ℕ
  pub mmaps : List Mmap
  pub places : List (ℕ × ℕ)

-- The fields of `struct torrent` that the transfer of data works with. `file_length` is that of the
-- file of a single-file torrent, `total_length` the sum over the files of the other kind; both are
-- `off_t`, taken as not negative. `piece_hashes` is the string `pieces` of the torrent file, `files` are the lengths
-- of the files of a torrent of many, and `disk` is what the files hold, or the one file.
pub record Torrent : Type 0 where
  pub type : TorrentType
  pub file_length : ℕ
  pub total_length : ℕ
  pub piece_hashes : List ℕ
  pub info_hash : List ℕ
  pub num_pieces : ℕ
  pub piece_length : ℕ
  pub good_pieces : ℕ
  pub downloaded : ℕ
  pub left : ℕ
  pub piece_array : List Piece
  pub isnew : Bool
  pub files : List ℕ
  pub disk : List (List ℕ)
