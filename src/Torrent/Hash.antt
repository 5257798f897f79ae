-- ===== src/Torrent/Hash.antt =====
-- torrent_piece_checkhash of torrent.c. SHA-1 is the library's, and a parameter.
pub mod Digest
use unworkable.Common.{
  ℕ, ◌+◌, ◌*◌, Bool, true, false, List, Outcome, ok, fault, check, ◌>>=◌, ◌>>◌, ◌==◌, ltb,
  if◌then◌else◌, length, set, take, drop, u32, bytes_eq,
}
use unworkable.Torrent.{Piece, Torrent}
use unworkable.Torrent.Block.{Block, direct, copied, null, block_read}
use unworkable.Torrent.Pieces.{piece_find}

-- The `n` bytes that a pointer to a block is read for: what lies behind the mapping, or was not filled
-- in, is not to be read.
abbrev pub whole : ℕ → List ℕ → Outcome (List ℕ)
whole n bytes = if length bytes == n then ok bytes else fault

-- The digest of a piece in the torrent file.
abbrev pub stored_hash : Torrent → ℕ → Outcome (List ℕ)
stored_hash tp index = whole 20 (take 20 (drop (u32 (20 * index)) tp.piece_hashes))

module _ (sha1 : List ℕ → List ℕ) where
  -- What is done with the bytes of the piece; true is the return value 0.
  abbrev pub compare_hash : Torrent → ℕ → Piece → List ℕ → Outcome (Bool × Torrent)
  compare_hash tp idx tpp bytes = do
    d ← whole tpp.len bytes
    s ← stored_hash tp tpp.index
    if bytes_eq (sha1 d) s
        then ok (
          true,
          record tp { piece_array = set tp.piece_array idx (record tpp { cksumok = true }) },
        )
        else ok (false, tp)

  abbrev pub on_block : Torrent → ℕ → Piece → Block → Outcome (Bool × Torrent)
  on_block tp idx tpp null = ok (false, tp)
  on_block tp idx tpp (direct bytes) = compare_hash tp idx tpp bytes
  on_block tp idx tpp (copied bytes) = compare_hash tp idx tpp bytes

  -- For the piece at an index; a piece that is not mapped stops the process.
  pub piece_checkhash : Torrent → ℕ → Outcome (Bool × Torrent)
  piece_checkhash tp idx = do
    tpp ← piece_find tp idx
    check tpp.mapped
    d ← block_read tpp.mmaps 0 tpp.len
    on_block tp idx tpp d
