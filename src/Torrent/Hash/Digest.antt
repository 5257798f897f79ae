-- ===== src/Torrent/Hash/Digest.antt =====
-- torrent_piece_checkhash of torrent.c against the bytes of the piece.
use unworkable.Common.{
  ℕ, ◌+◌, ◌*◌, ◌^◌, ◌≤◌, ◌<◌, ◌≡◌, ◌≢◌, ◌↔◌, refl, ap, ◌∙◌, Bool, true, List, [], Outcome, ok,
  if◌then◌else◌, arith, Bool-cases, inl, inr, length, set, take, drop, u32, length-take,
  length-drop, bytes_eq, bytes_eq_self, bytes_eq_sound, ◌>>=◌, check,
}
use mathlib.Core.Path.{subst}
use unworkable.Common.Slices.{flatten, take_all}
use unworkable.Torrent.{Piece, Torrent}
use unworkable.Torrent.Block.{Block, block_read}
use unworkable.Torrent.Block.Read.{Reads, Fit, block_read-Reads}
use unworkable.Torrent.Pieces.{piece_find}
use unworkable.Torrent.Hash.{whole, stored_hash, compare_hash, on_block, piece_checkhash}

-- The digest that the torrent file has for a piece.
abbrev pub digest_at : Torrent → ℕ → List ℕ
digest_at tp index = take 20 (drop (20 * index) tp.piece_hashes)

-- The torrent with the piece marked as good.
abbrev pub marked : Torrent → ℕ → Piece → Torrent
marked tp idx p = record tp { piece_array = set tp.piece_array idx (record p { cksumok = true }) }

whole_lem : (n : ℕ) (bytes : List ℕ) → length bytes ≡ n → whole n bytes ≡ ok bytes
whole_lem n bytes h = ground arith

stored_hash_lem :
    (tp : Torrent) (index : ℕ)
    → 20 * index + 20 ≤ length tp.piece_hashes
    → 20 * index < 2 ^ 32
    → stored_hash tp index ≡ ok (digest_at tp index)
stored_hash_lem tp index there small =
    let same : u32 (20 * index) ≡ 20 * index = omega arith in
    rw same (
      whole_lem 20 (digest_at tp index) (
        length-take 20 (drop (20 * index) tp.piece_hashes)
        ∙ rw (length-drop (20 * index) tp.piece_hashes) (omega arith)))

module _ (sha1 : List ℕ → List ℕ) (tp : Torrent) (idx : ℕ) (p : Piece) where
  abbrev good : Bool
  good = bytes_eq (sha1 (flatten p.mmaps)) (digest_at tp p.index)

  compare_lem :
      length (flatten p.mmaps) ≡ p.len
      → 20 * p.index + 20 ≤ length tp.piece_hashes
      → 20 * p.index < 2 ^ 32
      → compare_hash sha1 tp idx p (flatten p.mmaps)
        ≡ ok (good, if good then marked tp idx p else tp)
  compare_lem full there small =
      rw (whole_lem p.len (flatten p.mmaps) full, stored_hash_lem tp p.index there small)
        (elim (Bool-cases good) [ inl yes_good ↦ rw yes_good refl | inr bad ↦ rw bad refl ])

  on_block_lem :
      (r : Outcome Block)
      → Reads (flatten p.mmaps) r
      → (r >>= λ d. on_block sha1 tp idx p d) ≡ compare_hash sha1 tp idx p (flatten p.mmaps)
  on_block_lem r (inl e) = rw e refl
  on_block_lem r (inr e) = rw e refl

  -- A mapped piece whose mappings, each shorter than 2 ^ 32 bytes, hold as many bytes as it is long, and whose digest is in the torrent file, is
  -- checked to the end. The check succeeds, which is the return value 0, exactly when the SHA-1 of the bytes is that digest, and then, and only then, the piece is marked as good.
  pub piece_checkhash-digest :
      piece_find tp idx ≡ ok p
      → p.mapped ≡ true
      → p.mmaps ≢ []
      → Fit p.mmaps
      → length (flatten p.mmaps) ≡ p.len
      → 20 * p.index + 20 ≤ length tp.piece_hashes
      → 20 * p.index < 2 ^ 32
      → (b : Bool) × ((piece_checkhash sha1 tp idx ≡ ok (b, if b then marked tp idx p else tp))
          × ((b ≡ true) ↔ (sha1 (flatten p.mmaps) ≡ digest_at tp p.index)))
  unfolding piece_checkhash
  piece_checkhash-digest found mapped some_mmaps fit full there small =
      let checked : check p.mapped ≡ ok tt = ap check mapped in
      let bytes : take p.len (drop 0 (flatten p.mmaps)) ≡ flatten p.mmaps =
        take_all p.len (flatten p.mmaps) (omega arith) in
      let read : Reads (flatten p.mmaps) (block_read p.mmaps 0 p.len) =
        subst (λ b. Reads b (block_read p.mmaps 0 p.len)) bytes
          (block_read-Reads p.mmaps 0 p.len some_mmaps fit (omega arith)) in
      (
        good,
        (
          rw (found, checked)
              (on_block_lem (block_read p.mmaps 0 p.len) read ∙ compare_lem full there small),
          (
            (λ e. bytes_eq_sound (sha1 (flatten p.mmaps)) (digest_at tp p.index) e),
            (λ e. rw e (bytes_eq_self (digest_at tp p.index))),
          ),
        ),
      )
