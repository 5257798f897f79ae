-- ===== src/Torrent/Resume/Bitfield.antt =====
-- torrent_bitfield_get and torrent_empty of torrent.c: the bitfield has a bit for each good piece.
use unworkable.Common.{
  ℕ, zero, suc, ◌+◌, ◌*◌, ◌/◌, ◌≤◌, ◌<◌, ◌≡◌, refl, ◌∙◌, List, [], ◌∷◌, some, ok, arith, Bool, true,
  false, ◌&&◌, not, leb, if◌then◌else◌, length, get_elem?, replicate, length-replicate, Bool-cases,
  inl, inr,
}
use unworkable.Common.{drop}
use unworkable.Common.Slices.{drop_all, drop_step}
use unworkable.Util.{getbit}
use unworkable.Util.Bits.{IsBytes, setbit-getbit, replicate-IsBytes, getbit-replicate}
use unworkable.Torrent.{Piece, Torrent}
use unworkable.Torrent.Pieces.Find.{Arrayed, piece_find_lem}
use unworkable.Torrent.Resume.{bitfield_len, bitfield_loop, bitfield_get, empty_loop, empty}

-- Which pieces of the array have been checksummed; none behind its end.
abbrev pub good_at : List Piece → ℕ → Bool
good_at [] i = false
good_at (p ∷ ps) zero = p.cksumok
good_at (p ∷ ps) (suc i) = good_at ps i

good_at-get_elem? :
    (ps : List Piece) (i : ℕ) {p : Piece} → get_elem? ps i ≡ some p → good_at ps i ≡ p.cksumok
good_at-get_elem? [] i e = cc
good_at-get_elem? (p ∷ ps) zero e = ground arith
good_at-get_elem? (p ∷ ps) (suc i) e = good_at-get_elem? ps i e

good_at_behind : (ps : List Piece) (i : ℕ) → length ps ≤ i → good_at ps i ≡ false
good_at_behind [] i h = refl
good_at_behind (p ∷ ps) zero h = absurd (omega arith)
good_at_behind (p ∷ ps) (suc i) h = good_at_behind ps i (omega arith)

module _ (tp : Torrent) (v : Arrayed tp) where
  -- The loop adds the bits of the good pieces from `i` on.
  bitfield_loop_lem :
      (left i : ℕ) (bitfield : List ℕ)
      → i + left ≡ tp.num_pieces
      → IsBytes bitfield
      → tp.num_pieces ≤ 8 * length bitfield
      → (bitfield' : List ℕ) × (bitfield_loop tp left i bitfield ≡ ok bitfield')
        × (length bitfield' ≡ length bitfield)
        × IsBytes bitfield'
        × ((j : ℕ)
            → getbit bitfield' j
              ≡ (if leb i j && good_at tp.piece_array j then ok true else getbit bitfield j))
  unfolding bitfield_loop
  bitfield_loop_lem zero i bitfield h bytes room =
      (bitfield, refl, refl, bytes, λ j. ground (arith, good_at_behind tp.piece_array j))
  bitfield_loop_lem (suc left) i bitfield h bytes room =
      let (p, e, found) = piece_find_lem tp v i (omega arith) in
      elim (Bool-cases p.cksumok) [
        | inl good ↦
            let (b, set, size, bytes', bits) = setbit-getbit bitfield bytes i (omega arith) in
            let (b', run, size', bytes'', bits') =
              bitfield_loop_lem left (i + 1) b (omega arith) bytes' (omega arith) in
            (
              b',
              rw (found, good, set) run,
              size' ∙ size,
              bytes'',
              λ j. ground (arith, bits' j, bits j, good_at-get_elem? tp.piece_array i e),
            )
        | inr bad ↦
            let (b', run, size', bytes'', bits') =
              bitfield_loop_lem left (i + 1) bitfield (omega arith) bytes room in
            (
              b',
              rw (found, bad) run,
              size',
              bytes'',
              λ j. ground (arith, bits' j, good_at-get_elem? tp.piece_array i e),
            )
      ]

-- For a torrent with a descriptor for each piece, and room in 32 bits, the bitfield has one bit for each good piece and no other, the spare bits of the last byte included,
-- in as many bytes as the pieces need.
pub bitfield_get-good_at :
    (tp : Torrent)
    → Arrayed tp
    → (bitfield : List ℕ) × (bitfield_get tp ≡ ok bitfield)
      × (length bitfield ≡ (tp.num_pieces + 7) / 8)
      × IsBytes bitfield
      × ((j : ℕ) → j < 8 * length bitfield → getbit bitfield j ≡ ok (good_at tp.piece_array j))
unfolding bitfield_get
bitfield_get-good_at tp v =
    let n = bitfield_len tp in
    let fresh : List ℕ = replicate n 0 in
    let size : length fresh ≡ n = length-replicate n 0 in
    let (b, run, size', bytes, bits) =
      bitfield_loop_lem tp v tp.num_pieces 0 fresh (omega arith) (replicate-IsBytes n)
        (omega arith) in
    (b, run, omega arith, bytes, λ j h. ground (arith, bits j, getbit-replicate n j))

-- Whether any piece from `i` on is good.
abbrev none_good : List Piece → Bool
none_good [] = true
none_good (p ∷ ps) = not p.cksumok && none_good ps

module _ (tp : Torrent) (v : Arrayed tp) where
  empty_loop_lem :
      (left i : ℕ)
      → i + left ≡ tp.num_pieces
      → empty_loop tp left i ≡ ok (none_good (drop i tp.piece_array))
  unfolding empty_loop
  empty_loop_lem zero i h = rw (drop_all i tp.piece_array (omega arith))
  empty_loop_lem (suc left) i h =
      let (p, e, found) = piece_find_lem tp v i (omega arith) in
      rw (found, drop_step tp.piece_array i e, empty_loop_lem left (i + 1) (omega arith))
        (ground arith)

  -- For a torrent with a descriptor for each piece `torrent_empty` is true exactly when no piece is good.
  pub empty-none_good : empty tp ≡ ok (none_good tp.piece_array)
  unfolding empty
  empty-none_good = empty_loop_lem tp.num_pieces 0 (omega arith)
