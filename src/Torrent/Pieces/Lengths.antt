-- ===== src/Torrent/Pieces/Lengths.antt =====
-- The lengths of the pieces of torrent.c: together they are the length of the data.
use unworkable.Common.{
  ℕ, zero, suc, ◌+◌, ◌-◌, ◌*◌, ◌^◌, ◌≤◌, ◌<◌, ◌≡◌, refl, ◌∙◌, ap, min, List, [], ◌∷◌, some, ok,
  arith, get_elem?, le→ltb, sub32, u32, u64, ltb, ◌==◌, false, Bool-cases, inl, inr,
}
use native.Mathlib.Nat.{mul_comm}
use unworkable.Torrent.{TorrentType, multifile, singlefile, Piece, Torrent}
use unworkable.Torrent.Pieces.{piece_find, last_len, piece_at, create_loop, pieces_create}

-- The length of the data of a torrent.
abbrev pub data_length : TorrentType → Torrent → ℕ
data_length singlefile tp = tp.file_length
data_length multifile tp = tp.total_length

-- A torrent whose number of pieces is that of its data: all pieces but the last are full.
pub record Sized (tp : Torrent) : Type 0 where
  pub some_piece : 0 < tp.num_pieces
  pub pieces_fit : tp.num_pieces < 2 ^ 32
  pub length_fits : tp.piece_length < 2 ^ 32
  pub before_last : (tp.num_pieces - 1) * tp.piece_length < data_length tp.type tp
  pub up_to_last : data_length tp.type tp ≤ (tp.num_pieces - 1) * tp.piece_length + tp.piece_length

-- The difference survives the reduction of the subtrahend, to 64 bits or to 32.
wrap_64 :
    (total p : ℕ)
    → p < 2 ^ 64
    → p ≤ total
    → total - p < 2 ^ 32
    → u32 (total + 2 ^ 64 - u64 p) ≡ total - p
wrap_64 total p h le lt = omega arith

wrap_32 : (total p : ℕ) → p ≤ total → total - p < 2 ^ 32 → u32 (total + 2 ^ 64 - u32 p) ≡ total - p
wrap_32 total p le lt = omega arith

product_fits : (p k : ℕ) → p < 2 ^ 32 → k < 2 ^ 32 → p * k < 2 ^ 64
product_fits p k h j = grind arith

module _ (tp : Torrent) (k : ℕ) (few : k < 2 ^ 32 - 1) (count : tp.num_pieces ≡ suc k) where
  last_index : sub32 tp.num_pieces 1 ≡ k
  last_index = rw count (omega arith)

  last_len_lem :
      (t : TorrentType)
      → tp.piece_length < 2 ^ 32
      → k * tp.piece_length < data_length t tp
      → data_length t tp ≤ k * tp.piece_length + tp.piece_length
      → last_len tp t (u64 (tp.piece_length * k)) ≡ data_length t tp - k * tp.piece_length
  last_len_lem singlefile hp lo hi = rw (mul_comm k tp.piece_length) (
      wrap_64 tp.file_length (tp.piece_length * k) (product_fits _ k hp (omega arith)) (omega arith)
        (omega arith))
  last_len_lem multifile hp lo hi =
      rw last_index (wrap_32 tp.total_length (k * tp.piece_length) (omega arith) (omega arith))

full_piece : (i k p : ℕ) → i < k → i * p + p ≤ k * p
full_piece i k p h = grind arith

get_elem?-create_loop :
    (tp : Torrent) (left i j : ℕ)
    → j < left
    → get_elem? (create_loop tp left i) j ≡ some (piece_at tp (i + j))
unfolding create_loop
get_elem?-create_loop tp zero i j h = elim h [ ]
get_elem?-create_loop tp (suc left) i zero h = ap (λ k. some (piece_at tp k)) (omega arith)
get_elem?-create_loop tp (suc left) i (suc j) h =
    get_elem?-create_loop tp left (i + 1) j (omega arith)
    ∙ ap (λ k. some (piece_at tp k)) (omega arith)

piece_at-index : (tp : Torrent) (i : ℕ) → (piece_at tp i).index ≡ i
unfolding piece_at
piece_at-index tp i = refl

len-piece_at :
    (tp : Torrent)
    → Sized tp
    → (i : ℕ) → i < tp.num_pieces
    → (piece_at tp i).len ≡ min tp.piece_length (data_length tp.type tp - i * tp.piece_length)
unfolding piece_at
len-piece_at tp sized i h =
    let k = tp.num_pieces - 1 in
    let count : tp.num_pieces ≡ suc k = omega arith in
    elim (Bool-cases (i == sub32 tp.num_pieces 1)) [
      | inl last ↦
          let here : i ≡ k = ground (arith, last_index tp k (omega arith) count) in
          rw
            (
              last,
              here,
              last_len_lem tp k (omega arith) count tp.type sized.length_fits sized.before_last
                  sized.up_to_last,
            )
            (omega arith)
      | inr inner ↦
          let before : i < k = ground (arith, last_index tp k (omega arith) count) in
          rw inner (omega (arith, full_piece i k tp.piece_length before))
    ]

abbrev pub sum_len : List Piece → ℕ
sum_len [] = 0
sum_len (p ∷ ps) = p.len + sum_len ps

sum_len-create_loop :
    (tp : Torrent)
    → Sized tp
    → (left i : ℕ) → i + left ≡ tp.num_pieces
    → sum_len (create_loop tp left i) ≡ data_length tp.type tp - i * tp.piece_length
unfolding create_loop
sum_len-create_loop tp sized zero i h =
    let all : i ≡ suc (tp.num_pieces - 1) = omega arith in rw all (omega arith)
sum_len-create_loop tp sized (suc left) i h = omega (
  arith,
  sum_len-create_loop tp sized left (i + 1) (omega arith),
  len-piece_at tp sized i (omega arith),
)

-- If the number of pieces is that of the data, all but the last one full, piece `i` of the array is as long as the piece length, or as what is left of the data where that is
-- less, for both types of torrent and although the product is taken in 32 bits for one.
pub piece_find-pieces_create :
    (tp : Torrent)
    → Sized tp
    → (i : ℕ) → i < tp.num_pieces
    → (p : Piece) × (piece_find (pieces_create tp) i ≡ ok p)
      × (p.index ≡ i)
      × (p.len ≡ min tp.piece_length (data_length tp.type tp - i * tp.piece_length))
unfolding piece_find pieces_create
piece_find-pieces_create tp sized i h =
    let inside : ltb (sub32 tp.num_pieces 1) i ≡ false = le→ltb _ _ (omega arith) in
    let first : 0 + i ≡ i = omega arith in
    (
      piece_at tp i,
      rw (inside, get_elem?-create_loop tp tp.num_pieces 0 i h, first),
      piece_at-index tp i,
      len-piece_at tp sized i h,
    )

-- If the number of pieces is that of the data, all but the last one full, the pieces' lengths add up to the length of the data.
pub sum_len-pieces_create :
    (tp : Torrent) → Sized tp → sum_len (pieces_create tp).piece_array ≡ data_length tp.type tp
unfolding pieces_create
sum_len-pieces_create tp sized =
    omega (arith, sum_len-create_loop tp sized tp.num_pieces 0 (omega arith))
