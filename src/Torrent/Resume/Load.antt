-- ===== src/Torrent/Resume/Load.antt =====
-- torrent_fastresume_load of torrent.c, and the round trip through the file that
-- torrent_fastresume_dump writes.
use unworkable.Common.{
  ℕ, zero, suc, ◌+◌, ◌^◌, ◌≤◌, ◌<◌, ◌≡◌, refl, ◌∙◌, ap, List, [], ◌∷◌, some, ok, arith, Bool, true,
  false, if◌then◌else◌, length, set, length-set, length-map, replicate, length-replicate, u32,
  Bool-cases, inl, inr, map, take, drop,
}
use mathlib.Core.List.{append-nil}
use unworkable.Common.{◌++◌, sym}
use unworkable.Common.Slices.{
  put_whole, take-set, take_step, drop-set, put, drop_all, drop_step, take_all,
}
use unworkable.Util.{getbit}
use unworkable.Torrent.{Piece, Torrent}
use unworkable.Torrent.Pieces.Find.{Arrayed, piece_find_lem}
use unworkable.Torrent.Resume.{bitfield_len, load_loop, fastresume_load, fastresume_dump}
use unworkable.Torrent.Resume.Bitfield.{good_at, bitfield_get-good_at}

-- What a bitfield says of pieces in order, the first of them with index `i`: those that it marks are good.
abbrev pub marked : (ℕ → Bool) → ℕ → List Piece → List Piece
marked bit i [] = []
marked bit i (p ∷ ps) = (if bit i then record p { cksumok = true } else p) ∷ marked bit (i + 1) ps

abbrev pub count_marked : (ℕ → Bool) → ℕ → List Piece → ℕ
count_marked bit i [] = 0
count_marked bit i (p ∷ ps) = (if bit i then 1 else 0) + count_marked bit (i + 1) ps

abbrev pub len_marked : (ℕ → Bool) → ℕ → List Piece → ℕ
len_marked bit i [] = 0
len_marked bit i (p ∷ ps) = (if bit i then p.len else 0) + len_marked bit (i + 1) ps

-- The three fields of a torrent that a load changes.
abbrev pub progress : Torrent → List Piece → ℕ → ℕ → Torrent
progress tp pieces good downloaded = record tp {
  piece_array = pieces;
  good_pieces = good;
  downloaded = downloaded;
}

progress_path :
    (tp : Torrent) {ps qs : List Piece} {g h d e : ℕ}
    → ps ≡ qs
    → g ≡ h
    → d ≡ e
    → ok (progress tp ps g d) ≡ ok (progress tp qs h e)
progress_path tp p q r = λ i. ok (progress tp (p i) (q i) (r i))

-- The torrent after a load of such a bitfield.
abbrev pub resumed : (ℕ → Bool) → Torrent → Torrent
resumed bit tp =
    progress tp (marked bit 0 tp.piece_array)
      (u32 (tp.good_pieces + count_marked bit 0 tp.piece_array))
      (tp.downloaded + len_marked bit 0 tp.piece_array)

module _ (bitfield : List ℕ) (bit : ℕ → Bool) where
  load_loop_lem :
      (left i : ℕ) (tp : Torrent)
      → Arrayed tp
      → tp.good_pieces < 2 ^ 32
      → i + left ≡ tp.num_pieces
      → ((j : ℕ) → j < tp.num_pieces → getbit bitfield j ≡ ok (bit j))
      → load_loop bitfield left i tp
        ≡ ok (
            progress tp
              (take i tp.piece_array ++ marked bit i (drop i tp.piece_array))
              (u32 (tp.good_pieces + count_marked bit i (drop i tp.piece_array)))
              (tp.downloaded + len_marked bit i (drop i tp.piece_array)))
  unfolding load_loop
  load_loop_lem zero i tp v g h bits =
      rw (drop_all i tp.piece_array (omega arith), take_all i tp.piece_array (omega arith))
        (progress_path tp (sym (append-nil tp.piece_array)) (omega arith) (omega arith))
  load_loop_lem (suc left) i tp v g h bits =
      let (p, e, found) = piece_find_lem tp v i (omega arith) in
      let inside : i < length tp.piece_array = omega arith in
      let step = drop_step tp.piece_array i e in
      elim (Bool-cases (bit i)) [
        | inl good ↦
            let p' : Piece = record p { cksumok = true } in
            let ps' = set tp.piece_array i p' in
            let rest = drop (i + 1) tp.piece_array in
            rw
              (
                found,
                bits i (omega arith),
                good,
                load_loop_lem left (i + 1)
                    (progress tp ps' (u32 (tp.good_pieces + 1)) (tp.downloaded + p.len))
                    (record {
                      described = length-set tp.piece_array i p' ∙ v.described;
                      room = v.room;
                    })
                    (omega arith) (omega arith) bits,
                step,
                drop-set tp.piece_array i p',
              )
              (progress_path tp
                (rw good (take-set tp.piece_array i p' (marked bit (i + 1) rest) inside))
                (rw good (omega arith)) (rw good (omega arith)))
        | inr bad ↦
            rw
              (
                found,
                bits i (omega arith),
                bad,
                load_loop_lem left (i + 1) tp v g (omega arith) bits,
                step,
              )
              (progress_path tp
                (rw bad
                  (take_step tp.piece_array i (marked bit (i + 1) (drop (i + 1) tp.piece_array)) e))
                (rw bad (omega arith)) (rw bad (omega arith)))
      ]

-- A piece before anything is known of it.
abbrev pub forget : Piece → Piece
forget p = record p { cksumok = false }

abbrev pub count_good : List Piece → ℕ
count_good [] = 0
count_good (p ∷ ps) = (if p.cksumok then 1 else 0) + count_good ps

abbrev pub len_good : List Piece → ℕ
len_good [] = 0
len_good (p ∷ ps) = (if p.cksumok then p.len else 0) + len_good ps

abbrev Tells : (ℕ → Bool) → ℕ → List Piece → Type 0
Tells bit i ps = (j : ℕ) → bit (i + j) ≡ good_at ps j

module _ (bit : ℕ → Bool) where
  Tells-head : (i : ℕ) (p : Piece) (ps : List Piece) → Tells bit i (p ∷ ps) → bit i ≡ p.cksumok
  Tells-head i p ps h = ap bit (omega arith) ∙ h 0

  Tells-tail : (i : ℕ) (p : Piece) (ps : List Piece) → Tells bit i (p ∷ ps) → Tells bit (i + 1) ps
  Tells-tail i p ps h j = ap bit (omega arith) ∙ h (suc j)

  marked-forget : (i : ℕ) (ps : List Piece) → Tells bit i ps → marked bit i (map forget ps) ≡ ps
  marked-forget i [] h = refl
  marked-forget i (p ∷ ps) h =
      ground (arith, Tells-head i p ps h, marked-forget (i + 1) ps (Tells-tail i p ps h))

  count_marked-forget :
      (i : ℕ) (ps : List Piece)
      → Tells bit i ps
      → count_marked bit i (map forget ps) ≡ count_good ps
  count_marked-forget i [] h = refl
  count_marked-forget i (p ∷ ps) h =
      ground (arith, Tells-head i p ps h, count_marked-forget (i + 1) ps (Tells-tail i p ps h))

  len_marked-forget :
      (i : ℕ) (ps : List Piece) → Tells bit i ps → len_marked bit i (map forget ps) ≡ len_good ps
  len_marked-forget i [] h = refl
  len_marked-forget i (p ∷ ps) h =
      ground (arith, Tells-head i p ps h, len_marked-forget (i + 1) ps (Tells-tail i p ps h))

count_good-le-length : (ps : List Piece) → count_good ps ≤ length ps
count_good-le-length [] = omega arith
count_good-le-length (p ∷ ps) = ground (arith, count_good-le-length ps)

-- The torrent as a restart finds it: no piece is known to be good.
abbrev pub restarted : Torrent → Torrent
restarted tp = progress tp (map forget tp.piece_array) 0 0

-- For a torrent with a descriptor for each piece, what is loaded back from the file that a dump writes is what was known at the dump: the same good
-- pieces, their number, and the sum of their lengths as the data that is there.
pub fastresume_load-fastresume_dump :
    (tp : Torrent)
    → Arrayed tp
    → (file : List ℕ) × (fastresume_dump tp ≡ ok file)
      × (fastresume_load (restarted tp) (some file)
          ≡ ok (
            true,
            progress tp tp.piece_array (count_good tp.piece_array) (len_good tp.piece_array),
          ))
unfolding fastresume_dump fastresume_load
fastresume_load-fastresume_dump tp v =
    let ps = tp.piece_array in
    let n = bitfield_len tp in
    let (file, run, size, bytes, bits) = bitfield_get-good_at tp v in
    let v' : Arrayed (restarted tp) = record {
      described = length-map ps forget ∙ v.described;
      room = v.room;
    } in
    let all : take n file ≡ file = take_all n file (omega arith) in
    let zeros : List ℕ = replicate n 0 in
    let read : put 0 file zeros ≡ file =
      put_whole file zeros (omega (arith, length-replicate {A = ℕ} n 0)) in
    let tells : Tells (good_at ps) 0 ps = λ j. ap (good_at ps) (omega arith) in
    let counted : u32 (0 + count_good ps) ≡ count_good ps =
      omega (arith, count_good-le-length ps) in
    let added : 0 + len_good ps ≡ len_good ps = omega arith in
    (
      file,
      run,
      rw
          (
            all,
            read,
            load_loop_lem file (good_at ps) tp.num_pieces 0 (restarted tp) v' (omega arith)
                (omega arith) (λ j h. bits j (omega arith)),
          )
          (rw
            (
              marked-forget (good_at ps) 0 ps tells,
              count_marked-forget (good_at ps) 0 ps tells,
              len_marked-forget (good_at ps) 0 ps tells,
            )
            (λ i. ok (true, progress tp ps (counted i) (added i)))),
    )
