-- ===== src/Torrent/Mapping/Bytes.antt =====
-- torrent_piece_map of torrent.c against the files joined together.
use unworkable.Common.{
  ℕ, zero, suc, ◌+◌, ◌-◌, ◌*◌, ◌^◌, ◌≤◌, ◌<◌, ◌≡◌, refl, ap, sym, ◌∙◌, true, false, List, [], ◌∷◌,
  ◌++◌, some, ok, ltb, leb, arith, Bool-cases, inl, inr, length, get_elem?, set, take, drop, u64,
  length-take, length-drop,
}
use unworkable.Common.Slices.{flatten, take-append, drop-append, drop_all, take_all, take_zero}
use mathlib.Core.List.{append-nil}
use Prim.Native.Nat.add
use unworkable.Torrent.{Mmap, TorrentType, multifile, singlefile, Piece, Torrent}
use unworkable.Torrent.Pieces.{piece_find}
use unworkable.Torrent.Mapping.{
  Extent, grow, mmap_create, mmaps_create, extents, places_of, piece_map,
}
use unworkable.Torrent.Mapping.Cut.{cut, sum, Clear, cut_behind, cut_inside, cut_across, done}
use unworkable.Torrent.Mapping.Offset.{map_loop-cut}

-- The lengths of the files.
abbrev pub lengths : List (List ℕ) → List ℕ
lengths [] = []
lengths (b ∷ bs) = length b ∷ lengths bs

-- The lengths of extents.
abbrev pub widths : List Extent → List ℕ
widths [] = []
widths ((k, off, len) ∷ es) = len ∷ widths es

set_same : (xs : List (List ℕ)) (i : ℕ) {x : List ℕ} → get_elem? xs i ≡ some x → set xs i x ≡ xs
set_same [] i h = absurd (cc)
set_same (y ∷ ys) zero h = ground arith
set_same (y ∷ ys) (suc i) h = ap (λ zs. y ∷ zs) (set_same ys i h)

grow_none : (n : ℕ) (bytes : List ℕ) → n ≤ length bytes → grow n bytes ≡ bytes
grow_none n bytes h = let e : n - length bytes ≡ 0 = omega arith in rw e (append-nil bytes)

mmap_create_lem :
    (tp : Torrent) (k off len : ℕ) (bytes : List ℕ)
    → get_elem? tp.disk k ≡ some bytes
    → off + len ≤ length bytes
    → mmap_create tp (k, off, len) ≡ ok (take len (drop off bytes), tp)
unfolding mmap_create
mmap_create_lem tp k off len bytes e h =
    let short : ltb (length bytes) (len + off) ≡ false = ground arith in
    rw (e, grow_none (off + len) bytes h, set_same tp.disk k e, short) refl

-- The files from `k` on: the first of them, and the others.
drop_first :
    (disk : List (List ℕ)) (k : ℕ) (b : List ℕ) (bs : List (List ℕ))
    → drop k disk ≡ b ∷ bs
    → (get_elem? disk k ≡ some b) × (drop (k + 1) disk ≡ bs)
drop_first [] zero b bs h = absurd (cc)
drop_first [] (suc k) b bs h = absurd (cc)
drop_first (c ∷ cs) zero b bs h = ground arith
drop_first (c ∷ cs) (suc k) b bs h = rw (add.suc k 1) (drop_first cs k b bs h)

-- The mappings of a torrent, one after the other, are the bytes given.
abbrev Maps : Torrent → List Extent → List ℕ → Type 0
Maps tp es bytes =
    (ms : List Mmap) × ((mmaps_create es tp ≡ ok (ms, tp))
      × ((flatten ms ≡ bytes) × (lengths ms ≡ widths es)))

length-slice :
    (off len : ℕ) (b : List ℕ) → off + len ≤ length b → length (take len (drop off b)) ≡ len
length-slice off len b h = length-take len (drop off b) ∙ rw (length-drop off b) (omega arith)

Maps-one :
    (tp : Torrent) (k off len : ℕ) (b : List ℕ)
    → get_elem? tp.disk k ≡ some b
    → off + len ≤ length b
    → Maps tp ((k, off, len) ∷ []) (take len (drop off b))
unfolding mmaps_create
Maps-one tp k off len b e h = (
  take len (drop off b) ∷ [],
  (
    rw (mmap_create_lem tp k off len b e h) refl,
    (append-nil (take len (drop off b)), ap (λ n. n ∷ []) (length-slice off len b h)),
  ),
)

Maps-more :
    (tp : Torrent) (k off len : ℕ) (b : List ℕ) (es : List Extent) (bytes : List ℕ)
    → get_elem? tp.disk k ≡ some b
    → off + len ≤ length b
    → Maps tp es bytes
    → Maps tp ((k, off, len) ∷ es) (take len (drop off b) ++ bytes)
unfolding mmaps_create
Maps-more tp k off len b es bytes e h (ms, (run, (same, lens))) = (
  take len (drop off b) ∷ ms,
  (
    rw (mmap_create_lem tp k off len b e h, run) refl,
    (rw same refl, rw (length-slice off len b h, lens) refl),
  ),
)

-- A slice of two sequences one after the other.
module _ (off len : ℕ) (b rest : List ℕ) where
  slice_behind :
      length b ≤ off → take len (drop off (b ++ rest)) ≡ take len (drop (off - length b) rest)
  slice_behind h = rw (drop-append off b rest, drop_all off b h) refl

  slice_inside : off + len ≤ length b → take len (drop off (b ++ rest)) ≡ take len (drop off b)
  slice_inside h =
      let none_left : len - (length b - off) ≡ 0 = omega arith in
      rw
        (
          drop-append off b rest,
          take-append len (drop off b) (drop (off - length b) rest),
          length-drop off b,
          none_left,
          take_zero (drop (off - length b) rest),
        )
        (append-nil (take len (drop off b)))

  slice_across :
      off < length b
      → length b - off < len
      → take len (drop off (b ++ rest))
        ≡ take (length b - off) (drop off b) ++ take (len - (length b - off)) rest
  slice_across h p =
      let at_start : off - length b ≡ 0 = omega arith in
      rw (drop-append off b rest, at_start, take-append len (drop off b) rest, length-drop off b)
        (ap (λ xs. xs ++ take (len - (length b - off)) rest)
          (take_all len (drop off b) (rw (length-drop off b) (omega arith))
            ∙ sym (take_all (length b - off) (drop off b) (rw (length-drop off b) (omega arith)))))

cut-Maps :
    (tp : Torrent) (bs : List (List ℕ)) (k off len : ℕ)
    → drop k tp.disk ≡ bs
    → 0 < len
    → off + len ≤ sum (lengths bs)
    → Maps tp (cut k (lengths bs) off len) (take len (drop off (flatten bs)))
cut-Maps tp [] k off len e pos h = absurd (omega arith)
cut-Maps tp (b ∷ bs) k off len e pos h =
    let (here, there) = drop_first tp.disk k b bs e in
    elim (Bool-cases (leb (length b) off)) [
      | inl behind ↦
          rw
            (
              cut_behind k (length b) off len (lengths bs) (ground arith),
              slice_behind off len b (flatten bs) (ground arith),
            )
            (cut-Maps tp bs (k + 1) (off - length b) len there pos (ground arith))
      | inr inside ↦ elim (Bool-cases (leb len (length b - off))) [
        | inl fits ↦
            rw
              (
                cut_inside k (length b) off len (lengths bs) (ground arith) (ground arith),
                slice_inside off len b (flatten bs) (ground arith),
              )
              (Maps-one tp k off len b here (ground arith))
        | inr on ↦
            rw
              (
                cut_across k (length b) off len (lengths bs) (ground arith) (ground arith),
                slice_across off len b (flatten bs) (ground arith) (ground arith),
              )
              (Maps-more tp k off (length b - off) b
                (cut (k + 1) (lengths bs) 0 (len - (length b - off)))
                (take (len - (length b - off)) (flatten bs)) here (ground arith)
                (cut-Maps tp bs (k + 1) 0 (len - (length b - off)) there (ground arith)
                  (ground arith)))
      ]
    ]

-- The files are there in full, and the piece lies in them. A torrent of many files has them as the
-- torrent file lists them, and the piece is clear of the ends of short files.
abbrev pub OnDisk : Torrent → TorrentType → ℕ → ℕ → Type 0
OnDisk tp singlefile off len = (b : List ℕ) × ((tp.disk ≡ b ∷ []) × (off + len ≤ length b))
OnDisk tp multifile off len =
    (tp.files ≡ lengths tp.disk) × (Clear tp.files off len × (off + len ≤ sum tp.files))

extents_lem :
    (tp : Torrent) (type : TorrentType) (p : Piece) (off : ℕ)
    → u64 (tp.piece_length * p.index) ≡ off
    → 0 < p.len
    → OnDisk tp type off p.len
    → (extents tp type p ≡ ok (cut 0 (lengths tp.disk) off p.len, p.len))
      × (off + p.len ≤ sum (lengths tp.disk))
extents_lem tp singlefile p off e pos (b, (only, fits)) =
    rw (e, only)
      ((
        ap (λ es. ok (es, p.len))
            (sym (cut_inside 0 (length b) off p.len [] (omega arith) (omega arith))),
        omega arith,
      ))
extents_lem tp multifile p off e pos (full, (clear, fits)) =
    rw (e, sym full)
      (((
        map_loop-cut 0 tp.files off p.len 0 clear pos fits
            ∙ ap (λ n. done (cut 0 tp.files off p.len) n) (omega arith),
        fits,
      )))

-- A piece of some bytes that lies in the files as they are on the disk is mapped without a change to
-- them, under its own length, and the mappings that it gets are, one after the other, the bytes of the files joined together from the place
-- of the piece on, which is its index times the length of a piece. Each is as long as its part of the plain cut of the files.
pub piece_map-slice :
    (tp : Torrent) (idx : ℕ) (p : Piece)
    → piece_find tp idx ≡ ok p
    → 0 < p.len
    → tp.piece_length * p.index < 2 ^ 64
    → OnDisk tp tp.type (tp.piece_length * p.index) p.len
    → (ms : List Mmap) × ((piece_map tp idx
          ≡ ok (record tp {
            piece_array = set tp.piece_array idx (record p {
              mmaps = p.mmaps ++ ms;
              places =
                  p.places ++ places_of (cut 0 (lengths tp.disk) (tp.piece_length * p.index) p.len);
              mapped = true;
            });
          }))
        × ((flatten ms ≡ take p.len (drop (tp.piece_length * p.index) (flatten tp.disk)))
            × (lengths ms ≡ widths (cut 0 (lengths tp.disk) (tp.piece_length * p.index) p.len))))
unfolding piece_map
piece_map-slice tp idx p found pos small there =
    let (es, fits) = extents_lem tp tp.type p (tp.piece_length * p.index) (omega arith) pos there in
    let (ms, (run, same)) = cut-Maps tp tp.disk 0 (tp.piece_length * p.index) p.len refl pos fits in
    (ms, (rw (found, es, run) refl, same))
