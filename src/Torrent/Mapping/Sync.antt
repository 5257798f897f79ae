-- ===== src/Torrent/Mapping/Sync.antt =====
-- torrent_piece_unmap of torrent.c against the files joined together: where the bytes of a piece go.
use unworkable.Common.{
  ℕ, zero, suc, ◌+◌, ◌-◌, ◌≤◌, ◌<◌, ◌≡◌, refl, ap, sym, ◌∙◌, false, List, [], ◌∷◌, ◌++◌, some, ok,
  Outcome, must, ◌>>=◌, Option-cases, leb, arith, Bool-cases, inl, inr, length, get_elem?, set,
  length-append,
}
use unworkable.Common.Slices.{
  flatten, put, take_all, put-append, put-take, put-nil, length-put, drop_all, take-append_self,
  drop-append_self,
}
use mathlib.Core.List.{append-nil, append_assoc}
use unworkable.Torrent.{Mmap, Piece, Torrent}
use unworkable.Torrent.Pieces.{piece_find}
use unworkable.Torrent.Mapping.{places_of, synced_len, sync_loop, piece_unmap}
use unworkable.Torrent.Mapping.Bytes.{lengths, widths}
use unworkable.Torrent.Mapping.Cut.{cut, sum, cut_behind, cut_inside, cut_across}

-- The element behind a prefix.
set_at :
    (pre : List (List ℕ)) (b b' : List ℕ) (bs : List (List ℕ))
    → set (pre ++ (b ∷ bs)) (length pre) b' ≡ pre ++ (b' ∷ bs)
set_at [] b b' bs = refl
set_at (x ∷ pre) b b' bs = ap (λ l. x ∷ l) (set_at pre b b' bs)

get_at :
    (pre : List (List ℕ)) (b : List ℕ) (bs : List (List ℕ))
    → get_elem? (pre ++ (b ∷ bs)) (length pre) ≡ some b
get_at [] b bs = refl
get_at (x ∷ pre) b bs = get_at pre b bs

put_beyond : (at : ℕ) (src xs : List ℕ) → length xs ≤ at → put at src xs ≡ xs
put_beyond zero [] [] h = refl
put_beyond zero (s ∷ src) [] h = refl
put_beyond zero src (x ∷ xs) h = absurd (omega arith)
put_beyond (suc at) src [] h = refl
put_beyond (suc at) src (x ∷ xs) h = ap (λ l. x ∷ l) (put_beyond at src xs (omega arith))

-- A copy into two regions that lies behind the first, in it, and across.
module _ (off : ℕ) (b rest : List ℕ) where
  put_behind :
      (src : List ℕ) → length b ≤ off → put off src (b ++ rest) ≡ b ++ put (off - length b) src rest
  put_behind src h =
      let none_in : length b - off ≡ 0 = omega arith in
      rw (put-append off src b rest, put_beyond off src b h, none_in) refl

  put_inside :
      (m : List ℕ) → off + length m ≤ length b → put off (m ++ []) (b ++ rest) ≡ put off m b ++ rest
  put_inside m h =
      rw
        (
          append-nil m,
          put-append off m b rest,
          drop_all (length b - off) m (omega arith),
          put-nil (off - length b) rest,
        )
        refl

  put_across :
      (m more : List ℕ)
      → off < length b
      → length m ≡ length b - off
      → put off (m ++ more) (b ++ rest) ≡ put off m b ++ put 0 more rest
  put_across m more h e =
      let at_start : off - length b ≡ 0 = omega arith in
      let first : put off (m ++ more) b ≡ put off m b =
        sym (put-take off (length b - off) (m ++ more) b (omega arith))
        ∙ ap (λ src. put off src b) (take-append_self (length b - off) m more e) in
      rw
        (
          put-append off (m ++ more) b rest,
          at_start,
          first,
          drop-append_self (length b - off) m more e,
        )
        refl

-- The synchronisation where each mapping goes into its file whole.
whole_loop : List (ℕ × ℕ) → List Mmap → List (List ℕ) → Outcome (List (List ℕ))
whole_loop ((k, off) ∷ ps) (m ∷ ms) disk =
    must (get_elem? disk k) >>= λ bytes. whole_loop ps ms (set disk k (put off m bytes))
whole_loop [] ms disk = ok disk
whole_loop (p ∷ ps) [] disk = ok disk

-- Each mapping is covered by the pages that are synchronised.
abbrev pub Covered : ℕ → List (ℕ × ℕ) → List Mmap → Type 0
Covered page_size ((k, off) ∷ ps) (m ∷ ms) =
    (length m ≤ synced_len page_size off (length m)) × Covered page_size ps ms
Covered page_size [] ms = Unit
Covered page_size (p ∷ ps) [] = Unit

sync_loop-whole_loop :
    (page_size : ℕ) (ps : List (ℕ × ℕ)) (ms : List Mmap) (disk : List (List ℕ))
    → Covered page_size ps ms
    → sync_loop page_size ps ms disk ≡ whole_loop ps ms disk
unfolding sync_loop whole_loop
sync_loop-whole_loop page_size [] ms disk h = refl
sync_loop-whole_loop page_size (p ∷ ps) [] disk h = refl
sync_loop-whole_loop page_size ((k, off) ∷ ps) (m ∷ ms) disk h =
    rw (take_all (synced_len page_size off (length m)) m h.0)
      (elim (Option-cases (get_elem? disk k)) [
        | inl gone ↦ rw gone refl
        | inr (bytes, there) ↦
            rw there (sync_loop-whole_loop page_size ps ms (set disk k (put off m bytes)) h.1)
      ])

-- What a synchronisation comes to, for the files from a place in the list on.
abbrev Synced : List (List ℕ) → List (List ℕ) → ℕ → ℕ → List Mmap → Type 0
Synced pre bs off len ms =
    (bs' : List (List ℕ)) × ((whole_loop (places_of (cut (length pre) (lengths bs) off len)) ms
          (pre ++ bs)
        ≡ ok (pre ++ bs'))
      × ((flatten bs' ≡ put off (flatten ms) (flatten bs)) × (lengths bs' ≡ lengths bs)))

module _ (pre : List (List ℕ)) (b : List ℕ) where
  longer : length (pre ++ (b ∷ [])) ≡ length pre + 1
  longer = length-append pre (b ∷ [])

  moved : (bs : List (List ℕ)) → (pre ++ (b ∷ [])) ++ bs ≡ pre ++ (b ∷ bs)
  moved bs = append_assoc pre (b ∷ []) bs

-- One step of the synchronisation.
sync_step :
    (pre : List (List ℕ)) (b : List ℕ) (bs : List (List ℕ)) (off : ℕ) (m : Mmap) (ps : List (ℕ × ℕ))
    (ms : List Mmap)
    → whole_loop ((length pre, off) ∷ ps) (m ∷ ms) (pre ++ (b ∷ bs))
      ≡ whole_loop ps ms (pre ++ (put off m b ∷ bs))
unfolding whole_loop
sync_step pre b bs off m ps ms = rw (get_at pre b bs, set_at pre b (put off m b) bs) refl

-- A run on the files behind one is a run behind a longer prefix.
shift :
    (pre : List (List ℕ)) (b : List ℕ) (bs bs' : List (List ℕ)) (fls : List ℕ) (off len : ℕ)
    (ms : List Mmap)
    → whole_loop
        (places_of (cut (length (pre ++ (b ∷ []))) fls off len))
        ms
        ((pre ++ (b ∷ [])) ++ bs)
      ≡ ok ((pre ++ (b ∷ [])) ++ bs')
    → whole_loop (places_of (cut (length pre + 1) fls off len)) ms (pre ++ (b ∷ bs))
      ≡ ok (pre ++ (b ∷ bs'))
shift pre b bs bs' fls off len ms run = rw (longer pre b, moved pre b bs, moved pre b bs') at run

sync_behind :
    (pre : List (List ℕ)) (b : List ℕ) (bs : List (List ℕ)) (off len : ℕ) (ms : List Mmap)
    → length b ≤ off
    → Synced (pre ++ (b ∷ [])) bs (off - length b) len ms
    → Synced pre (b ∷ bs) off len ms
sync_behind pre b bs off len ms h (bs', (run, (bytes, same))) = (
  b ∷ bs',
  (
    rw (cut_behind (length pre) (length b) off len (lengths bs) h)
        (shift pre b bs bs' (lengths bs) (off - length b) len ms run),
    (rw (put_behind off b (flatten bs) (flatten ms) h, bytes) refl, ap (λ l. length b ∷ l) same),
  ),
)

sync_inside :
    (pre : List (List ℕ)) (b : List ℕ) (bs : List (List ℕ)) (off len : ℕ) (ms : List Mmap)
    → off < length b
    → len ≤ length b - off
    → widths ((length pre, off, len) ∷ []) ≡ lengths ms
    → Synced pre (b ∷ bs) off len ms
unfolding whole_loop
sync_inside pre b bs off len [] h p w = absurd (cc)
sync_inside pre b bs off len (m ∷ (m' ∷ ms)) h p w = absurd (cc)
sync_inside pre b bs off len (m ∷ []) h p w =
    let fits : length m ≡ len = ground arith in
    (
      put off m b ∷ bs,
      (
        rw (cut_inside (length pre) (length b) off len (lengths bs) h p)
            (sync_step pre b bs off m [] []),
        (
          sym (put_inside off b (flatten bs) m (omega arith)),
          ap (λ n. n ∷ lengths bs) (length-put off m b),
        ),
      ),
    )

sync_across :
    (pre : List (List ℕ)) (b : List ℕ) (bs : List (List ℕ)) (off len : ℕ) (m : Mmap)
    (ms : List Mmap)
    → off < length b
    → length b - off < len
    → length m ≡ length b - off
    → Synced (pre ++ (put off m b ∷ [])) bs 0 (len - (length b - off)) ms
    → Synced pre (b ∷ bs) off len (m ∷ ms)
sync_across pre b bs off len m ms h p w (bs', (run, (bytes, same))) =
    let b' : List ℕ = put off m b in
    (
      b' ∷ bs',
      (
        rw (cut_across (length pre) (length b) off len (lengths bs) h p) (
            sync_step pre b bs off m
              (places_of (cut (length pre + 1) (lengths bs) 0 (len - (length b - off)))) ms
            ∙ shift pre b' bs bs' (lengths bs) 0 (len - (length b - off)) ms run),
        (
          rw (put_across off b (flatten bs) m (flatten ms) h w, bytes) refl,
          rw (length-put off m b, same) refl,
        ),
      ),
    )

across_from :
    (pre : List (List ℕ)) (b : List ℕ) (bs : List (List ℕ)) (off len : ℕ) (ms : List Mmap)
    → ((b' : List ℕ) (ms' : List Mmap)
        → widths (cut (length pre + 1) (lengths bs) 0 (len - (length b - off))) ≡ lengths ms'
        → Synced (pre ++ (b' ∷ [])) bs 0 (len - (length b - off)) ms')
    → (length b - off) ∷ widths (cut (length pre + 1) (lengths bs) 0 (len - (length b - off)))
      ≡ lengths ms
    → off < length b
    → length b - off < len
    → Synced pre (b ∷ bs) off len ms
across_from pre b bs off len [] onward w h p = absurd (cc)
across_from pre b bs off len (m ∷ ms) onward w h p =
    sync_across pre b bs off len m ms h p (ground arith) (onward (put off m b) ms (ground arith))

sync_lem :
    (pre bs : List (List ℕ)) (off len : ℕ) (ms : List Mmap)
    → 0 < len
    → off + len ≤ sum (lengths bs)
    → widths (cut (length pre) (lengths bs) off len) ≡ lengths ms
    → Synced pre bs off len ms
sync_lem pre [] off len ms pos h w = absurd (omega arith)
sync_lem pre (b ∷ bs) off len ms pos h w = elim (Bool-cases (leb (length b) off)) [
  | inl behind ↦
      let w' = rw (cut_behind (length pre) (length b) off len (lengths bs) (ground arith)) at w in
      sync_behind pre b bs off len ms (ground arith) (
        sync_lem (pre ++ (b ∷ [])) bs (off - length b) len ms pos (ground arith)
          (rw (longer pre b) w'))
  | inr inside ↦ elim (Bool-cases (leb len (length b - off))) [
    | inl fits ↦ sync_inside pre b bs off len ms (ground arith) (ground arith) (
        rw (cut_inside (length pre) (length b) off len (lengths bs) (ground arith) (ground arith))
          at w)
    | inr on ↦
        across_from pre b bs off len ms
          (λ b' ms' w'.
            sync_lem (pre ++ (b' ∷ [])) bs 0 (len - (length b - off)) ms' (ground arith)
              (ground arith) (rw (longer pre b') w'))
          (rw
            (cut_across (length pre) (length b) off len (lengths bs) (ground arith) (ground arith))
            at w)
          (ground arith) (ground arith)
  ]
]

-- A piece whose mappings are the plain cut of the files, each as long as its extent, and each covered by the pages that
-- msync is called for, which do not go as far as the mapping does where its offset in the file is off a page boundary by
-- more than its last page has room for, is unmapped without a failure: its mappings are gone, and the files joined
-- together have the bytes of the mappings at the place of the piece and are otherwise, with their lengths, as they were.
pub piece_unmap-put :
    (page_size : ℕ) (tp : Torrent) (idx off : ℕ) (p : Piece)
    → piece_find tp idx ≡ ok p
    → 0 < p.len
    → off + p.len ≤ sum (lengths tp.disk)
    → p.places ≡ places_of (cut 0 (lengths tp.disk) off p.len)
    → lengths p.mmaps ≡ widths (cut 0 (lengths tp.disk) off p.len)
    → Covered page_size p.places p.mmaps
    → (disk : List (List ℕ)) × ((piece_unmap page_size tp idx
          ≡ ok (record tp {
            disk = disk;
            piece_array =
                set tp.piece_array idx (record p { mmaps = []; places = []; mapped = false });
          }))
        × ((flatten disk ≡ put off (flatten p.mmaps) (flatten tp.disk))
            × (lengths disk ≡ lengths tp.disk)))
unfolding piece_unmap
piece_unmap-put page_size tp idx off p found pos fits places lens covered =
    let (disk, (run, (bytes, same))) = sync_lem [] tp.disk off p.len p.mmaps pos fits (sym lens) in
    let synced : sync_loop page_size p.places p.mmaps tp.disk ≡ ok disk =
      sync_loop-whole_loop page_size p.places p.mmaps tp.disk covered
      ∙ ap (λ ps. whole_loop ps p.mmaps tp.disk) places
      ∙ run in
    (disk, (rw (found, synced) refl, (bytes, same)))
