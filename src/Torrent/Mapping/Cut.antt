-- ===== src/Torrent/Mapping/Cut.antt =====
-- A plain cut of the files, and the loop of torrent_piece_map of torrent.c from the start of a file on.
use unworkable.Common.{
  ℕ, ◌+◌, ◌-◌, ◌≤◌, ◌<◌, ◌≡◌, refl, ap, sym, ◌∙◌, true, false, List, [], ◌∷◌, Outcome, ok, fault,
  ◌==◌, ltb, leb, if◌then◌else◌, arith, Bool-cases, inl, inr, All,
}
use unworkable.Torrent.Mapping.{Extent, Extents, emit, spill, file_step, map_loop}

-- The bytes `off … off + len` of the files joined together, file by file.
unfoldable pub cut : ℕ → List ℕ → ℕ → ℕ → List Extent
cut k [] off len = []
cut k (fl ∷ fls) off len =
    if leb fl off
    then cut (k + 1) fls (off - fl) len
    else if leb len (fl - off)
    then (k, off, len) ∷ []
    else (k, off, fl - off) ∷ cut (k + 1) fls 0 (len - (fl - off))

abbrev pub sum : List ℕ → ℕ
sum [] = 0
sum (x ∷ xs) = x + sum xs

-- No file is empty, and where the offset is the end of a file, the file is as long as the piece at least.
abbrev pub Clear : List ℕ → ℕ → ℕ → Type 0
Clear [] off len = Unit
Clear (fl ∷ fls) off len = (0 < fl) × (off ≡ fl → len ≤ fl) × Clear fls (off - fl) len

abbrev pub done : List Extent → ℕ → Outcome Extents
done es t = ok (es, t)

-- A step at the start of a file that has the rest of the piece, and of one that has not.
cut_last :
    (k fl len : ℕ) (fls : List ℕ) → 0 < fl → len ≤ fl → cut k (fl ∷ fls) 0 len ≡ (k, 0, len) ∷ []
unfolding cut
cut_last k fl len fls pos h = ground arith

cut_more :
    (k fl len : ℕ) (fls : List ℕ)
    → 0 < fl
    → fl < len
    → cut k (fl ∷ fls) 0 len ≡ (k, 0, fl) ∷ cut (k + 1) fls 0 (len - fl)
unfolding cut
cut_more k fl len fls pos h =
    let whole : fl - 0 ≡ fl = omega arith in
    let inside : leb fl 0 ≡ false = ground arith in
    let more : leb len fl ≡ false = ground arith in rw (inside, whole, more) refl

module _ (k fl len tlen : ℕ) (next over : ℕ → ℕ → ℕ → Outcome Extents) where
  step_last :
      0 < len → len ≤ fl → file_step k fl 0 len tlen next over ≡ ok ((k, 0, len) ∷ [], tlen + len)
  step_last pos h = ground arith

  step_more :
      0 < fl
      → fl < len
      → file_step k fl 0 len tlen next over
        ≡ emit
            (k, 0, fl)
            (if ltb tlen len then next 0 (len - fl) (tlen + fl) else over 0 (len - fl) (tlen + fl))
  step_more pos h =
      let whole : fl - 0 ≡ fl = omega arith in
      let reached : ltb fl 0 ≡ false = ground arith in
      let short : ltb fl len ≡ true = ground arith in
      let some_left : (fl == 0) ≡ false = ground arith in
      let over_it : ltb fl (0 + len) ≡ true = ground arith in
      rw (reached, short, whole, some_left, over_it)
        (elim (Bool-cases (ltb tlen len)) [ inl less ↦ rw less refl | inr full ↦ rw full refl ])

  pub spill_last :
      0 < len
      → len ≤ fl
      → (off : ℕ) → spill k fl off len tlen next over ≡ ok ((k, 0, len) ∷ [], tlen + len)
  spill_last pos h off = ground arith

  pub spill_more :
      0 < fl
      → fl < len
      → (off : ℕ)
      → spill k fl off len tlen next over ≡ emit (k, 0, fl) (over 0 (len - fl) (tlen + fl))
  spill_more pos h off = ground arith

-- One file more in front.
pub emit_lem :
    (k fl len tlen : ℕ) (fls : List ℕ) {r : Outcome Extents}
    → 0 < fl
    → fl < len
    → r ≡ ok (cut (k + 1) fls 0 (len - fl), tlen + fl + (len - fl))
    → emit (k, 0, fl) r ≡ ok (cut k (fl ∷ fls) 0 len, tlen + len)
emit_lem k fl len tlen fls pos h e =
    let total : tlen + fl + (len - fl) ≡ tlen + len = omega arith in
    rw (e, total) (ap (λ es. done es (tlen + len)) (sym (cut_more k fl len fls pos h)))

pub last_lem :
    (k fl len tlen : ℕ) (fls : List ℕ)
    → 0 < fl
    → len ≤ fl
    → done ((k, 0, len) ∷ []) (tlen + len) ≡ done (cut k (fl ∷ fls) 0 len) (tlen + len)
last_lem k fl len tlen fls pos h =
    ap (λ es. done es (tlen + len)) (sym (cut_last k fl len fls pos h))

-- What follows a step, as the loop has it.
abbrev pub loop_at : ℕ → List ℕ → ℕ → ℕ → ℕ → Outcome Extents
loop_at k fls = λ o l t. map_loop k fls o l t

abbrev pub no_file : ℕ → ℕ → ℕ → Outcome Extents
no_file = λ o l t. fault

abbrev pub no_more : ℕ → ℕ → ℕ → Outcome Extents
no_more = λ o l t. ok ([], t)

abbrev pub spill_at : ℕ → ℕ → List ℕ → ℕ → ℕ → ℕ → Outcome Extents
spill_at k nfl fls = λ o l t. spill k nfl o l t (loop_at k (nfl ∷ fls)) (loop_at (k + 1) fls)

-- From the start of a file on.
pub map_loop_inside :
    (k : ℕ) (fls : List ℕ) (len tlen : ℕ)
    → All (λ fl. 0 < fl) fls
    → 0 < len
    → len ≤ sum fls
    → map_loop k fls 0 len tlen ≡ ok (cut k fls 0 len, tlen + len)
unfolding map_loop
map_loop_inside k [] len tlen some_bytes pos h = absurd (omega arith)
map_loop_inside k (fl ∷ []) len tlen some_bytes pos h =
    step_last k fl len tlen no_more no_file pos (omega arith)
    ∙ last_lem k fl len tlen [] some_bytes.0 (omega arith)
map_loop_inside k (fl ∷ (nfl ∷ fls)) len tlen some_bytes pos h = elim (Bool-cases (leb len fl)) [
  | inl fits ↦
      step_last k fl len tlen (loop_at (k + 1) (nfl ∷ fls)) (spill_at (k + 1) nfl fls) pos
        (ground arith)
      ∙ last_lem k fl len tlen (nfl ∷ fls) some_bytes.0 (ground arith)
  | inr more ↦
      step_more k fl len tlen (loop_at (k + 1) (nfl ∷ fls)) (spill_at (k + 1) nfl fls) some_bytes.0
        (ground arith)
      ∙ emit_lem k fl len tlen (nfl ∷ fls) some_bytes.0 (ground arith)
          (elim (Bool-cases (ltb tlen len)) [
            | inl less ↦ rw less (
                map_loop_inside (k + 1) (nfl ∷ fls) (len - fl) (tlen + fl) some_bytes.1
                  (ground arith) (ground arith))
            | inr full ↦ rw full (elim (Bool-cases (leb (len - fl) nfl)) [
              | inl fits ↦
                  spill_last (k + 1) nfl (len - fl) (tlen + fl) (loop_at (k + 1) (nfl ∷ fls))
                    (loop_at (k + 1 + 1) fls) (ground arith) (ground arith) 0
                  ∙ last_lem (k + 1) nfl (len - fl) (tlen + fl) fls some_bytes.1.0 (ground arith)
              | inr on ↦
                  spill_more (k + 1) nfl (len - fl) (tlen + fl) (loop_at (k + 1) (nfl ∷ fls))
                    (loop_at (k + 1 + 1) fls) some_bytes.1.0 (ground arith) 0
                  ∙ emit_lem (k + 1) nfl (len - fl) (tlen + fl) fls some_bytes.1.0 (ground arith) (
                      map_loop_inside (k + 1 + 1) fls (len - fl - nfl) (tlen + fl + nfl)
                        some_bytes.1.1 (ground arith) (ground arith))
            ])
          ])
]

module _ (k fl off len : ℕ) (fls : List ℕ) where
  -- The offset lies behind a file, and in it.
  pub cut_behind : fl ≤ off → cut k (fl ∷ fls) off len ≡ cut (k + 1) fls (off - fl) len
  unfolding cut
  cut_behind h = ground arith

  pub cut_inside : off < fl → len ≤ fl - off → cut k (fl ∷ fls) off len ≡ (k, off, len) ∷ []
  unfolding cut
  cut_inside h p = ground arith

  pub cut_across :
      off < fl
      → fl - off < len
      → cut k (fl ∷ fls) off len ≡ (k, off, fl - off) ∷ cut (k + 1) fls 0 (len - (fl - off))
  unfolding cut
  cut_across h p =
      let inside : leb fl off ≡ false = ground arith in
      let more : leb len (fl - off) ≡ false = ground arith in rw (inside, more) refl

pub Clear-pos : (fls : List ℕ) (off len : ℕ) → Clear fls off len → All (λ fl. 0 < fl) fls
Clear-pos [] off len c = tt
Clear-pos (fl ∷ fls) off len c = (c.0, Clear-pos fls (off - fl) len c.2)
