-- ===== src/Torrent/Mapping/Offset.antt =====
-- The loop of torrent_piece_map of torrent.c, from any offset on, against a plain cut of the files.
use unworkable.Common.{
  ℕ, ◌+◌, ◌-◌, ◌≤◌, ◌<◌, ◌≡◌, refl, ap, sym, ◌∙◌, Bool, true, false, ◌&&◌, List, [], ◌∷◌, Outcome,
  ok, ◌==◌, ltb, leb, if◌then◌else◌, arith, Bool-cases, Nat-cases, inl, inr, All,
}
use unworkable.Torrent.Mapping.{Extents, emit, file_step, map_loop}
use unworkable.Torrent.Mapping.Cut.{
  cut, sum, Clear, done, cut_behind, cut_inside, cut_across, spill_last, spill_more, emit_lem,
  last_lem, map_loop_inside, Clear-pos, loop_at, no_file, no_more, spill_at,
}

module _ (k fl off len tlen : ℕ) (next over : ℕ → ℕ → ℕ → Outcome Extents) where
  -- The step where the offset lies behind the file, at its end, and in it.
  step_behind : fl < off → file_step k fl off len tlen next over ≡ next (off - fl) len tlen
  step_behind h = ground arith

  step_end : off ≡ fl → 0 < len → len ≤ fl → file_step k fl off len tlen next over ≡ next 0 len tlen
  step_end h pos p = ground arith

  step_inside :
      off < fl
      → 0 < len
      → len ≤ fl - off
      → file_step k fl off len tlen next over ≡ done ((k, off, len) ∷ []) (tlen + len)
  step_inside h pos p = ground arith

  step_across :
      off < fl
      → fl - off < len
      → file_step k fl off len tlen next over
        ≡ emit
            (k, off, fl - off)
            (if ltb fl len && ltb tlen len
              then next 0 (len - (fl - off)) (tlen + (fl - off))
              else over off (len - (fl - off)) (tlen + (fl - off)))
  step_across h p =
      let reached : ltb fl off ≡ false = ground arith in
      let some_left : (fl - off == 0) ≡ false = ground arith in
      let no_end : (fl == off) ≡ false = ground arith in
      let over_it : ltb fl (off + len) ≡ true = ground arith in
      rw (reached, some_left, no_end, over_it)
        (elim (Bool-cases (ltb fl len && ltb tlen len)) [
          | inl short ↦ rw short refl
          | inr long ↦ rw long refl
        ])

-- One file more in front, from an offset in it on.
emit_across :
    (k fl off len tlen : ℕ) (fls : List ℕ) {r : Outcome Extents}
    → off < fl
    → fl - off < len
    → r ≡ ok (cut (k + 1) fls 0 (len - (fl - off)), tlen + (fl - off) + (len - (fl - off)))
    → emit (k, off, fl - off) r ≡ ok (cut k (fl ∷ fls) off len, tlen + len)
emit_across k fl off len tlen fls inside h e =
    let total : tlen + (fl - off) + (len - (fl - off)) ≡ tlen + len = omega arith in
    rw (e, total) (ap (λ es. done es (tlen + len)) (sym (cut_across k fl off len fls inside h)))

-- What the branches of a step that goes on in the next file come to.
across_lem :
    (k nfl off len tlen : ℕ) (fls : List ℕ) (b : Bool)
    → All (λ fl. 0 < fl) (nfl ∷ fls)
    → 0 < len
    → len ≤ sum (nfl ∷ fls)
    → (if b then loop_at k (nfl ∷ fls) 0 len tlen else spill_at k nfl fls off len tlen)
      ≡ ok (cut k (nfl ∷ fls) 0 len, tlen + len)
across_lem k nfl off len tlen fls true some_bytes pos h =
    map_loop_inside k (nfl ∷ fls) len tlen some_bytes pos h
across_lem k nfl off len tlen fls false some_bytes pos h = elim (Bool-cases (leb len nfl)) [
  | inl fits ↦
      spill_last k nfl len tlen (loop_at k (nfl ∷ fls)) (loop_at (k + 1) fls) pos (ground arith) off
      ∙ last_lem k nfl len tlen fls some_bytes.0 (ground arith)
  | inr on ↦
      spill_more k nfl len tlen (loop_at k (nfl ∷ fls)) (loop_at (k + 1) fls) some_bytes.0
        (ground arith) off
      ∙ emit_lem k nfl len tlen fls some_bytes.0 (ground arith) (
          map_loop_inside (k + 1) fls (len - nfl) (tlen + nfl) some_bytes.1 (ground arith)
            (ground arith))
]

-- Where the offset is clear of the ends of the files that are too short, the loop cuts the files plainly.
pub map_loop-cut :
    (k : ℕ) (fls : List ℕ) (off len tlen : ℕ)
    → Clear fls off len
    → 0 < len
    → off + len ≤ sum fls
    → map_loop k fls off len tlen ≡ ok (cut k fls off len, tlen + len)
unfolding map_loop
map_loop-cut k [] off len tlen c pos h = absurd (omega arith)
map_loop-cut k (fl ∷ []) off len tlen c pos h =
    step_inside k fl off len tlen no_more no_file (omega arith) pos (omega arith)
    ∙ ap (λ es. done es (tlen + len)) (sym (cut_inside k fl off len [] (omega arith) (omega arith)))
map_loop-cut k (fl ∷ (nfl ∷ fls)) off len tlen c pos h = elim (Nat-cases fl off) [
  | inl behind ↦
      step_behind k fl off len tlen (loop_at (k + 1) (nfl ∷ fls)) (spill_at (k + 1) nfl fls) behind
      ∙ map_loop-cut (k + 1) (nfl ∷ fls) (off - fl) len tlen c.2 pos (omega arith)
      ∙ ap (λ es. done es (tlen + len)) (sym (cut_behind k fl off len (nfl ∷ fls) (omega arith)))
  | inr (inl at_end) ↦
      let start : off - fl ≡ 0 = omega arith in
      step_end k fl off len tlen (loop_at (k + 1) (nfl ∷ fls)) (spill_at (k + 1) nfl fls) at_end pos
        (c.1 at_end)
      ∙ map_loop_inside (k + 1) (nfl ∷ fls) len tlen (Clear-pos (nfl ∷ fls) (off - fl) len c.2) pos
          (omega arith)
      ∙ ap (λ o. done (cut (k + 1) (nfl ∷ fls) o len) (tlen + len)) (sym start)
      ∙ ap (λ es. done es (tlen + len)) (sym (cut_behind k fl off len (nfl ∷ fls) (omega arith)))
  | inr (inr inside) ↦ elim (Bool-cases (leb len (fl - off))) [
    | inl fits ↦
        step_inside k fl off len tlen (loop_at (k + 1) (nfl ∷ fls)) (spill_at (k + 1) nfl fls)
          inside pos (ground arith)
        ∙ ap (λ es. done es (tlen + len))
            (sym (cut_inside k fl off len (nfl ∷ fls) inside (ground arith)))
    | inr on ↦
        step_across k fl off len tlen (loop_at (k + 1) (nfl ∷ fls)) (spill_at (k + 1) nfl fls)
          inside (ground arith)
        ∙ emit_across k fl off len tlen (nfl ∷ fls) inside (ground arith) (
            across_lem (k + 1) nfl off (len - (fl - off)) (tlen + (fl - off)) fls
              (ltb fl len && ltb tlen len) (Clear-pos (nfl ∷ fls) (off - fl) len c.2) (ground arith)
              (ground arith))
  ]
]
