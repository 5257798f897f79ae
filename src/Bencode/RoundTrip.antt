-- ===== src/Bencode/RoundTrip.antt =====
-- The parser reads what the grammar of parse.y describes.
use unworkable.Common.{
  ℕ, zero, suc, ◌+◌, ◌-◌, ◌*◌, ◌^◌, ◌≤◌, ◌<◌, ◌≡◌, refl, ap, sym, Bool, List, [], ◌∷◌, ◌++◌, Option,
  some, ok, length, arith, length-append, All, get_elem?-append_at,
}
use mathlib.Core.Path.{subst}
use mathlib.Core.List.{append_assoc}
use unworkable.Common.Int.{ℤ}
use unworkable.Common.Slices.{flatten}
use unworkable.Buf.{Buf, buf_load}
use unworkable.Buf.Contents.{filled, buf_load-filled}
use unworkable.Bencode.{
  Node, Nodes, blist, bdict, bdict_entry, empty, insert_tail, node_add, root_create,
}
use unworkable.Bencode.Syntax.{
  Tree, Trees, Pairs, str, int, list, dict, nil, more, done, pair, print_string, print, print_all,
  print_pairs, meaning, meanings, meaning_pairs, Fits, FitsAll, FitsPairs, print_pos,
}
use unworkable.Bencode.Tokens.{Text, clean, Text-split, yylex-eof}
use unworkable.Bencode.Fields.{parser, token_lem}
use unworkable.Bencode.Rules.{
  join, join-empty, here, Reads, list_case, nil_case, more_case, dict_case, done_case, pair_case,
  str_case, int_case, bencode_next_value, join-insert_tail,
}
use unworkable.Bencode.Parser.{Parser, blist_entries, bdict_entries, bencode, benc_parse_buf}

module _ (strtonum : List ℕ → Option ℤ) (b : Buf) (fits : b.len < 2 ^ 64) where
  abbrev ReadsAt : ℕ → ℕ → ℕ → Tree → List Node → Type 0
  ReadsAt fuel q r t st = Reads strtonum b fits fuel q r t st

  abbrev state : ℕ → List Node → Parser
  state q st = here strtonum b fits q st

  mutual
    unfolding print meaning Fits join

    value_lem :
        (t : Tree) (fuel q r depth : ℕ) (st : List Node)
        → Fits strtonum depth t
        → depth + length st ≤ 15
        → Text b q (print t)
        → 4 * length (print t) ≤ fuel
        → r ≡ q + length (print t)
        → ReadsAt fuel q r t st
    value_lem (str w s) fuel q r depth st h d t f e =
        let k : fuel ≡ suc (fuel - 1) = omega (arith, print_pos (str w s)) in
        subst (λ k. ReadsAt k q r (str w s) st) (sym k)
          (str_case strtonum b fits (fuel - 1) q r w s st h t e)
    value_lem (int w n) fuel q r depth st h d t f e =
        let k : fuel ≡ suc (fuel - 1) = omega arith in
        subst (λ k. ReadsAt k q r (int w n) st) (sym k)
          (int_case strtonum b fits (fuel - 1) q r w n st h t
            (omega (arith, length-append w (b'e' ∷ []))))
    value_lem (list x xs) fuel q r depth st h d t f e =
        let k : fuel ≡ suc (suc (fuel - 2)) = omega arith in
        let (tx, txs) = Text-split b (q + 1) (print x) (print_all xs ++ b'e' ∷ []) t.2 in
        let len = length-append (print x) (print_all xs ++ b'e' ∷ []) in
        let len_all = length-append (print_all xs) (b'e' ∷ []) in
        subst (λ k. ReadsAt k q r (list x xs) st) (sym k)
          (list_case strtonum b fits (fuel - 2) q (q + 1 + length (print x)) r x xs st
            (t.0, t.1, tt) (omega (arith, h.0))
            (value_lem x (fuel - 2) (q + 1) (q + 1 + length (print x)) (depth - 1)
              (blist empty ∷ st) h.1 (omega (arith, h.0)) tx (omega (arith, len, len_all)) refl)
            (entries_lem xs (fuel - 2) (q + 1 + length (print x)) r (depth - 1) empty st h.2
              (omega (arith, h.0)) txs (omega (arith, len, len_all)) (omega (arith, len, len_all))))
    value_lem (dict w key x ps) fuel q r depth st h d t f e =
        let k : fuel ≡ suc (suc (suc (fuel - 3))) = omega arith in
        let tail = print_pairs ps ++ b'e' ∷ [] in
        let (tk, rest) = Text-split b (q + 1) (print_string w key) (print x ++ tail) t.2 in
        let v = q + 1 + length (print_string w key) in
        let (tx, tps) = Text-split b v (print x) tail rest in
        let len_key = length-append (print_string w key) (print x ++ tail) in
        let len = length-append (print x) tail in
        let len_all = length-append (print_pairs ps) (b'e' ∷ []) in
        subst (λ k. ReadsAt k q r (dict w key x ps) st) (sym k)
          (dict_case strtonum b fits (fuel - 3) q r w key x ps st (t.0, t.1, tt)
            (omega (arith, h.0)) h.1 tk
            (value_lem x (fuel - 3) v (v + length (print x)) (depth - 1) (bdict 0 empty ∷ st) h.2
              (omega (arith, h.0)) tx (omega (arith, len_key, len, len_all)) refl)
            (pairs_lem ps (suc (fuel - 3)) (v + length (print x)) r (depth - 1) empty st h.3
              (omega (arith, h.0)) tps (omega (arith, len_key, len, len_all))
              (omega (arith, len_key, len, len_all)))
            (omega (arith, len_key, len, len_all)))

    entries_lem :
        (ts : Trees) (fuel q r depth : ℕ) (ms : Nodes) (st : List Node)
        → FitsAll strtonum depth ts
        → depth + suc (length st) ≤ 15
        → Text b q (print_all ts ++ b'e' ∷ [])
        → 4 * length (print_all ts) + 2 ≤ fuel
        → r ≡ q + length (print_all ts) + 1
        → blist_entries strtonum fuel (state q (blist ms ∷ st))
          ≡ ok (some (tt, state r (blist (join ms (meanings q ts)) ∷ st)))
    entries_lem nil fuel q r depth ms st h d t f e =
        let k : fuel ≡ suc (suc (fuel - 2)) = omega arith in
        rw (k, join-empty ms)
          (nil_case strtonum b fits (fuel - 2) q r (blist ms ∷ st) t (omega arith))
    entries_lem (more x xs) fuel q r depth ms st h d t f e =
        let k : fuel ≡ suc (suc (fuel - 2)) = omega arith in
        let split : (print x ++ print_all xs) ++ b'e' ∷ []
            ≡ print x ++ (print_all xs ++ b'e' ∷ []) =
          append_assoc (print x) (print_all xs) (b'e' ∷ []) in
        let (tx, txs) = Text-split b q (print x) (print_all xs ++ b'e' ∷ []) (rw split at t) in
        let len = length-append (print x) (print_all xs) in
        let v = q + length (print x) in
        rw k (
          more_case strtonum b fits (fuel - 2) q v r x ms (meanings v xs) st
            (value_lem x (fuel - 2) q v depth (blist ms ∷ st) h.0 (omega arith) tx
              (omega (arith, len)) refl)
            (entries_lem xs (fuel - 2) v r depth (insert_tail ms (meaning q x)) st h.1 d txs
              (omega (arith, len, print_pos x)) (omega (arith, len))))

    pairs_lem :
        (ps : Pairs) (fuel q r depth : ℕ) (ms : Nodes) (st : List Node)
        → FitsPairs strtonum depth ps
        → depth + suc (length st) ≤ 15
        → Text b q (print_pairs ps ++ b'e' ∷ [])
        → 4 * length (print_pairs ps) + 2 ≤ fuel
        → r ≡ q + length (print_pairs ps) + 1
        → bdict_entries strtonum fuel (state q (bdict 0 ms ∷ st))
          ≡ ok (some (r, state r (bdict 0 (join ms (meaning_pairs q ps)) ∷ st)))
    pairs_lem done fuel q r depth ms st h d t f e =
        let k : fuel ≡ suc (suc (fuel - 2)) = omega arith in
        rw (k, join-empty ms)
          (done_case strtonum b fits (fuel - 2) q r (bdict 0 ms ∷ st) t (omega arith))
    pairs_lem (pair w key x ps) fuel q r depth ms st h d t f e =
        let tail = print_pairs ps ++ b'e' ∷ [] in
        let split = append_assoc (print_string w key) (print x ++ print_pairs ps) (b'e' ∷ []) in
        let split_value = append_assoc (print x) (print_pairs ps) (b'e' ∷ []) in
        let whole : Text b q (print_string w key ++ (print x ++ tail)) =
          rw split_value at (rw split at t) in
        let (tk, rest) = Text-split b q (print_string w key) (print x ++ tail) whole in
        let v = q + length (print_string w key) in
        let (tx, tps) = Text-split b v (print x) tail rest in
        let n = bdict_entry key (meaning v x) in
        let len_key = length-append (print_string w key) (print x ++ print_pairs ps) in
        let len = length-append (print x) (print_pairs ps) in
        let numeral = length-append w (b':' ∷ key) in
        let k : fuel ≡ suc (suc (suc (fuel - 3))) = omega (arith, len_key, len, numeral) in
        rw k (
          pair_case strtonum b fits (fuel - 3) q v (v + length (print x)) r w key x ms
            (meaning_pairs (v + length (print x)) ps) st h.0 tk refl
            (value_lem x (fuel - 3) v (v + length (print x)) depth (bdict 0 ms ∷ st) h.1
              (omega arith) tx (omega (arith, len_key, len, numeral)) refl)
            (pairs_lem ps (suc (fuel - 3)) (v + length (print x)) r depth (insert_tail ms n) st h.2
              d tps (omega (arith, len_key, len, print_pos x)) (omega (arith, len_key, len))))

  -- The texts that follow one another, up to the end of the buffer.
  bencode_lem :
      (ts : Trees) (fuel q : ℕ) (ms : Nodes)
      → FitsAll strtonum 15 ts
      → Text b q (print_all ts)
      → q + length (print_all ts) ≡ b.len
      → 4 * length (print_all ts) + 2 ≤ fuel
      → bencode strtonum fuel (blist ms) (state q [])
        ≡ ok (some (blist (join ms (meanings q ts)), state b.len []))
  unfolding bencode meaning print Fits node_add join
  bencode_lem ts zero q ms h t e f = absurd (omega arith)
  bencode_lem ts (suc zero) q ms h t e f = absurd (omega arith)
  bencode_lem nil (suc (suc fuel)) q ms h t e f =
      let at_end : q ≡ b.len = omega arith in
      rw (at_end, token_lem (clean b b.len) [] (yylex-eof b b.len (omega arith)), join-empty ms)
        refl
  bencode_lem (more x xs) (suc (suc fuel)) q ms h t e f =
      let (tx, txs) = Text-split b q (print x) (print_all xs) t in
      let v = q + length (print x) in
      let len = length-append (print x) (print_all xs) in
      let (tok, p, read, begins, value) =
        value_lem x fuel q v 15 [] h.0 (omega arith) tx (omega (arith, len)) refl in
      rw
        (
          read,
          bencode_next_value strtonum fuel (blist ms) tok p begins,
          value,
          bencode_lem xs fuel v (insert_tail ms (meaning q x)) h.1 txs (omega (arith, len))
              (omega (arith, len, print_pos x)),
          join-insert_tail ms (meaning q x) (meanings v xs),
        )
        refl

-- The bytes of a buffer that has just been filled.
Text-filled : (flags : Bool) (pre s : List ℕ) → Text (filled flags (pre ++ s)) (length pre) s
Text-filled flags pre [] = tt
Text-filled flags pre (c ∷ s) =
    let next : (pre ++ c ∷ []) ++ s ≡ pre ++ (c ∷ s) = append_assoc pre (c ∷ []) s in
    let start : 0 + length pre ≡ length pre = omega arith in
    let one : length (pre ++ c ∷ []) ≡ length pre + 1 = length-append pre (c ∷ []) in
    (
      omega (arith, length-append pre (c ∷ s)),
      rw start (get_elem?-append_at pre c s),
      rw one at (rw next at (Text-filled flags (pre ++ c ∷ []) s)),
    )

-- A file with the text of the grammar, in which each numeral is read as the number that is meant, a string is as long
-- as its numeral says, and no more than fifteen lists and dictionaries are open at once, is loaded and parsed to the
-- nodes that the text means, with the offset of its end in each dictionary; and the lexer and the stack are left as
-- they were found.
pub benc_parse_buf-print :
    (strtonum : List ℕ → Option ℤ) (ts : Trees) (reads : List (List ℕ)) (flags : Bool) (old : Buf)
    → All (λ r. 0 < length r) reads
    → flatten reads ≡ print_all ts
    → length (flatten reads) < 2 ^ 64
    → FitsAll strtonum 15 ts
    → (b : Buf) × (buf_load (length (flatten reads)) reads flags ≡ ok b)
      × (benc_parse_buf strtonum b root_create (parser (clean old old.pos) [])
          ≡ ok (some (blist (meanings 0 ts), parser (clean b b.len) [])))
unfolding benc_parse_buf root_create join
benc_parse_buf-print strtonum ts reads flags old some_read text fits h =
    let b = filled flags (flatten reads) in
    let bytes : Text b 0 (print_all ts) =
      subst (λ s. Text (filled flags s) 0 (print_all ts)) (sym text)
        (Text-filled flags [] (print_all ts)) in
    let len : length (flatten reads) ≡ length (print_all ts) = ap (λ s. length s) text in
    (
      b,
      buf_load-filled reads flags some_read fits,
      bencode_lem strtonum b fits ts (4 * b.len + 8) 0 empty h bytes (omega (arith, len))
          (omega (arith, len)),
    )
