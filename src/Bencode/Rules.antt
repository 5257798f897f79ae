-- ===== src/Bencode/Rules.antt =====
-- The rules of the grammar for lists and dictionaries, from what their parts are read as.
use unworkable.Common.{
  ℕ, suc, ◌+◌, ◌^◌, ◌<◌, ◌≡◌, refl, ap, Bool, true, false, List, [], ◌∷◌, ◌++◌, Option, some, ok,
  ◌==◌, length, arith,
}
use unworkable.Common.Int.{ℤ, pos}
use unworkable.Buf.{Buf}
use unworkable.Bencode.{
  Node, Nodes, blist, bdict, bdict_entry, empty, node, insert_tail, node_add, node_add_head,
}
use unworkable.Bencode.Lexer.{Token, colon, int_start, dict_start, list_start, eof, end, text}
use unworkable.Bencode.Syntax.{
  Tree, Trees, Pairs, str, int, list, dict, print_string, print, print_pairs, meaning, meanings,
  meaning_pairs, Counted, Numeral,
}
use unworkable.Bencode.Tokens.{
  Text, lexer, clean, yylex-int_start, yylex-list_start, yylex-dict_start, yylex-end,
}
use unworkable.Bencode.Fields.{
  parser, state, token_lem, token-string, bstring_rule_lem, bint_rule_lem,
}
use unworkable.Bencode.Parser.{
  Parser, ◌>>=◌, ◌>>◌, token, stack_push, stack_pop, add_to_top, bstrflag, close_dict, value_rule,
  blist_rule, blist_entries, blist_next, bdict_entry_rule, bdict_rule, bdict_entries, bdict_next,
  bencode, bencode_next,
}

-- The children that are added one by one.
unfoldable pub join : Nodes → Nodes → Nodes
join empty ns = ns
join (node n ms) ns = node n (join ms ns)

pub join-insert_tail :
    (ms : Nodes) (n : Node) (ns : Nodes) → join (insert_tail ms n) ns ≡ join ms (node n ns)
unfolding join insert_tail
join-insert_tail empty n ns = refl
join-insert_tail (node m ms) n ns = ap (λ k. node m k) (join-insert_tail ms n ns)

pub join-empty : (ms : Nodes) → join ms empty ≡ ms
unfolding join
join-empty empty = refl
join-empty (node m ms) = ap (λ k. node m k) (join-empty ms)

-- The token with which a value begins.
abbrev pub Begins : Token → Type 0
Begins (text s) = Unit
Begins int_start = Unit
Begins list_start = Unit
Begins dict_start = Unit
Begins colon = ⊥
Begins eof = ⊥
Begins (end len) = ⊥

module _ (strtonum : List ℕ → Option ℤ) where
  blist_next_value :
      (fuel : ℕ) (t : Token) (p : Parser)
      → Begins t
      → blist_next strtonum (suc fuel) t p
        ≡ (value_rule strtonum fuel t >>= λ n. add_to_top n >> blist_entries strtonum fuel) p
  unfolding blist_next
  blist_next_value fuel (text s) p h = refl
  blist_next_value fuel int_start p h = refl
  blist_next_value fuel list_start p h = refl
  blist_next_value fuel dict_start p h = refl
  blist_next_value fuel colon p h = absurd h
  blist_next_value fuel eof p h = absurd h
  blist_next_value fuel (end len) p h = absurd h

  pub bencode_next_value :
      (fuel : ℕ) (root : Node) (t : Token) (p : Parser)
      → Begins t
      → bencode_next strtonum (suc fuel) root t p
        ≡ (value_rule strtonum fuel t >>= λ n. bencode strtonum fuel (node_add root n)) p
  unfolding bencode_next
  bencode_next_value fuel root (text s) p h = refl
  bencode_next_value fuel root int_start p h = refl
  bencode_next_value fuel root list_start p h = refl
  bencode_next_value fuel root dict_start p h = refl
  bencode_next_value fuel root colon p h = absurd h
  bencode_next_value fuel root eof p h = absurd h
  bencode_next_value fuel root (end len) p h = absurd h

module _ (strtonum : List ℕ → Option ℤ) (b : Buf) (fits : b.len < 2 ^ 64) where
  abbrev pub here : ℕ → List Node → Parser
  here q st = state b fits q st

  -- From a position on a value is read, and it is what the tree means there.
  abbrev pub Reads : ℕ → ℕ → ℕ → Tree → List Node → Type 0
  Reads fuel q r t st =
      (tok : Token) × (p : Parser) × (token (here q st) ≡ ok (some (tok, p)))
      × Begins tok
      × (value_rule strtonum fuel tok p ≡ ok (some (meaning q t, here r st)))

  push_lem :
      (n : Node) (p : Parser)
      → length p.stack < 15
      → stack_push n p ≡ ok (some (tt, record p { stack = n ∷ p.stack }))
  unfolding stack_push
  push_lem n p h = let room : (suc (length p.stack) == 16) ≡ false = ground arith in rw room refl

  -- A list, from what its first element and the others are read as.
  pub list_case :
      (fuel q v r : ℕ) (x : Tree) (xs : Trees) (st : List Node)
      → Text b q (b'l' ∷ [])
      → length st < 15
      → Reads fuel (q + 1) v x (blist empty ∷ st)
      → blist_entries strtonum fuel (here v (blist empty ∷ st))
        ≡ ok (some (tt, here r (blist (meanings (q + 1 + length (print x)) xs) ∷ st)))
      → Reads (suc (suc fuel)) q r (list x xs) st
  unfolding value_rule blist_rule stack_pop node_add_head meaning
  list_case fuel q v r x xs st t d (tok, p, read, begins, value) rest = (
    list_start,
    here (q + 1) st,
    token_lem (clean b q) st (yylex-list_start b q t),
    tt,
    rw (push_lem (blist empty) (here (q + 1) st) d, read, value, rest) refl,
  )

  pub nil_case :
      (fuel q r : ℕ) (p : List Node)
      → Text b q (b'e' ∷ [])
      → r ≡ q + 1
      → blist_entries strtonum (suc (suc fuel)) (here q p) ≡ ok (some (tt, here r p))
  unfolding blist_entries blist_next
  nil_case fuel q r p t e = rw (token_lem (clean b q) p (yylex-end b q false t), e) refl

  pub more_case :
      (fuel q v r : ℕ) (x : Tree) (ms ns : Nodes) (st : List Node)
      → Reads fuel q v x (blist ms ∷ st)
      → blist_entries strtonum fuel (here v (blist (insert_tail ms (meaning q x)) ∷ st))
        ≡ ok (some (tt, here r (blist (join (insert_tail ms (meaning q x)) ns) ∷ st)))
      → blist_entries strtonum (suc (suc fuel)) (here q (blist ms ∷ st))
        ≡ ok (some (tt, here r (blist (join ms (node (meaning q x) ns)) ∷ st)))
  unfolding blist_entries add_to_top node_add
  more_case fuel q v r x ms ns st (tok, p, read, begins, value) rest =
      rw (read, blist_next_value strtonum fuel tok p begins, value, rest)
        (ap (λ k. ok (some (tt, here r (blist k ∷ st)))) (join-insert_tail ms (meaning q x) ns))

  -- An entry, from the token of its key on.
  entry_lem :
      (fuel q v r : ℕ) (w key : List ℕ) (x : Tree) (flag : Bool) (st : List Node)
      → Counted strtonum w key
      → Text b q (print_string w key)
      → v ≡ q + length (print_string w key)
      → Reads fuel v r x st
      → bdict_entry_rule strtonum
          (suc fuel)
          (text w)
          (parser (lexer b (q + length w) (pos 0) flag true false) st)
        ≡ ok (some (bdict_entry key (meaning v x), here r st))
  unfolding bdict_entry_rule
  entry_lem fuel q v r w key x flag st c t e (tok, p, read, begins, value) =
      rw (bstring_rule_lem b fits strtonum q v w key flag st c t e, read, value) refl

  pub dict_case :
      (fuel q r : ℕ) (w key : List ℕ) (x : Tree) (ps : Pairs) (st : List Node)
      → Text b q (b'd' ∷ [])
      → length st < 15
      → Counted strtonum w key
      → Text b (q + 1) (print_string w key)
      → let v = q + 1 + length (print_string w key) in
        let s = v + length (print x) in
        Reads fuel v s x (bdict 0 empty ∷ st)
        → bdict_entries strtonum (suc fuel) (here s (bdict 0 empty ∷ st))
          ≡ ok (some (r, here r (bdict 0 (meaning_pairs s ps) ∷ st)))
        → r ≡ s + length (print_pairs ps) + 1
        → Reads (suc (suc (suc fuel))) q r (dict w key x ps) st
  unfolding value_rule bdict_rule stack_pop close_dict node_add_head meaning bstrflag
  dict_case fuel q r w key x ps st t d c tk first rest e = (
    dict_start,
    here (q + 1) st,
    token_lem (clean b q) st (yylex-dict_start b q t),
    tt,
    rw
        (
          push_lem (bdict 0 empty) (here (q + 1) st) d,
          token-string b fits strtonum (q + 1) w key true (bdict 0 empty ∷ st) c tk,
          entry_lem fuel (q + 1) (q + 1 + length (print_string w key))
              (q + 1 + length (print_string w key) + length (print x)) w key x true
              (bdict 0 empty ∷ st) c tk refl first,
          rest,
          e,
        )
        refl,
  )

  pub done_case :
      (fuel q r : ℕ) (p : List Node)
      → Text b q (b'e' ∷ [])
      → r ≡ q + 1
      → bdict_entries strtonum (suc (suc fuel)) (here q p) ≡ ok (some (r, here r p))
  unfolding bdict_entries bdict_next
  done_case fuel q r p t e = rw (token_lem (clean b q) p (yylex-end b q false t), e) refl

  pub pair_case :
      (fuel q v s r : ℕ) (w key : List ℕ) (x : Tree) (ms ns : Nodes) (st : List Node)
      → Counted strtonum w key
      → Text b q (print_string w key)
      → v ≡ q + length (print_string w key)
      → Reads fuel v s x (bdict 0 ms ∷ st)
      → let n = bdict_entry key (meaning v x) in
        bdict_entries strtonum (suc fuel) (here s (bdict 0 (insert_tail ms n) ∷ st))
          ≡ ok (some (r, here r (bdict 0 (join (insert_tail ms n) ns) ∷ st)))
        → bdict_entries strtonum (suc (suc (suc fuel))) (here q (bdict 0 ms ∷ st))
          ≡ ok (some (r, here r (bdict 0 (join ms (node (bdict_entry key (meaning v x)) ns)) ∷ st)))
  unfolding bdict_entries bdict_next add_to_top node_add
  pair_case fuel q v s r w key x ms ns st c tk e first rest =
      rw
        (
          token-string b fits strtonum q w key false (bdict 0 ms ∷ st) c tk,
          entry_lem fuel q v s w key x false (bdict 0 ms ∷ st) c tk e first,
          rest,
        )
        (ap (λ k. ok (some (r, here r (bdict 0 k ∷ st))))
          (join-insert_tail ms (bdict_entry key (meaning v x)) ns))

  pub str_case :
      (fuel q r : ℕ) (w s : List ℕ) (st : List Node)
      → Counted strtonum w s
      → Text b q (print_string w s)
      → r ≡ q + length (print_string w s)
      → Reads (suc fuel) q r (str w s) st
  unfolding value_rule meaning
  str_case fuel q r w s st c t e = (
    text w,
    parser (lexer b (q + length w) (pos 0) false true false) st,
    token-string b fits strtonum q w s false st c t,
    tt,
    rw (bstring_rule_lem b fits strtonum q r w s false st c t e) refl,
  )

  pub int_case :
      (fuel q r : ℕ) (w : List ℕ) (n : ℤ) (st : List Node)
      → Numeral strtonum w n
      → Text b q (b'i' ∷ (w ++ b'e' ∷ []))
      → r ≡ q + 1 + length w + 1
      → Reads (suc fuel) q r (int w n) st
  unfolding value_rule meaning
  int_case fuel q r w n st c t e = (
    int_start,
    here (q + 1) st,
    token_lem (clean b q) st (yylex-int_start b q (t.0, t.1, tt)),
    tt,
    bint_rule_lem b fits strtonum (q + 1) r w n st c t.2 e,
  )
