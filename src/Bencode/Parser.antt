-- ===== src/Bencode/Parser.antt =====
-- The grammar of parse.y with its actions, as the parser that yacc makes of it runs them, and
-- benc_parse_buf. The rules that yacc reduces with no look at a token are the number, and the flag before
-- the first key of a dictionary; elsewhere the flag is set when the token of the length is there.
use unworkable.Common.{
  ℕ, zero, suc, ◌+◌, ◌*◌, true, List, [], ◌∷◌, Option, none, some, Outcome, ok, die, fault, ◌==◌,
  if◌then◌else◌, length,
}
use unworkable.Common.Int.{ℤ, to_word}
use unworkable.Buf.{Buf}
use unworkable.Bencode.{
  Node, bstring, bint, blist, bdict, bdict_entry, empty, c_string, node_add, node_add_head,
}
use unworkable.Bencode.Lexer.{
  Lexer, Token, colon, int_start, dict_start, list_start, eof, end, text, yylex,
}

-- The lexer, and `bstack`, of which the first `bstackidx` nodes are there: the last pushed stands first.
pub record Parser : Type 0 where
  pub lexer : Lexer
  pub stack : List Node

-- `none` where yyparse returns 1.
abbrev pub Parse : Type 0 → Type 0
Parse A = Parser → Outcome (Option (A × Parser))

module _ {A B : Type 0} where
  abbrev pub parsed : Outcome (Option (A × Parser)) → (A → Parse B) → Outcome (Option (B × Parser))
  parsed (ok (some (a, p))) f = f a p
  parsed (ok none) f = ok none
  parsed die f = die
  parsed fault f = fault

  infixl 5 ◌>>=◌
  abbrev pub ◌>>=◌ : Parse A → (A → Parse B) → Parse B
  ◌>>=◌ m f p = parsed (m p) f

module _ {B : Type 0} where
  infixl 5 ◌>>◌
  abbrev pub ◌>>◌ : Parse (Unit {0}) → Parse B → Parse B
  m >> k = m >>= λ _. k

module _ {A : Type 0} where
  abbrev pub pure : A → Parse A
  pure a p = ok (some (a, p))

  abbrev pub refuse : Parse A
  refuse p = ok none

abbrev pub lexed : Parser → Outcome (Token × Lexer) → Outcome (Option (Token × Parser))
lexed p (ok (t, l)) = ok (some (t, record p { lexer = l }))
lexed p die = die
lexed p fault = fault

unfoldable pub token : Parse Token
token p = lexed p (yylex p.lexer)

-- BENC_STACK_SIZE
abbrev pub stack_size : ℕ
stack_size = 16

unfoldable pub stack_push : Node → Parse (Unit {0})
stack_push n p =
    if suc (length p.stack) == stack_size
    then die
    else ok (some (tt, record p { stack = n ∷ p.stack }))

abbrev pub popped : Parser → List Node → Outcome (Option (Node × Parser))
popped p [] = fault
popped p (n ∷ ns) = ok (some (n, record p { stack = ns }))

unfoldable pub stack_pop : Parse Node
stack_pop p = popped p p.stack

-- `benc_node_add(benc_stack_peek(), new)`
abbrev pub added : Parser → List Node → Node → Outcome (Option (Unit {0} × Parser))
added p [] new = fault
added p (n ∷ ns) new = ok (some (tt, record p { stack = node_add n new ∷ ns }))

unfoldable pub add_to_top : Node → Parse (Unit {0})
add_to_top new p = added p p.stack new

unfoldable pub bstrflag : Parse (Unit {0})
bstrflag p = ok (some (tt, record p { lexer = record (p.lexer) { bstrflag = true } }))

abbrev pub is_colon : Token → Parse (Unit {0})
is_colon colon = pure tt
is_colon other = refuse

abbrev pub is_end : Token → Parse (Unit {0})
is_end (end len) = pure tt
is_end other = refuse

abbrev pub is_text : Token → Parse (List ℕ)
is_text (text s) = pure s
is_text other = refuse

-- The action of `bdict`, on the node that has been popped.
unfoldable pub close_dict : ℕ → Node → Node → Node
close_dict len (bdict old ns) first = node_add_head (bdict len ns) first
close_dict len other first = node_add_head other first

module _ (strtonum : List ℕ → Option ℤ) where
  -- The value, if it is a number; in the context of a string it is the length.
  abbrev pub numbered : Option ℤ → Parse ℤ
  numbered none p = ok none
  numbered (some lval) p = ok (
      some (
        lval,
        (if p.lexer.bstrflag then record p { lexer = record (p.lexer) { bstrlen = lval } } else p),
      ))

  unfoldable pub number : Token → Parse ℤ
  number t = is_text t >>= λ s. numbered (strtonum (c_string s))

  -- The length, whose token is there, and the string; `size_t len` is given a `long long`.
  unfoldable pub bstring_rule : Token → Parse (ℕ × List ℕ)
  bstring_rule t = do
    bstrflag
    len ← number t
    c ← token
    is_colon c
    s ← token
    value ← is_text s
    pure (to_word 64 len, value)

  unfoldable pub bint_rule : Parse Node
  bint_rule = do t ← token; value ← number t; e ← token; is_end e; pure (bint value)

  -- What begins with a token; each call costs a unit of fuel, and out of fuel it is a fault.
  unfoldable mutual
    pub value_rule : ℕ → Token → Parse Node
    value_rule zero t p = fault
    value_rule (suc fuel) (text s) p =
        (bstring_rule (text s) >>= λ (len, value). pure (bstring len value)) p
    value_rule (suc fuel) int_start p = bint_rule p
    value_rule (suc fuel) list_start p = blist_rule fuel p
    value_rule (suc fuel) dict_start p = bdict_rule fuel p
    value_rule (suc fuel) colon p = ok none
    value_rule (suc fuel) (end len) p = ok none
    value_rule (suc fuel) eof p = ok none

    pub blist_rule : ℕ → Parse Node
    blist_rule zero p = fault
    blist_rule (suc fuel) p =
        (stack_push (blist empty)
            >> (token >>= λ t. value_rule fuel t >>= λ first.
                blist_entries fuel >> (stack_pop >>= λ n. pure (node_add_head n first))))
          p

    -- The elements behind the first, and the END.
    pub blist_entries : ℕ → Parse (Unit {0})
    blist_entries zero p = fault
    blist_entries (suc fuel) p = (token >>= λ t. blist_next fuel t) p

    pub blist_next : ℕ → Token → Parse (Unit {0})
    blist_next zero t p = fault
    blist_next (suc fuel) (end len) p = ok (some (tt, p))
    blist_next (suc fuel) t p = (value_rule fuel t >>= λ n. add_to_top n >> blist_entries fuel) p

    pub bdict_entry_rule : ℕ → Token → Parse Node
    bdict_entry_rule zero t p = fault
    bdict_entry_rule (suc fuel) t p =
        (bstring_rule t >>= λ (len, key).
        token >>= λ t'. value_rule fuel t' >>= λ value. pure (bdict_entry key value))
          p

    pub bdict_rule : ℕ → Parse Node
    bdict_rule zero p = fault
    bdict_rule (suc fuel) p =
        (stack_push (bdict 0 empty)
            >> (bstrflag
                >> (token >>= λ t. bdict_entry_rule fuel t >>= λ first.
                    bdict_entries fuel >>= λ len.
                    stack_pop >>= λ n. pure (close_dict len n first))))
          p

    pub bdict_entries : ℕ → Parse ℕ
    bdict_entries zero p = fault
    bdict_entries (suc fuel) p = (token >>= λ t. bdict_next fuel t) p

    pub bdict_next : ℕ → Token → Parse ℕ
    bdict_next zero t p = fault
    bdict_next (suc fuel) (end len) p = ok (some (len, p))
    bdict_next (suc fuel) t p =
        (bdict_entry_rule fuel t >>= λ n. add_to_top n >> bdict_entries fuel) p

  -- The rules of `bencode`, for the tree that `root` has.
  unfoldable mutual
    pub bencode : ℕ → Node → Parse Node
    bencode zero root p = fault
    bencode (suc fuel) root p = (token >>= λ t. bencode_next fuel root t) p

    pub bencode_next : ℕ → Node → Token → Parse Node
    bencode_next zero root t p = fault
    bencode_next (suc fuel) root eof p = ok (some (root, p))
    bencode_next (suc fuel) root t p = (value_rule fuel t >>= λ n. bencode fuel (node_add root n)) p

  -- Four calls for each byte, and some more.
  unfoldable pub benc_parse_buf : Buf → Node → Parse Node
  benc_parse_buf b root p =
      bencode (4 * b.len + 8) root (record p { lexer = record (p.lexer) { input = b } })
