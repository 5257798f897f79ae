-- ===== src/Bencode/Fields.antt =====
-- The rules of the grammar for strings and numbers, on the texts that they are for.
use unworkable.Common.{
  ℕ, ◌+◌, ◌^◌, ◌%◌, ◌<◌, ◌≡◌, refl, sym, Bool, true, false, List, [], ◌∷◌, ◌++◌, Option, some, ok,
  length, arith, length-append,
}
use mathlib.Core.List.{append_assoc}
use unworkable.Common.Int.{ℤ, pos}
use unworkable.Buf.{Buf}
use unworkable.Bencode.{Node, bint}
use unworkable.Bencode.Lexer.{Lexer, Token, text, yylex}
use unworkable.Bencode.Syntax.{Numeral, Counted, print_string}
use unworkable.Bencode.Tokens.{
  Text, lexer, clean, Text-split, yylex-numeral, yylex-number, yylex-colon, yylex-end, yylex-string,
}
use unworkable.Bencode.Parser.{Parser, token, number, bstrflag, bstring_rule, bint_rule}

abbrev pub parser : Lexer → List Node → Parser
parser l st = record { lexer = l; stack = st }

pub token_lem :
    (l : Lexer) (st : List Node) {t : Token} {l' : Lexer}
    → yylex l ≡ ok (t, l')
    → token (parser l st) ≡ ok (some (t, parser l' st))
unfolding token
token_lem l st e = rw e refl

module _ (b : Buf) (fits : b.len < 2 ^ 64) where
  abbrev pub state : ℕ → List Node → Parser
  state q st = parser (clean b q) st

  -- The token of a string's length, in either context.
  pub token-string :
      (strtonum : List ℕ → Option ℤ) (q : ℕ) (w s : List ℕ) (flag : Bool) (st : List Node)
      → Counted strtonum w s
      → Text b q (print_string w s)
      → token (parser (lexer b q (pos 0) flag false false) st)
        ≡ ok (some (text w, parser (lexer b (q + length w) (pos 0) flag true false) st))
  token-string strtonum q w s flag st c t =
      let cut : w ++ (b':' ∷ s) ≡ (w ++ b':' ∷ []) ++ s = sym (append_assoc w (b':' ∷ []) s) in
      let here = (Text-split b q (w ++ b':' ∷ []) s (rw cut at t)).0 in
      token_lem (lexer b q (pos 0) flag false false) st
        (yylex-numeral b q w flag c.0.1 c.0.0 here fits)

  -- The rest of the string.
  pub bstring_rule_lem :
      (strtonum : List ℕ → Option ℤ) (q r : ℕ) (w s : List ℕ) (flag : Bool) (st : List Node)
      → Counted strtonum w s
      → Text b q (print_string w s)
      → r ≡ q + length (print_string w s)
      → bstring_rule strtonum (text w) (parser (lexer b (q + length w) (pos 0) flag true false) st)
        ≡ ok (some ((length s, s), state r st))
  unfolding bstring_rule bstrflag number
  bstring_rule_lem strtonum q r w s flag st c t e =
      let (tw, ts) = Text-split b q w (b':' ∷ s) t in
      let n = length s in
      let colon_read =
        token_lem (lexer b (q + length w) (pos n) true true false) st
          (yylex-colon b (q + length w) (pos n) (ts.0, ts.1, tt)) in
      let string_read =
        token_lem (lexer b (q + length w + 1) (pos n) true false true) st
          (yylex-string b (q + length w + 1) s ts.2) in
      let len : length s % 2 ^ 64 ≡ length s = omega (arith, c.1) in
      let there : r ≡ q + length w + 1 + length s = omega (arith, length-append w (b':' ∷ s)) in
      rw (c.0.2, colon_read, string_read, len, there) refl

  pub bint_rule_lem :
      (strtonum : List ℕ → Option ℤ) (q r : ℕ) (w : List ℕ) (n : ℤ) (st : List Node)
      → Numeral strtonum w n
      → Text b q (w ++ b'e' ∷ [])
      → r ≡ q + length w + 1
      → bint_rule strtonum (state q st) ≡ ok (some (bint n, state r st))
  unfolding bint_rule number
  bint_rule_lem strtonum q r w n st c t e =
      let (tw, te) = Text-split b q w (b'e' ∷ []) t in
      let number_read = token_lem (clean b q) st (yylex-number b q w c.1 c.0 t fits) in
      let end_read =
        token_lem (lexer b (q + length w) (pos 0) false true false) st
          (yylex-end b (q + length w) true te) in
      rw (number_read, c.2, end_read, e) refl
