-- ===== src/Bencode/Lexer.antt =====
-- yylex of parse.y. What the buffer of the lexer holds is a list, and its growth is left out; that it ends
-- with a NUL is not said of a string whose length is just the size of the buffer.
use unworkable.Common.{
  ℕ, zero, suc, ◌-◌, Bool, true, false, not, ◌&&◌, ◌||◌, List, [], ◌∷◌, ◌++◌, Option, none, some,
  Outcome, ok, fault, ◌>>=◌, ◌==◌, ltb, if◌then◌else◌, length,
}
use unworkable.Common.Int.{ℤ, pos, is_nat}
use unworkable.Buf.{Buf, buf_getc, buf_ungetc, buf_pos}

-- The token STRING, with what `yylval` has, is `text`; `eof` is the 0 at the end of the input.
pub data Token : Type 0 where
  colon int_start dict_start list_start eof : Token
  end : ℕ → Token
  text : List ℕ → Token

-- The buffer `in` and the four static variables.
pub record Lexer : Type 0 where
  pub input : Buf
  pub bstrlen : ℤ
  pub bstrflag : Bool
  pub bdone : Bool
  pub bcdone : Bool

-- What is left of the loop, from the characters in the lexer's buffer on.
abbrev pub Lex : Type 0
Lex = List ℕ → Lexer → Outcome (Token × Lexer)

-- A string that has been read ends the context of a string.
abbrev pub string_end : Lex
string_end buf l = ok (text buf, record l { bstrlen = pos 0; bstrflag = false; bcdone = false })

-- From `skip` on, with the character added: a string has its length, or the loop goes on.
abbrev pub skip : Lex → Lex
skip more buf l =
    if is_nat l.bstrlen (length buf) && l.bstrflag then string_end buf l else more buf l

-- At a `:`, and at an `e`.
abbrev pub at_colon : Lex
at_colon buf l =
    if not l.bdone && ltb 0 (length buf)
    then ok (text buf, record l { bdone = true; bcdone = false; input = buf_ungetc l.input })
    else ok (colon, record l { bdone = false; bcdone = true })

abbrev pub at_e : Lex
at_e buf l =
    if not l.bdone && ltb 0 (length buf)
    then ok (text buf, record l { bdone = true; input = buf_ungetc l.input })
    else ok (end (buf_pos l.input), record l { bdone = false })

-- In the context of a string the special characters are ignored.
abbrev pub is_ignored : ℕ → Lexer → Bool
is_ignored c l = (c == b':' && (not l.bdone && l.bcdone)) || (not (c == b':') && l.bstrflag)

abbrev pub at_char : Lex → List ℕ → ℕ → Lexer → Outcome (Token × Lexer)
at_char more buf c l =
    if is_ignored c l
    then skip more (buf ++ c ∷ []) l
    else if c == b':'
    then at_colon buf l
    else if c == b'e'
    then at_e buf l
    else if c == b'i'
    then ok (int_start, l)
    else if c == b'd'
    then ok (dict_start, l)
    else if c == b'l'
    then ok (list_start, l)
    else skip more (buf ++ c ∷ []) l

abbrev pub on_char : Lex → List ℕ → Lexer → Option ℕ × Buf → Outcome (Token × Lexer)
on_char more buf l (none, b) = ok (eof, record l { input = b })
on_char more buf l (some c, b) = at_char more buf c (record l { input = b })

-- Rounds of the loop; out of fuel it is a fault.
unfoldable pub lex_loop : ℕ → Lex
lex_loop zero buf l = fault
lex_loop (suc fuel) buf l =
    if is_nat l.bstrlen 0 && (l.bstrflag && l.bcdone)
    then string_end buf l
    else buf_getc l.input >>= λ r. on_char (lex_loop fuel) buf l r

unfoldable pub yylex : Lexer → Outcome (Token × Lexer)
yylex l = lex_loop (suc (l.input.len - l.input.pos)) [] l
