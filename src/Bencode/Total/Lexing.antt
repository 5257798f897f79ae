-- ===== src/Bencode/Total/Lexing.antt =====
-- The lexer ends on every input, and does not leave its buffer.
use unworkable.Common.{
  ℕ, zero, suc, ◌+◌, ◌-◌, ◌^◌, ◌≤◌, ◌<◌, ◌≡◌, Bool, true, false, not, ◌&&◌, List, [], ◌∷◌, ◌++◌,
  Outcome, ok, die, fault, ◌==◌, ltb, if◌then◌else◌, length, arith, Bool-cases, inl, inr,
  get_elem?_of_lt,
}
use mathlib.Core.Path.{subst}
use unworkable.Common.Int.{is_nat}
use unworkable.Buf.{Buf, buf_getc, buf_ungetc, buf_pos}
use unworkable.Bencode.Lexer.{
  Lexer, Token, Lex, colon, eof, end, text, string_end, skip, at_colon, at_e, is_ignored, at_char,
  lex_loop, yylex,
}

-- The buffer lies in its memory, and its position in the buffer.
pub record IsInside (b : Buf) : Type 0 where
  pub memory : b.cur + b.len ≤ length b.bytes
  pub position : b.pos ≤ b.len
  pub room : b.len < 2 ^ 64

-- The bytes that have not been read.
abbrev pub left : Lexer → ℕ
left l = l.input.len - l.input.pos

-- A token for which a character is taken from the input, whatever has gone before.
abbrev pub IsShort : Token → Type 0
IsShort (text s) = ⊥
IsShort eof = ⊥
IsShort other = Unit

-- A token has come, with no more than `n` bytes left behind it.
abbrev pub Lexed : ℕ → Outcome (Token × Lexer) → Type 0
Lexed n (ok (t, l)) = IsInside l.input × (left l ≤ n) × (IsShort t → left l < n)
Lexed n die = ⊥
Lexed n fault = ⊥

Lexed-if :
    (n : ℕ) (b : Bool) (x y : Outcome (Token × Lexer))
    → Lexed n x
    → Lexed n y
    → Lexed n (if b then x else y)
Lexed-if n true x y hx hy = hx
Lexed-if n false x y hx hy = hy

Lexed-le : (m n : ℕ) (x : Outcome (Token × Lexer)) → m ≤ n → Lexed m x → Lexed n x
Lexed-le m n (ok (t, l)) h (i, a, b) = (i, omega arith, λ s. omega (arith, b s))
Lexed-le m n die h e = e
Lexed-le m n fault h e = e

-- A character that is put back.
IsInside-ungetc : (b : Buf) → IsInside b → 0 < b.pos → IsInside (buf_ungetc b)
unfolding buf_ungetc
IsInside-ungetc b h p = ground (arith, h.memory, h.position, h.room)

left-ungetc :
    (b : Buf) → IsInside b → 0 < b.pos → (buf_ungetc b).len - (buf_ungetc b).pos ≤ b.len - b.pos + 1
unfolding buf_ungetc
left-ungetc b h p = ground (arith, h.memory, h.position, h.room)

-- What is done with a character that has been read, if the rest of the loop does what it is to do.
module _ (more : Lex) (buf : List ℕ) (l : Lexer) (h : IsInside l.input) (p : 0 < l.input.pos)
    (rest : (buf' : List ℕ) → Lexed (left l) (more buf' l)) where
  skip_lem : (buf' : List ℕ) → Lexed (left l + 1) (skip more buf' l)
  skip_lem buf' =
      Lexed-if (left l + 1) (is_nat l.bstrlen (length buf') && l.bstrflag) (string_end buf' l)
        (more buf' l) (h, omega arith, λ s. absurd s)
        (Lexed-le (left l) (left l + 1) (more buf' l) (omega arith) (rest buf'))

  at_colon_lem : Lexed (left l + 1) (at_colon buf l)
  at_colon_lem =
      Lexed-if (left l + 1) (not l.bdone && ltb 0 (length buf))
        (ok (text buf, record l { bdone = true; bcdone = false; input = buf_ungetc l.input }))
        (ok (colon, record l { bdone = false; bcdone = true }))
        (IsInside-ungetc l.input h p, left-ungetc l.input h p, λ s. absurd s)
        (h, omega arith, λ s. omega arith)

  at_e_lem : Lexed (left l + 1) (at_e buf l)
  at_e_lem =
      Lexed-if (left l + 1) (not l.bdone && ltb 0 (length buf))
        (ok (text buf, record l { bdone = true; input = buf_ungetc l.input }))
        (ok (end (buf_pos l.input), record l { bdone = false }))
        (IsInside-ungetc l.input h p, left-ungetc l.input h p, λ s. absurd s)
        (h, omega arith, λ s. omega arith)

  at_char_lem : (c : ℕ) → Lexed (left l + 1) (at_char more buf c l)
  at_char_lem c =
      let n = left l + 1 in
      let added = skip_lem (buf ++ c ∷ []) in
      Lexed-if n (is_ignored c l) _ _ added (
        Lexed-if n (c == b':') _ _ at_colon_lem (
          Lexed-if n (c == b'e') _ _ at_e_lem (
            Lexed-if n (c == b'i') _ _ (h, omega arith, λ s. omega arith)
              (Lexed-if n (c == b'd') _ _ (h, omega arith, λ s. omega arith)
                (Lexed-if n (c == b'l') _ _ (h, omega arith, λ s. omega arith) added)))))

lex_loop_lem :
    (fuel : ℕ) (buf : List ℕ) (l : Lexer)
    → IsInside l.input
    → left l < fuel
    → Lexed (left l) (lex_loop fuel buf l)
unfolding lex_loop buf_getc
lex_loop_lem zero buf l h f = elim f [ ]
lex_loop_lem (suc fuel) buf l h f =
    Lexed-if (left l) (is_nat l.bstrlen 0 && (l.bstrflag && l.bcdone)) (string_end buf l) _
      (h, omega arith, λ s. absurd s)
      (elim (Bool-cases (ltb l.input.pos l.input.len)) [
        | inl inside ↦
            let (c, at) =
              get_elem?_of_lt l.input.bytes (l.input.cur + l.input.pos)
                (ground (arith, h.memory)) in
            let next : Lexer = record l { input = record (l.input) { pos = l.input.pos + 1 } } in
            let inside' : IsInside next.input = record {
              memory = h.memory;
              position = ground arith;
              room = h.room;
            } in
            let one : left next + 1 ≡ left l = ground arith in
            rw (inside, at)
              (subst (λ n. Lexed n (at_char (lex_loop fuel) buf c next)) one
                (at_char_lem (lex_loop fuel) buf next inside' (omega arith)
                  (λ buf'. lex_loop_lem fuel buf' next inside' (omega arith)) c))
        | inr over ↦ rw over (h, omega arith, λ s. absurd s)
      ])

-- A token comes out of every input.
pub yylex_lem : (l : Lexer) → IsInside l.input → Lexed (left l) (yylex l)
unfolding yylex
yylex_lem l h = lex_loop_lem (suc (left l)) [] l h (omega arith)
