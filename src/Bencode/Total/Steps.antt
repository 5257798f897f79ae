-- ===== src/Bencode/Total/Steps.antt =====
-- The steps of the rules: what a token, the stack and a test of a token leave of the input and of the stack.
use unworkable.Common.{
  ℕ, suc, ◌+◌, ◌<◌, ◌≡◌, List, [], ◌∷◌, Option, none, some, Outcome, ok, die, fault, ◌==◌, length,
  arith, Bool-cases, inl, inr,
}
use unworkable.Common.{ap}
use unworkable.Bencode.{Node}
use unworkable.Bencode.Lexer.{
  Lexer, Token, colon, int_start, dict_start, list_start, eof, end, text, yylex,
}
use unworkable.Bencode.Parser.{
  Parser, Parse, parsed, lexed, token, stack_push, popped, added, bstrflag, is_colon, is_end,
  is_text,
}
use unworkable.Bencode.Total.Lexing.{IsInside, left, IsShort, Lexed, yylex_lem}

abbrev pub rest : Parser → ℕ
rest p = left p.lexer

-- No fault, and what is said of the result where there is one.
abbrev pub Ends : {A : Type 0} → (A → Parser → Type 0) → Outcome (Option (A × Parser)) → Type 0
Ends P (ok (some (a, p))) = P a p
Ends P (ok none) = Unit
Ends P die = Unit
Ends P fault = ⊥

pub Ends-bind :
    {A B : Type 0} (P : A → Parser → Type 0) (Q : B → Parser → Type 0)
    (o : Outcome (Option (A × Parser))) (f : A → Parse B)
    → Ends P o
    → ((a : A) (p : Parser) → P a p → Ends Q (f a p))
    → Ends Q (parsed o f)
Ends-bind P Q (ok (some (a, p))) f h k = k a p h
Ends-bind P Q (ok none) f h k = tt
Ends-bind P Q die f h k = tt
Ends-bind P Q fault f h k = h

-- A parser from which less than `n` bytes are left, and a stack of a height.
pub record IsBelow (n height : ℕ) (p : Parser) : Type 0 where
  pub inside : IsInside p.lexer.input
  pub less : rest p < n
  pub high : length p.stack ≡ height

-- The same with the token that has been read: with a short one, a byte less is left.
abbrev pub Taken : ℕ → ℕ → Token → Parser → Type 0
Taken n height t p = IsBelow (n + 1) height p × (IsShort t → rest p < n)

abbrev pub Below : {A : Type 0} → ℕ → ℕ → A → Parser → Type 0
Below n height a p = IsBelow n height p

pub lexed_lem :
    (p : Parser) (n height : ℕ) (o : Outcome (Token × Lexer))
    → length p.stack ≡ height
    → Lexed n o
    → Ends (Taken n height) (lexed p o)
lexed_lem p n height (ok (t, l)) e (i, a, b) =
    (record { inside = i; less = omega arith; high = e }, b)
lexed_lem p n height die e h = absurd h
lexed_lem p n height fault e h = absurd h

pub token_lem :
    (n height : ℕ) (p : Parser) → IsBelow n height p → Ends (Taken (rest p) height) (token p)
unfolding token
token_lem n height p h =
    lexed_lem p (rest p) height (yylex p.lexer) h.high (yylex_lem p.lexer h.inside)

pub lower :
    {n : ℕ} (m height : ℕ) (p : Parser) → IsBelow n height p → rest p < m → IsBelow m height p
lower m height p h l = record { inside = h.inside; less = l; high = h.high }

pub bstrflag_lem :
    (n height : ℕ) (p : Parser) → IsBelow n height p → Ends (Below n height) (bstrflag p)
unfolding bstrflag
bstrflag_lem n height p h = record { inside = h.inside; less = h.less; high = h.high }

pub push_lem :
    (n height : ℕ) (x : Node) (p : Parser)
    → IsBelow n height p
    → Ends (Below n (suc height)) (stack_push x p)
unfolding stack_push
push_lem n height x p h = elim (Bool-cases (suc (length p.stack) == 16)) [
  | inl full ↦ rw full tt
  | inr room ↦ rw room (record { inside = h.inside; less = h.less; high = ap suc h.high })
]

-- With something on the stack it is there to be taken and to be added to.
pub popped_lem :
    (n height : ℕ) (p : Parser) (st : List Node)
    → IsInside p.lexer.input
    → rest p < n
    → length st ≡ suc height
    → Ends (Below n height) (popped p st)
popped_lem n height p [] i l e = absurd (omega arith)
popped_lem n height p (x ∷ st) i l e = record { inside = i; less = l; high = omega arith }

pub added_lem :
    (n height : ℕ) (p : Parser) (st : List Node) (new : Node)
    → IsInside p.lexer.input
    → rest p < n
    → length st ≡ suc height
    → Ends (Below n (suc height)) (added p st new)
added_lem n height p [] new i l e = absurd (omega arith)
added_lem n height p (x ∷ st) new i l e = record { inside = i; less = l; high = e }

pub text_lem :
    (n height : ℕ) (t : Token) (p : Parser)
    → IsBelow n height p
    → Ends (Below n height) (is_text t p)
text_lem n height (text s) p h = h
text_lem n height colon p h = tt
text_lem n height int_start p h = tt
text_lem n height dict_start p h = tt
text_lem n height list_start p h = tt
text_lem n height eof p h = tt
text_lem n height (end len) p h = tt

-- Behind a `:` and behind an END there is less than before.
pub colon_lem :
    (n height : ℕ) (t : Token) (p : Parser)
    → Taken n height t p
    → Ends (Below n height) (is_colon t p)
colon_lem n height colon p h = lower n height p h.0 (h.1 tt)
colon_lem n height (text s) p h = tt
colon_lem n height int_start p h = tt
colon_lem n height dict_start p h = tt
colon_lem n height list_start p h = tt
colon_lem n height eof p h = tt
colon_lem n height (end len) p h = tt

pub end_lem :
    (n height : ℕ) (t : Token) (p : Parser)
    → Taken n height t p
    → Ends (Below n height) (is_end t p)
end_lem n height (end len) p h = lower n height p h.0 (h.1 tt)
end_lem n height colon p h = tt
end_lem n height (text s) p h = tt
end_lem n height int_start p h = tt
end_lem n height dict_start p h = tt
end_lem n height list_start p h = tt
end_lem n height eof p h = tt

pub Ends-weaken :
    {A : Type 0} (m n height : ℕ) (o : Outcome (Option (A × Parser)))
    → m < n
    → Ends (Below m height) o
    → Ends (Below n height) o
Ends-weaken m n height (ok (some (a, p))) l h = lower n height p h (omega (arith, h.less))
Ends-weaken m n height (ok none) l h = tt
Ends-weaken m n height die l h = tt
Ends-weaken m n height fault l h = h
