-- ===== src/Bencode/Tokens.antt =====
-- What the lexer makes of the parts of a bencoded text.
use unworkable.Common.{
  ℕ, zero, suc, ◌+◌, ◌-◌, ◌^◌, ◌%◌, ◌≤◌, ◌<◌, ◌≡◌, refl, ap, ◌∙◌, Bool, true, false, List, [], ◌∷◌,
  ◌++◌, none, some, ok, ◌==◌, ltb, lt→ltb, length, get_elem?, All, arith, Bool-cases, inl, inr,
  length-append,
}
use mathlib.Core.List.{append_assoc, append-nil}
use mathlib.Core.Path.{subst}
use unworkable.Common.Int.{ℤ, pos}
use unworkable.Buf.{Buf, buf_getc, buf_ungetc, buf_pos}
use unworkable.Bencode.Syntax.{Plain}
use unworkable.Bencode.Lexer.{
  Lexer, colon, int_start, dict_start, list_start, eof, end, text, lex_loop, yylex, is_ignored,
  skip,
}

module _ (b : Buf) where
  abbrev pub at : ℕ → Buf
  at q = record b { pos = q }

  -- The bytes from a position on, as far as a text goes.
  abbrev pub Text : ℕ → List ℕ → Type 0
  Text q [] = Unit
  Text q (c ∷ s) = (q < b.len) × (get_elem? b.bytes (b.cur + q) ≡ some c) × Text (q + 1) s

  abbrev pub lexer : ℕ → ℤ → Bool → Bool → Bool → Lexer
  lexer q n flag done cdone = record {
    input = at q;
    bstrlen = n;
    bstrflag = flag;
    bdone = done;
    bcdone = cdone;
  }

  -- Between two values, and behind a numeral.
  abbrev pub clean : ℕ → Lexer
  clean q = lexer q (pos 0) false false false

  pub Text-split : (q : ℕ) (s t : List ℕ) → Text q (s ++ t) → Text q s × Text (q + length s) t
  Text-split q [] t h = (tt, subst (λ p. Text p t) (omega arith) h)
  Text-split q (c ∷ s) t h =
      let (a, r) = Text-split (q + 1) s t h.2 in
      ((h.0, h.1, a), subst (λ p. Text p t) (omega arith) r)

  pub Text-bound : (q : ℕ) (s : List ℕ) → 0 < length s → Text q s → q + length s ≤ b.len
  Text-bound q [] pos_ h = absurd (omega arith)
  Text-bound q (c ∷ []) pos_ h = omega (arith, h.0)
  Text-bound q (c ∷ (d ∷ s)) pos_ h = omega (arith, Text-bound (q + 1) (d ∷ s) (omega arith) h.2)

  pub getc : (q c : ℕ) (s : List ℕ) → Text q (c ∷ s) → buf_getc (at q) ≡ ok (some c, at (q + 1))
  unfolding buf_getc
  getc q c s h = let inside : ltb q b.len ≡ true = ground (arith, h.0) in rw (inside, h.1) refl

  pub getc_end : (q : ℕ) → b.len ≤ q → buf_getc (at q) ≡ ok (none, at q)
  unfolding buf_getc
  getc_end q h = let over : ltb q b.len ≡ false = ground arith in rw over refl

  ungetc : (q : ℕ) → q < b.len → b.len < 2 ^ 64 → buf_ungetc (at (q + 1)) ≡ at q
  unfolding buf_ungetc
  ungetc q h fits =
      let some_left : ltb 0 b.len ≡ true = ground arith in
      let back : (q + 1 + 2 ^ 64 - 1) % 2 ^ 64 ≡ q = omega arith in
      rw some_left (ap (λ p. at p) back)

  -- A character that is not special is added to what is there, while no string is being read.
  added_round :
      (fuel q c : ℕ) (buf s : List ℕ) (flag : Bool)
      → Plain c
      → Text q (c ∷ s)
      → lex_loop (suc fuel) buf (lexer q (pos 0) flag false false)
        ≡ lex_loop fuel (buf ++ c ∷ []) (lexer (q + 1) (pos 0) flag false false)
  unfolding lex_loop
  added_round fuel q c buf s false h t =
      rw (getc q c s t) (ground (arith, length-append buf (c ∷ [])))
  added_round fuel q c buf s true h t =
      rw (getc q c s t) (ground (arith, length-append buf (c ∷ [])))

  added_rounds :
      (fuel k q : ℕ) (buf w : List ℕ) (flag : Bool)
      → All Plain w
      → Text q w
      → fuel ≡ length w + k
      → lex_loop fuel buf (lexer q (pos 0) flag false false)
        ≡ lex_loop k (buf ++ w) (lexer (q + length w) (pos 0) flag false false)
  added_rounds fuel k q buf [] flag h t e =
      let all : fuel ≡ k = omega arith in
      let here : q + 0 ≡ q = omega arith in rw (all, append-nil buf, here) refl
  added_rounds zero k q buf (c ∷ w) flag h t e = absurd (omega arith)
  added_rounds (suc fuel) k q buf (c ∷ w) flag h t e =
      let there : q + suc (length w) ≡ q + 1 + length w = omega arith in
      added_round fuel q c buf w flag h.0 t
      ∙ added_rounds fuel k (q + 1) (buf ++ c ∷ []) w flag h.1 t.2 (omega arith)
      ∙ rw (append_assoc buf (c ∷ []) w, there) refl

  -- What ends a numeral: a `:`, and the `e` of a number. It stays in the input.
  stop_colon :
      (k q : ℕ) (buf : List ℕ) (flag : Bool)
      → Text q (b':' ∷ [])
      → 0 < length buf
      → b.len < 2 ^ 64
      → lex_loop (suc k) buf (lexer q (pos 0) flag false false)
        ≡ ok (text buf, lexer q (pos 0) flag true false)
  unfolding lex_loop
  stop_colon k q buf false t p fits =
      rw (getc q b':' [] t, ungetc q t.0 fits, lt→ltb 0 (length buf) p) refl
  stop_colon k q buf true t p fits =
      rw (getc q b':' [] t, ungetc q t.0 fits, lt→ltb 0 (length buf) p) refl

  stop_e :
      (k q : ℕ) (buf : List ℕ)
      → Text q (b'e' ∷ [])
      → 0 < length buf
      → b.len < 2 ^ 64
      → lex_loop (suc k) buf (lexer q (pos 0) false false false)
        ≡ ok (text buf, lexer q (pos 0) false true false)
  unfolding lex_loop
  stop_e k q buf t p fits = rw (getc q b'e' [] t, ungetc q t.0 fits, lt→ltb 0 (length buf) p) refl

  -- The fuel of a call is enough for a text that is there.
  fuel_left :
      (q : ℕ) (w : List ℕ) (c : ℕ)
      → Text q (w ++ c ∷ [])
      → (k : ℕ) × (suc (b.len - q) ≡ length w + suc (suc k))
  fuel_left q w c t = (
    b.len - q - length w - 1,
    omega (
      arith,
      Text-bound q (w ++ c ∷ []) (omega (arith, length-append w (c ∷ []))) t,
      length-append w (c ∷ []),
    ),
  )

  pub yylex-numeral :
      (q : ℕ) (w : List ℕ) (flag : Bool)
      → All Plain w
      → 0 < length w
      → Text q (w ++ b':' ∷ [])
      → b.len < 2 ^ 64
      → yylex (lexer q (pos 0) flag false false)
        ≡ ok (text w, lexer (q + length w) (pos 0) flag true false)
  unfolding yylex
  yylex-numeral q w flag h p t fits =
      let (k, e) = fuel_left q w b':' t in
      let (tw, tc) = Text-split q w (b':' ∷ []) t in
      added_rounds (suc (b.len - q)) (suc (suc k)) q [] w flag h tw e
      ∙ stop_colon (suc k) (q + length w) w flag tc p fits

  pub yylex-number :
      (q : ℕ) (w : List ℕ)
      → All Plain w
      → 0 < length w
      → Text q (w ++ b'e' ∷ [])
      → b.len < 2 ^ 64
      → yylex (clean q) ≡ ok (text w, lexer (q + length w) (pos 0) false true false)
  unfolding yylex
  yylex-number q w h p t fits =
      let (k, e) = fuel_left q w b'e' t in
      let (tw, tc) = Text-split q w (b'e' ∷ []) t in
      added_rounds (suc (b.len - q)) (suc (suc k)) q [] w false h tw e
      ∙ stop_e (suc k) (q + length w) w tc p fits

  -- The tokens of one character.
  pub yylex-colon :
      (q : ℕ) (n : ℤ)
      → Text q (b':' ∷ [])
      → yylex (lexer q n true true false) ≡ ok (colon, lexer (q + 1) n true false true)
  unfolding yylex lex_loop
  yylex-colon q (pos zero) t = rw (getc q b':' [] t) refl
  yylex-colon q (pos (suc n)) t =
      let some_left : (suc n == 0) ≡ false = ground arith in rw (getc q b':' [] t, some_left) refl
  yylex-colon q (ℤ.negsuc n) t = rw (getc q b':' [] t) refl

  pub yylex-end :
      (q : ℕ) (done : Bool)
      → Text q (b'e' ∷ [])
      → yylex (lexer q (pos 0) false done false) ≡ ok (end (q + 1), clean (q + 1))
  unfolding yylex lex_loop buf_pos
  yylex-end q false t = rw (getc q b'e' [] t) refl
  yylex-end q true t = rw (getc q b'e' [] t) refl

  pub yylex-int_start :
      (q : ℕ) → Text q (b'i' ∷ []) → yylex (clean q) ≡ ok (int_start, clean (q + 1))
  unfolding yylex lex_loop
  yylex-int_start q t = rw (getc q b'i' [] t) refl

  pub yylex-list_start :
      (q : ℕ) → Text q (b'l' ∷ []) → yylex (clean q) ≡ ok (list_start, clean (q + 1))
  unfolding yylex lex_loop
  yylex-list_start q t = rw (getc q b'l' [] t) refl

  pub yylex-dict_start :
      (q : ℕ) → Text q (b'd' ∷ []) → yylex (clean q) ≡ ok (dict_start, clean (q + 1))
  unfolding yylex lex_loop
  yylex-dict_start q t = rw (getc q b'd' [] t) refl

  pub yylex-eof : (q : ℕ) → b.len ≤ q → yylex (clean q) ≡ ok (eof, clean q)
  unfolding yylex lex_loop
  yylex-eof q h = rw (getc_end q h) refl

  is_ignored_all : (c q : ℕ) (n : ℤ) → is_ignored c (lexer q n true false true) ≡ true
  is_ignored_all c q n = elim (Bool-cases (c == b':')) [ inl e ↦ rw e refl | inr e ↦ rw e refl ]

  string_round :
      (fuel q n c : ℕ) (buf s : List ℕ)
      → Text q (c ∷ s)
      → 0 < n
      → lex_loop (suc fuel) buf (lexer q (pos n) true false true)
        ≡ skip (lex_loop fuel) (buf ++ c ∷ []) (lexer (q + 1) (pos n) true false true)
  unfolding lex_loop
  string_round fuel q n c buf s t p =
      let some_left : (n == 0) ≡ false = ground arith in
      rw (getc q c s t, some_left, is_ignored_all c (q + 1) (pos n)) refl

  -- The characters of a string, whatever they are.
  string_rounds :
      (fuel q n c : ℕ) (buf s : List ℕ)
      → Text q (c ∷ s)
      → n ≡ length buf + length (c ∷ s)
      → length s < fuel
      → lex_loop fuel buf (lexer q (pos n) true false true)
        ≡ ok (text (buf ++ c ∷ s), clean (q + length (c ∷ s)))
  string_rounds zero q n c buf s t e f = absurd (omega arith)
  string_rounds (suc fuel) q n c buf [] t e f =
      let whole : (n == length (buf ++ c ∷ [])) ≡ true =
        ground (arith, length-append buf (c ∷ [])) in
      string_round fuel q n c buf [] t (omega arith) ∙ rw whole refl
  string_rounds (suc fuel) q n c buf (d ∷ s) t e f =
      let not_yet : (n == length (buf ++ c ∷ [])) ≡ false =
        ground (arith, length-append buf (c ∷ [])) in
      let there : q + suc (length (d ∷ s)) ≡ q + 1 + length (d ∷ s) = omega arith in
      string_round fuel q n c buf (d ∷ s) t (omega arith)
      ∙ rw not_yet (
          string_rounds fuel (q + 1) n d (buf ++ c ∷ []) s t.2
            (omega (arith, length-append buf (c ∷ []))) (omega arith)
          ∙ rw (append_assoc buf (c ∷ []) (d ∷ s), there) refl)

  pub yylex-string :
      (q : ℕ) (s : List ℕ)
      → Text q s
      → yylex (lexer q (pos (length s)) true false true) ≡ ok (text s, clean (q + length s))
  unfolding yylex lex_loop
  yylex-string q [] t = let here : q + 0 ≡ q = omega arith in rw here refl
  yylex-string q (c ∷ s) t =
      string_rounds (suc (b.len - q)) q (length (c ∷ s)) c [] s t (omega arith)
        (omega (arith, Text-bound q (c ∷ s) (omega arith) t))
