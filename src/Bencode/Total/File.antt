-- ===== src/Bencode/Total/File.antt =====
-- benc_parse_buf ends on every file.
use unworkable.Common.{
  ℕ, zero, suc, ◌+◌, ◌*◌, ◌^◌, ◌≤◌, ◌<◌, ◌≡◌, refl, ◌⊎◌, inl, inr, Bool, List, [], ◌∷◌, Option,
  none, some, Outcome, ok, die, fault, length, arith, All, ap,
}
use unworkable.Common.Int.{ℤ}
use unworkable.Common.Slices.{flatten}
use unworkable.Buf.{Buf, buf_load}
use unworkable.Buf.Contents.{filled, buf_load-filled}
use unworkable.Bencode.{Node, node_add}
use unworkable.Bencode.Lexer.{Token, colon, int_start, dict_start, list_start, eof, end, text}
use unworkable.Bencode.Parser.{
  Parser, ◌>>=◌, token, value_rule, bencode, bencode_next, benc_parse_buf,
}
use unworkable.Bencode.Total.Steps.{rest, Ends, Ends-bind, IsBelow, Taken, Below, token_lem, lower}
use unworkable.Bencode.Total.Rules.{value_lem}

module _ (strtonum : List ℕ → Option ℤ) where
  value_more :
      (fuel n m : ℕ) (root : Node) (t : Token) (p : Parser)
      → m < n
      → Ends (Below m 0) (value_rule strtonum fuel t p)
      → ((root' : Node) (p' : Parser)
          → IsBelow m 0 p'
          → Ends (Below n 0) (bencode strtonum fuel root' p'))
      → Ends
          (Below n 0)
          ((value_rule strtonum fuel t >>= λ x. bencode strtonum fuel (node_add root x)) p)
  value_more fuel n m root t p l v k =
      Ends-bind (Below m 0) (Below n 0) (value_rule strtonum fuel t p) _ v
        λ x p' h. k (node_add root x) p' h

  mutual
    unfolding bencode

    bencode_lem :
        (fuel n k : ℕ) (root : Node) (p : Parser)
        → IsBelow k 0 p
        → k ≤ n
        → 4 * k ≤ fuel + 1
        → Ends (Below n 0) (bencode strtonum fuel root p)
    bencode_lem zero n k root p h l f = absurd (omega (arith, h.less))
    bencode_lem (suc fuel) n k root p h l f =
        Ends-bind (Taken (rest p) 0) (Below n 0) (token p) _ (token_lem k 0 p h) λ t p' h'.
          bencode_next_lem fuel n (rest p) root t p' h' (omega (arith, h.less))
            (omega (arith, h.less))

    bencode_next_lem :
        (fuel n m : ℕ) (root : Node) (t : Token) (p : Parser)
        → Taken m 0 t p
        → m < n
        → 4 * m + 2 ≤ fuel
        → Ends (Below n 0) (bencode_next strtonum fuel root t p)
    bencode_next_lem zero n m root t p h l f = absurd (omega arith)
    bencode_next_lem (suc fuel) n m root eof p h l f = lower n 0 p h.0 (omega (arith, h.0.less))
    bencode_next_lem (suc fuel) n m root (text s) p h l f =
        value_more fuel n m root (text s) p l
          (value_lem strtonum fuel m 0 (text s) p h (omega arith))
          λ root' p' h'. bencode_lem fuel n m root' p' h' (omega arith) (omega arith)
    bencode_next_lem (suc fuel) n m root int_start p h l f =
        value_more fuel n m root int_start p l
          (value_lem strtonum fuel m 0 int_start p h (omega arith))
          λ root' p' h'. bencode_lem fuel n m root' p' h' (omega arith) (omega arith)
    bencode_next_lem (suc fuel) n m root dict_start p h l f =
        value_more fuel n m root dict_start p l
          (value_lem strtonum fuel m 0 dict_start p h (omega arith))
          λ root' p' h'. bencode_lem fuel n m root' p' h' (omega arith) (omega arith)
    bencode_next_lem (suc fuel) n m root list_start p h l f =
        value_more fuel n m root list_start p l
          (value_lem strtonum fuel m 0 list_start p h (omega arith))
          λ root' p' h'. bencode_lem fuel n m root' p' h' (omega arith) (omega arith)
    bencode_next_lem (suc fuel) n m root colon p h l f =
        value_more fuel n m root colon p l (value_lem strtonum fuel m 0 colon p h (omega arith))
          λ root' p' h'. bencode_lem fuel n m root' p' h' (omega arith) (omega arith)
    bencode_next_lem (suc fuel) n m root (end len) p h l f =
        value_more fuel n m root (end len) p l
          (value_lem strtonum fuel m 0 (end len) p h (omega arith))
          λ root' p' h'. bencode_lem fuel n m root' p' h' (omega arith) (omega arith)

empty_of : {A : Type 0} (xs : List A) → length xs ≡ 0 → xs ≡ []
empty_of [] h = refl
empty_of (x ∷ xs) h = absurd (omega arith)

-- The three ways in which a call can come to its end.
abbrev pub Outcomes : Outcome (Option (Node × Parser)) → Type 0
Outcomes r =
    ((troot : Node) × (p : Parser) × (r ≡ ok (some (troot, p))) × (p.stack ≡ []))
    ⊎ ((r ≡ ok none) ⊎ (r ≡ die))

Outcomes-of : (n : ℕ) (r : Outcome (Option (Node × Parser))) → Ends (Below n 0) r → Outcomes r
Outcomes-of n (ok (some (troot, p))) h = inl (troot, p, refl, empty_of p.stack h.high)
Outcomes-of n (ok none) h = inr (inl refl)
Outcomes-of n die h = inr (inr refl)
Outcomes-of n fault h = absurd h

-- Whatever bytes a file has, it is loaded and its parse comes to an end, if the parser's stack is empty at first: with
-- a tree, and the stack empty again, with the return value of a parse that has failed, or with the end of the process;
-- no byte is read out of bounds, no node is taken from an empty stack, and the fuel is enough.
pub benc_parse_buf-Outcomes :
    (strtonum : List ℕ → Option ℤ) (reads : List (List ℕ)) (flags : Bool) (root : Node) (p : Parser)
    → All (λ r. 0 < length r) reads
    → length (flatten reads) < 2 ^ 64
    → p.stack ≡ []
    → (b : Buf) × (buf_load (length (flatten reads)) reads flags ≡ ok b)
      × Outcomes (benc_parse_buf strtonum b root p)
unfolding benc_parse_buf
benc_parse_buf-Outcomes strtonum reads flags root p some_read fits h =
    let b = filled flags (flatten reads) in
    let start : Parser = record p { lexer = record (p.lexer) { input = b } } in
    let below : IsBelow (b.len + 1) 0 start = record {
      inside = record { memory = omega arith; position = omega arith; room = fits };
      less = omega arith;
      high = ap length h;
    } in
    (
      b,
      buf_load-filled reads flags some_read fits,
      Outcomes-of (b.len + 1) (benc_parse_buf strtonum b root p) (
          bencode_lem strtonum (4 * b.len + 8) (b.len + 1) (b.len + 1) root start below
            (omega arith) (omega arith)),
    )
