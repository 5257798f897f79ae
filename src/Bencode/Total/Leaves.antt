-- ===== src/Bencode/Total/Leaves.antt =====
-- The rules that call no rule but those of strings and numbers, and the elements behind the first one.
use unworkable.Common.{ℕ, suc, ◌+◌, ◌<◌, List, Option, none, some, arith, Bool-cases, inl, inr}
use unworkable.Common.Int.{ℤ}
use unworkable.Bencode.{c_string}
use unworkable.Bencode.Lexer.{Token}
use unworkable.Bencode.Parser.{
  Parser, ◌>>=◌, ◌>>◌, token, add_to_top, bstrflag, is_colon, is_end, is_text, numbered, number,
  bstring_rule, bint_rule, value_rule, blist_entries, bdict_entry_rule, bdict_entries,
}
use unworkable.Bencode.Total.Steps.{
  rest, Ends, Ends-bind, IsBelow, Taken, Below, token_lem, lower, bstrflag_lem, added_lem, text_lem,
  colon_lem, end_lem, Ends-weaken,
}

module _ (strtonum : List ℕ → Option ℤ) where
  pub numbered_lem :
      (n height : ℕ) (o : Option ℤ) (p : Parser)
      → IsBelow n height p
      → Ends (Below n height) (numbered strtonum o p)
  numbered_lem n height none p h = tt
  numbered_lem n height (some lval) p h = elim (Bool-cases p.lexer.bstrflag) [
    | inl flag ↦ rw flag (record { inside = h.inside; less = h.less; high = h.high })
    | inr flag ↦ rw flag (record { inside = h.inside; less = h.less; high = h.high })
  ]

  pub number_lem :
      (n height : ℕ) (t : Token) (p : Parser)
      → IsBelow n height p
      → Ends (Below n height) (number strtonum t p)
  unfolding number
  number_lem n height t p h =
      Ends-bind (Below n height) (Below n height) (is_text t p) _ (text_lem n height t p h)
        λ s p' h'. numbered_lem n height (strtonum (c_string s)) p' h'

  -- A string is read behind its length: the `:` is taken from the input.
  pub bstring_rule_lem :
      (n height : ℕ) (t : Token) (p : Parser)
      → IsBelow (n + 1) height p
      → Ends (Below n height) (bstring_rule strtonum t p)
  unfolding bstring_rule
  bstring_rule_lem n height t p h =
      Ends-bind (Below (n + 1) height) (Below n height) (bstrflag p) _
        (bstrflag_lem (n + 1) height p h)
        λ _ p₁ h₁.
          Ends-bind (Below (n + 1) height) (Below n height) (number strtonum t p₁) _
            (number_lem (n + 1) height t p₁ h₁)
            λ len p₂ h₂.
              Ends-bind (Taken (rest p₂) height) (Below n height) (token p₂) _
                (token_lem (n + 1) height p₂ h₂)
                λ c p₃ h₃.
                  Ends-bind (Below (rest p₂) height) (Below n height) (is_colon c p₃) _
                    (colon_lem (rest p₂) height c p₃ h₃)
                    λ _ p₄ h₄.
                      Ends-bind (Taken (rest p₄) height) (Below n height) (token p₄) _
                        (token_lem (rest p₂) height p₄ h₄)
                        λ s p₅ h₅.
                          Ends-bind (Below n height) (Below n height) (is_text s p₅) _
                            (text_lem n height s p₅
                              (lower n height p₅ h₅.0 (omega (arith, h₅.0.less, h₄.less, h₂.less))))
                            λ value p₆ h₆. h₆

  pub bint_rule_lem :
      (n height : ℕ) (p : Parser)
      → IsBelow (n + 1) height p
      → Ends (Below n height) (bint_rule strtonum p)
  unfolding bint_rule
  bint_rule_lem n height p h =
      Ends-bind (Taken (rest p) height) (Below n height) (token p) _ (token_lem (n + 1) height p h)
        λ t p₁ h₁.
          Ends-bind (Below (rest p + 1) height) (Below n height) (number strtonum t p₁) _
            (number_lem (rest p + 1) height t p₁ h₁.0)
            λ value p₂ h₂.
              Ends-bind (Taken (rest p₂) height) (Below n height) (token p₂) _
                (token_lem (rest p + 1) height p₂ h₂)
                λ e p₃ h₃.
                  Ends-bind (Below (rest p₂) height) (Below n height) (is_end e p₃) _
                    (end_lem (rest p₂) height e p₃ h₃)
                    λ _ p₄ h₄. lower n height p₄ h₄ (omega (arith, h₄.less, h₂.less, h.less))

  -- An element behind the first, and those behind it.
  pub blist_more :
      (fuel n height m : ℕ) (t : Token) (p : Parser)
      → m < n
      → Ends (Below m (suc height)) (value_rule strtonum fuel t p)
      → ((p' : Parser)
          → IsBelow m (suc height) p'
          → Ends (Below m (suc height)) (blist_entries strtonum fuel p'))
      → Ends
          (Below n (suc height))
          ((value_rule strtonum fuel t >>= λ x. add_to_top x >> blist_entries strtonum fuel) p)
  unfolding add_to_top
  blist_more fuel n height m t p l v k =
      Ends-bind (Below m (suc height)) (Below n (suc height)) (value_rule strtonum fuel t p) _ v
        λ x p₁ h₁.
          Ends-bind (Below m (suc height)) (Below n (suc height)) (add_to_top x p₁) _
            (added_lem m height p₁ p₁.stack x h₁.inside h₁.less h₁.high)
            λ _ p₂ h₂. Ends-weaken m n (suc height) (blist_entries strtonum fuel p₂) l (k p₂ h₂)

  pub bdict_more :
      (fuel n height m : ℕ) (t : Token) (p : Parser)
      → m < n
      → Ends (Below m (suc height)) (bdict_entry_rule strtonum fuel t p)
      → ((p' : Parser)
          → IsBelow m (suc height) p'
          → Ends (Below m (suc height)) (bdict_entries strtonum fuel p'))
      → Ends (Below n (suc height)) (
          (bdict_entry_rule strtonum fuel t >>= λ x. add_to_top x >> bdict_entries strtonum fuel) p)
  unfolding add_to_top
  bdict_more fuel n height m t p l v k =
      Ends-bind (Below m (suc height)) (Below n (suc height)) (bdict_entry_rule strtonum fuel t p) _
        v
        λ x p₁ h₁.
          Ends-bind (Below m (suc height)) (Below n (suc height)) (add_to_top x p₁) _
            (added_lem m height p₁ p₁.stack x h₁.inside h₁.less h₁.high)
            λ _ p₂ h₂. Ends-weaken m n (suc height) (bdict_entries strtonum fuel p₂) l (k p₂ h₂)
