-- ===== src/Bencode/Total/Rules.antt =====
-- The rules of the grammar end on every input, within their fuel, and leave the stack as high as it was.
use unworkable.Common.{ℕ, zero, suc, ◌+◌, ◌*◌, ◌≤◌, ◌<◌, List, Option, arith}
use unworkable.Common.Int.{ℤ}
use unworkable.Bencode.{blist, bdict, empty}
use unworkable.Bencode.Lexer.{Token, colon, int_start, dict_start, list_start, eof, end, text}
use unworkable.Bencode.Parser.{
  Parser, token, stack_push, stack_pop, add_to_top, bstrflag, bstring_rule, value_rule, blist_rule,
  blist_entries, blist_next, bdict_entry_rule, bdict_rule, bdict_entries, bdict_next,
}
use unworkable.Bencode.Total.Steps.{
  rest, Ends, Ends-bind, IsBelow, Taken, Below, token_lem, lower, bstrflag_lem, push_lem,
  popped_lem,
}
use unworkable.Bencode.Total.Leaves.{bstring_rule_lem, bint_rule_lem, blist_more, bdict_more}

module _ (strtonum : List ℕ → Option ℤ) where
  mutual
    unfolding value_rule blist_rule stack_pop add_to_top

    -- A value, from its token on: something is taken from the input, and the stack is as high as before.
    pub value_lem :
        (fuel n height : ℕ) (t : Token) (p : Parser)
        → Taken n height t p
        → 4 * n + 1 ≤ fuel
        → Ends (Below n height) (value_rule strtonum fuel t p)
    value_lem zero n height t p h f = absurd (omega arith)
    value_lem (suc fuel) n height (text s) p h f =
        Ends-bind (Below n height) (Below n height) (bstring_rule strtonum (text s) p) _
          (bstring_rule_lem strtonum n height (text s) p h.0) λ _ p₁ h₁. h₁
    value_lem (suc fuel) n height int_start p h f = bint_rule_lem strtonum n height p h.0
    value_lem (suc fuel) n height list_start p h f =
        blist_lem fuel n height p (lower n height p h.0 (h.1 tt)) (omega arith)
    value_lem (suc fuel) n height dict_start p h f =
        bdict_lem fuel n height p (lower n height p h.0 (h.1 tt)) (omega arith)
    value_lem (suc fuel) n height colon p h f = tt
    value_lem (suc fuel) n height (end len) p h f = tt
    value_lem (suc fuel) n height eof p h f = tt

    blist_lem :
        (fuel n height : ℕ) (p : Parser)
        → IsBelow n height p
        → 4 * n ≤ fuel
        → Ends (Below n height) (blist_rule strtonum fuel p)
    blist_lem zero n height p h f = absurd (omega (arith, h.less))
    blist_lem (suc fuel) n height p h f =
        Ends-bind (Below n (suc height)) (Below n height) (stack_push (blist empty) p) _
          (push_lem n height (blist empty) p h)
          λ _ p₁ h₁.
            Ends-bind (Taken (rest p₁) (suc height)) (Below n height) (token p₁) _
              (token_lem n (suc height) p₁ h₁)
              λ t p₂ h₂.
                Ends-bind (Below (rest p₁) (suc height)) (Below n height)
                  (value_rule strtonum fuel t p₂) _
                  (value_lem fuel (rest p₁) (suc height) t p₂ h₂ (omega (arith, h₁.less)))
                  λ first p₃ h₃.
                    Ends-bind (Below (rest p₁) (suc height)) (Below n height)
                      (blist_entries strtonum fuel p₃) _
                      (blist_entries_lem fuel (rest p₁) height p₃ h₃ (omega (arith, h₁.less)))
                      λ _ p₄ h₄.
                        Ends-bind (Below n height) (Below n height) (stack_pop p₄) _
                          (popped_lem n height p₄ p₄.stack h₄.inside
                            (omega (arith, h₄.less, h₁.less)) h₄.high)
                          λ x p₅ h₅. h₅

    blist_entries_lem :
        (fuel n height : ℕ) (p : Parser)
        → IsBelow n (suc height) p
        → 4 * n ≤ fuel + 1
        → Ends (Below n (suc height)) (blist_entries strtonum fuel p)
    blist_entries_lem zero n height p h f = absurd (omega (arith, h.less))
    blist_entries_lem (suc fuel) n height p h f =
        Ends-bind (Taken (rest p) (suc height)) (Below n (suc height)) (token p) _
          (token_lem n (suc height) p h)
          λ t p₁ h₁. blist_next_lem fuel n height (rest p) t p₁ h₁ h.less (omega (arith, h.less))

    blist_next_lem :
        (fuel n height m : ℕ) (t : Token) (p : Parser)
        → Taken m (suc height) t p
        → m < n
        → 4 * m + 2 ≤ fuel
        → Ends (Below n (suc height)) (blist_next strtonum fuel t p)
    blist_next_lem zero n height m t p h l f = absurd (omega arith)
    blist_next_lem (suc fuel) n height m (end len) p h l f =
        lower n (suc height) p h.0 (omega (arith, h.1 tt))
    blist_next_lem (suc fuel) n height m (text s) p h l f =
        blist_more strtonum fuel n height m (text s) p l
          (value_lem fuel m (suc height) (text s) p h (omega arith))
          λ p' h'. blist_entries_lem fuel m height p' h' (omega arith)
    blist_next_lem (suc fuel) n height m int_start p h l f =
        blist_more strtonum fuel n height m int_start p l
          (value_lem fuel m (suc height) int_start p h (omega arith))
          λ p' h'. blist_entries_lem fuel m height p' h' (omega arith)
    blist_next_lem (suc fuel) n height m dict_start p h l f =
        blist_more strtonum fuel n height m dict_start p l
          (value_lem fuel m (suc height) dict_start p h (omega arith))
          λ p' h'. blist_entries_lem fuel m height p' h' (omega arith)
    blist_next_lem (suc fuel) n height m list_start p h l f =
        blist_more strtonum fuel n height m list_start p l
          (value_lem fuel m (suc height) list_start p h (omega arith))
          λ p' h'. blist_entries_lem fuel m height p' h' (omega arith)
    blist_next_lem (suc fuel) n height m colon p h l f =
        blist_more strtonum fuel n height m colon p l
          (value_lem fuel m (suc height) colon p h (omega arith))
          λ p' h'. blist_entries_lem fuel m height p' h' (omega arith)
    blist_next_lem (suc fuel) n height m eof p h l f =
        blist_more strtonum fuel n height m eof p l
          (value_lem fuel m (suc height) eof p h (omega arith))
          λ p' h'. blist_entries_lem fuel m height p' h' (omega arith)

    bdict_entry_lem :
        (fuel m height : ℕ) (t : Token) (p : Parser)
        → IsBelow (m + 1) height p
        → 4 * m + 1 ≤ fuel
        → Ends (Below m height) (bdict_entry_rule strtonum fuel t p)
    bdict_entry_lem zero m height t p h f = absurd (omega arith)
    bdict_entry_lem (suc fuel) m height t p h f =
        Ends-bind (Below m height) (Below m height) (bstring_rule strtonum t p) _
          (bstring_rule_lem strtonum m height t p h)
          λ key p₁ h₁.
            Ends-bind (Taken (rest p₁) height) (Below m height) (token p₁) _
              (token_lem m height p₁ h₁)
              λ t' p₂ h₂.
                Ends-bind (Below (rest p₁) height) (Below m height) (value_rule strtonum fuel t' p₂)
                  _ (value_lem fuel (rest p₁) height t' p₂ h₂ (omega (arith, h₁.less)))
                  λ value p₃ h₃. lower m height p₃ h₃ (omega (arith, h₃.less, h₁.less))

    bdict_lem :
        (fuel n height : ℕ) (p : Parser)
        → IsBelow n height p
        → 4 * n ≤ fuel
        → Ends (Below n height) (bdict_rule strtonum fuel p)
    bdict_lem zero n height p h f = absurd (omega (arith, h.less))
    bdict_lem (suc fuel) n height p h f =
        Ends-bind (Below n (suc height)) (Below n height) (stack_push (bdict 0 empty) p) _
          (push_lem n height (bdict 0 empty) p h)
          λ _ p₀ h₀.
            Ends-bind (Below n (suc height)) (Below n height) (bstrflag p₀) _
              (bstrflag_lem n (suc height) p₀ h₀)
              λ _ p₁ h₁.
                Ends-bind (Taken (rest p₁) (suc height)) (Below n height) (token p₁) _
                  (token_lem n (suc height) p₁ h₁)
                  λ t p₂ h₂.
                    Ends-bind (Below (rest p₁) (suc height)) (Below n height)
                      (bdict_entry_rule strtonum fuel t p₂) _
                      (bdict_entry_lem fuel (rest p₁) (suc height) t p₂ h₂.0
                        (omega (arith, h₁.less)))
                      λ first p₃ h₃.
                        Ends-bind (Below (rest p₁) (suc height)) (Below n height)
                          (bdict_entries strtonum fuel p₃) _
                          (bdict_entries_lem fuel (rest p₁) height p₃ h₃ (omega (arith, h₁.less)))
                          λ len p₄ h₄.
                            Ends-bind (Below n height) (Below n height) (stack_pop p₄) _
                              (popped_lem n height p₄ p₄.stack h₄.inside
                                (omega (arith, h₄.less, h₁.less)) h₄.high)
                              λ x p₅ h₅. h₅

    bdict_entries_lem :
        (fuel n height : ℕ) (p : Parser)
        → IsBelow n (suc height) p
        → 4 * n ≤ fuel + 1
        → Ends (Below n (suc height)) (bdict_entries strtonum fuel p)
    bdict_entries_lem zero n height p h f = absurd (omega (arith, h.less))
    bdict_entries_lem (suc fuel) n height p h f =
        Ends-bind (Taken (rest p) (suc height)) (Below n (suc height)) (token p) _
          (token_lem n (suc height) p h)
          λ t p₁ h₁. bdict_next_lem fuel n height (rest p) t p₁ h₁ h.less (omega (arith, h.less))

    bdict_next_lem :
        (fuel n height m : ℕ) (t : Token) (p : Parser)
        → Taken m (suc height) t p
        → m < n
        → 4 * m + 2 ≤ fuel
        → Ends (Below n (suc height)) (bdict_next strtonum fuel t p)
    bdict_next_lem zero n height m t p h l f = absurd (omega arith)
    bdict_next_lem (suc fuel) n height m (end len) p h l f =
        lower n (suc height) p h.0 (omega (arith, h.1 tt))
    bdict_next_lem (suc fuel) n height m (text s) p h l f =
        bdict_more strtonum fuel n height m (text s) p l
          (bdict_entry_lem fuel m (suc height) (text s) p h.0 (omega arith))
          λ p' h'. bdict_entries_lem fuel m height p' h' (omega arith)
    bdict_next_lem (suc fuel) n height m int_start p h l f =
        bdict_more strtonum fuel n height m int_start p l
          (bdict_entry_lem fuel m (suc height) int_start p h.0 (omega arith))
          λ p' h'. bdict_entries_lem fuel m height p' h' (omega arith)
    bdict_next_lem (suc fuel) n height m dict_start p h l f =
        bdict_more strtonum fuel n height m dict_start p l
          (bdict_entry_lem fuel m (suc height) dict_start p h.0 (omega arith))
          λ p' h'. bdict_entries_lem fuel m height p' h' (omega arith)
    bdict_next_lem (suc fuel) n height m list_start p h l f =
        bdict_more strtonum fuel n height m list_start p l
          (bdict_entry_lem fuel m (suc height) list_start p h.0 (omega arith))
          λ p' h'. bdict_entries_lem fuel m height p' h' (omega arith)
    bdict_next_lem (suc fuel) n height m colon p h l f =
        bdict_more strtonum fuel n height m colon p l
          (bdict_entry_lem fuel m (suc height) colon p h.0 (omega arith))
          λ p' h'. bdict_entries_lem fuel m height p' h' (omega arith)
    bdict_next_lem (suc fuel) n height m eof p h l f =
        bdict_more strtonum fuel n height m eof p l
          (bdict_entry_lem fuel m (suc height) eof p h.0 (omega arith))
          λ p' h'. bdict_entries_lem fuel m height p' h' (omega arith)
