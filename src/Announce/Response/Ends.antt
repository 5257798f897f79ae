-- ===== src/Announce/Response/Ends.antt =====
-- What an answer leaves behind, whatever the tracker has sent.
use unworkable.Common.{
  ℕ, ◌+◌, ◌≡◌, refl, Bool, true, false, List, [], ◌∷◌, Option, some, none, Outcome, ok, die, fault,
  ◌==◌, length, ◌>>=◌, arith, Bool-cases, inl, inr, ◌⊎◌,
}
use mathlib.Core.Path.{subst}
use unworkable.Common.Int.{ℤ}
use unworkable.Index.{RbTree}
use unworkable.Session.{Session}
use unworkable.Announce.{HttpResponse, Client}
use unworkable.Announce.Response.{
  read_all, http_content, handle_content, handle_answer, gathered, handle_announce_error,
}

-- No answer is awaited, and what was kept of one is gone but where nothing had been sent.
abbrev pub IsOver : {rb : RbTree} → Client rb → Type 0
IsOver c =
    (c.session.announce_underway ≡ false)
    × ((c.tracker.res ≡ none) ⊎ ((r : HttpResponse) × (c.tracker.res ≡ some r) × (r.rxmsg ≡ [])))

bind-last :
    {A B : Type 0} {Q : Type 0} (m : Outcome A) (k : A → Outcome B) {b : B}
    → ((a : A) → m ≡ ok a → k a ≡ ok b → Q)
    → (m >>= k) ≡ ok b
    → Q
bind-last (ok a) k h run = h a refl run
bind-last die k h run = absurd (cc)
bind-last fault k h run = absurd (cc)

ok-inj : {A : Type 0} {a b : A} → ok a ≡ ok b → a ≡ b
ok-inj e = cc

ok-die : {A : Type 0} {a : A} → ◌≡◌ {A = Outcome A} die (ok a) → ⊥
ok-die e = absurd (cc)

nothing : (s : List ℕ) → (length s == 0) ≡ true → s ≡ []
nothing [] e = refl
nothing (x ∷ s) e = absurd (ground arith)

module _ (listen : List ℕ → Option ℕ) {rb : RbTree} (connect : Session rb → ℕ → Option ℕ)
    (decimal : ℤ → List ℕ) (getaddrinfo : List ℕ → List ℕ → Option (List ℕ × List ℕ))
    (strtonum : List ℕ → Option ℤ) (fresh : ℕ → List ℕ) where
  handle_answer-IsOver :
      (is_timeout : Bool) (r : HttpResponse) (c c' : Client rb)
      → handle_answer listen connect decimal getaddrinfo strtonum fresh is_timeout r c ≡ ok c'
      → IsOver c'
  handle_answer-IsOver is_timeout r c c' run = elim (Bool-cases (length r.rxmsg == 0)) [
    | inl e ↦
        let run' = rw e at run in
        subst IsOver (ok-inj run') (refl, inr (r, refl, nothing r.rxmsg e))
    | inr e ↦ elim (Bool-cases is_timeout) [
      | inl t ↦ absurd (ok-die (rw (e, t) at run))
      | inr t ↦
          bind-last (http_content r.rxmsg) _
            (λ content _ rest.
              bind-last (handle_content listen connect decimal getaddrinfo strtonum fresh content c)
                _ (λ c₁ _ last. subst IsOver (ok-inj last) (refl, inl refl)) rest)
            (rw (e, t) at run)
    ]
  ]

  gathered-IsOver :
      (is_timeout : Bool) (input : List ℕ) (o : Option HttpResponse) (c c' : Client rb)
      → c.tracker.res ≡ o
      → gathered listen connect decimal getaddrinfo strtonum fresh is_timeout input o c ≡ ok c'
      → IsOver c'
  gathered-IsOver is_timeout input none c c' e run = subst IsOver (ok-inj run) (refl, inl e)
  gathered-IsOver is_timeout input (some r) c c' e run =
      bind-last (read_all (length input + 1) input r) _
        (λ r' _ rest. handle_answer-IsOver is_timeout r' c c' rest) run

-- However the connection to the tracker ends and whatever has come over it, where the handler returns, no announcement is
-- underway any more, so that the next one can be made, and no response is kept but one of which nothing had been
-- read.
pub handle_announce_error-IsOver :
    (listen : List ℕ → Option ℕ) {rb : RbTree} (connect : Session rb → ℕ → Option ℕ)
    (decimal : ℤ → List ℕ) (getaddrinfo : List ℕ → List ℕ → Option (List ℕ × List ℕ))
    (strtonum : List ℕ → Option ℤ) (fresh : ℕ → List ℕ) (is_timeout : Bool) (input : List ℕ)
    (c c' : Client rb)
    → handle_announce_error listen connect decimal getaddrinfo strtonum fresh is_timeout input c
      ≡ ok c'
    → IsOver c'
unfolding handle_announce_error
handle_announce_error-IsOver listen connect decimal getaddrinfo strtonum fresh is_timeout input c c'
      run =
    gathered-IsOver listen connect decimal getaddrinfo strtonum fresh is_timeout input c.tracker.res
      c c' refl run
