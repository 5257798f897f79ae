-- ===== src/Session/Store.antt =====
-- Procedures on the session of network.c and scheduler.c, and its stores.
use unworkable.Common.{
  ℕ, ◌≡◌, refl, List, [], ◌∷◌, Option, none, some, Bool, false, Outcome, ok, die, fault, ◌==◌,
  if◌then◌else◌, arith, ◌||◌,
}
use unworkable.Index.{RbTree}
use unworkable.Torrent.{Torrent}
use unworkable.Session.{Session, Proc, Peer, PieceDl}

-- A store with one address changed.
abbrev pub update {ℓ} : {A : Type ℓ} → (ℕ → Option A) → ℕ → Option A → ℕ → Option A
update f p v q = if q == p then v else f q

module _ {rb : RbTree} {A B : Type 0} where
  infixl 5 ◌>>=◌
  abbrev pub ◌>>=◌ : Proc rb A → (A → Proc rb B) → Proc rb B
  ◌>>=◌ m f s = elim (m s) [ ok (a, s') ↦ f a s' | die ↦ die | fault ↦ fault ]

module _ {rb : RbTree} {B : Type 0} where
  infixl 5 ◌>>◌
  abbrev pub ◌>>◌ : Proc rb (Unit {0}) → Proc rb B → Proc rb B
  m >> k = m >>= λ _. k

module _ {rb : RbTree} where
  abbrev pub pure : {A : Type 0} → A → Proc rb A
  pure a s = ok (a, s)

  -- A computation on values, which may stop the process or be a fault.
  abbrev pub lift : {A : Type 0} → Outcome A → Proc rb A
  lift m s = elim m [ ok a ↦ ok (a, s) | die ↦ die | fault ↦ fault ]

  -- `*p` for a peer and for a piece download: a fault at an address that is not allocated.
  abbrev pub get_peer : ℕ → Proc rb Peer
  get_peer p s = elim (s.peer p) [ none ↦ fault | some v ↦ ok (v, s) ]

  abbrev pub get_dl : ℕ → Proc rb PieceDl
  get_dl d s = elim (s.dl d) [ none ↦ fault | some v ↦ ok (v, s) ]

  abbrev pub put_peer : ℕ → Peer → Proc rb (Unit {0})
  put_peer p v s = ok (tt, record s { peer = update s.peer p (some v) })

  abbrev pub put_dl : ℕ → PieceDl → Proc rb (Unit {0})
  put_dl d v s = ok (tt, record s { dl = update s.dl d (some v) })

  abbrev pub get : Proc rb (Session rb)
  get s = ok (s, s)

  abbrev pub put_torrent : Torrent → Proc rb (Unit {0})
  put_torrent tp s = ok (tt, record s { tp = tp })

  abbrev pub put_index : rb.Tree → Proc rb (Unit {0})
  put_index t s = ok (tt, record s { index = t })

-- The members of a queue of addresses.
abbrev pub has : ℕ → List ℕ → Bool
has a [] = false
has a (x ∷ xs) = (a == x) || has a xs

-- TAILQ_REMOVE: `none` where the element is not in the queue, for which the macro is undefined.
abbrev pub unlink : ℕ → List ℕ → Option (List ℕ)
unlink a [] = none
unlink a (x ∷ xs) =
    if a == x then some xs else elim (unlink a xs) [ none ↦ none | some ys ↦ some (x ∷ ys) ]

-- A procedure that comes first is run first.
pub >>=-ok :
    {rb : RbTree} {A B : Type 0} (m : Proc rb A) (f : A → Proc rb B) (s : Session rb) {a : A}
    {s' : Session rb}
    → m s ≡ ok (a, s')
    → (m >>= f) s ≡ f a s'
>>=-ok m f s e = rw (e, ◌>>=◌)

-- What two procedures do after a third is the same if it is wherever the third ends.
pub >>=-congr :
    {rb : RbTree} {A B : Type 0} (m : Proc rb A) (f g : A → Proc rb B) (s : Session rb)
    → ((a : A) (s' : Session rb) → m s ≡ ok (a, s') → f a s' ≡ g a s')
    → (m >>= f) s ≡ (m >>= g) s
>>=-congr {rb} {A} {B} m f g s h = go (m s) h
  where
    go :
        (o : Outcome (A × Session rb))
        → ((a : A) (s' : Session rb) → o ≡ ok (a, s') → f a s' ≡ g a s')
        → ◌≡◌ {A = Outcome (B × Session rb)}
            (elim o [ ok (a, s') ↦ f a s' | die ↦ die | fault ↦ fault ])
            (elim o [ ok (a, s') ↦ g a s' | die ↦ die | fault ↦ fault ])
    go (ok (a, s')) h = h a s' refl
    go die h = refl
    go fault h = refl

-- A procedure that ends with `pure` gives that result.
pub >>-pure :
    {rb : RbTree} {A : Type 0} (m : Proc rb (Unit {0})) (a : A) (s : Session rb) {b : A}
    {s' : Session rb}
    → (m >> pure a) s ≡ ok (b, s')
    → a ≡ b
>>-pure m a s h = ground arith

-- Where two procedures end, the first has ended and the second has ended from there.
pub >>=-last :
    {rb : RbTree} {A B : Type 0} {Q : Type 0} (m : Proc rb A) (k : A → Proc rb B) (s : Session rb)
    {b : B} {s' : Session rb}
    → ((a : A) (t : Session rb) → m s ≡ ok (a, t) → k a t ≡ ok (b, s') → Q)
    → (m >>= k) s ≡ ok (b, s')
    → Q
>>=-last {rb} {A} {B} {Q} m k s {b} {s'} h run = go (m s) h run
  where
    go :
        (o : Outcome (A × Session rb))
        → ((a : A) (t : Session rb) → o ≡ ok (a, t) → k a t ≡ ok (b, s') → Q)
        → ◌≡◌ {A = Outcome (B × Session rb)}
            (elim o [ ok (a, t) ↦ k a t | die ↦ die | fault ↦ fault ])
            (ok (b, s'))
        → Q
    go (ok (a, t)) h run = h a t refl run
    go die h run = absurd (cc)
    go fault h run = absurd (cc)
