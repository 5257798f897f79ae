-- ===== src/PeerList/Names.antt =====
-- The list of peers as a list of addresses in which none stands twice.
use unworkable.Common.{
  ℕ, suc, ◌≤◌, ◌<◌, ◌≡◌, refl, ap, Bool, false, ◌&&◌, ◌||◌, List, [], ◌∷◌, ◌++◌, Option, some, ok,
  ◌==◌, if◌then◌else◌, length, All, arith, Bool-cases, inl, inr, bytes_eq,
}
use unworkable.Index.{RbTree}
use unworkable.Session.{Peer, Session}
use unworkable.Session.Store.{update, ◌>>=◌}
use unworkable.PeerList.{same_address, is_listed}

-- An address and a port.
abbrev pub Address : Type 0
Address = List ℕ × List ℕ

abbrev pub same : Address → Address → Bool
same (a, p) (b, q) = bytes_eq a b && bytes_eq p q

abbrev pub member : Address → List Address → Bool
member k [] = false
member k (j ∷ ks) = same j k || member k ks

-- An address is put last, if it is not there.
abbrev pub insert : List Address → Address → List Address
insert ks k = if member k ks then ks else ks ++ k ∷ []

abbrev pub insert_all : List Address → List Address → List Address
insert_all ks [] = ks
insert_all ks (j ∷ js) = insert_all (insert ks j) js

-- The peers of a list have these addresses.
abbrev pub Names : (ℕ → Option Peer) → List ℕ → List Address → Type 0
Names st [] [] = Unit
Names st [] (k ∷ ks) = ⊥
Names st (p ∷ ps) [] = ⊥
Names st (p ∷ ps) (k ∷ ks) =
    ((v : Peer) × (st p ≡ some v) × (v.addr ≡ k.0) × (v.port ≡ k.1)) × Names st ps ks

-- The list of the session has these addresses, all its peers are there, and they are counted.
pub record Listed {rb : RbTree} (s : Session rb) (ks : List Address) : Type 0 where
  pub names : Names s.peer s.peers ks
  pub counted : s.num_peers ≡ length s.peers
  pub old : All (λ p. p < s.fresh_peer) s.peers

pub Names-length :
    (st : ℕ → Option Peer) (ps : List ℕ) (ks : List Address)
    → Names st ps ks
    → length ps ≡ length ks
Names-length st [] [] h = refl
Names-length st [] (k ∷ ks) h = absurd h
Names-length st (p ∷ ps) [] h = absurd h
Names-length st (p ∷ ps) (k ∷ ks) h = ap suc (Names-length st ps ks h.1)

-- A change of the store at an address that is not in the list.
pub Names-update :
    (st : ℕ → Option Peer) (ps : List ℕ) (ks : List Address) (q : ℕ) (w : Option Peer)
    → All (λ p. p < q) ps
    → Names st ps ks
    → Names (update st q w) ps ks
Names-update st [] [] q w a h = tt
Names-update st [] (k ∷ ks) q w a h = absurd h
Names-update st (p ∷ ps) [] q w a h = absurd h
Names-update st (p ∷ ps) (k ∷ ks) q w a h =
    let (v, at, addr, port) = h.0 in
    let other : (p == q) ≡ false = ground (arith, a.0) in
    ((v, rw other at, addr, port), Names-update st ps ks q w a.1 h.1)

-- One peer more.
pub Names-append :
    (st : ℕ → Option Peer) (ps : List ℕ) (ks : List Address) (q : ℕ) (k : Address) (v : Peer)
    → Names st ps ks
    → st q ≡ some v
    → v.addr ≡ k.0
    → v.port ≡ k.1
    → Names st (ps ++ q ∷ []) (ks ++ k ∷ [])
Names-append st [] [] q k v h e a b = ((v, e, a, b), tt)
Names-append st [] (j ∷ ks) q k v h e a b = absurd h
Names-append st (p ∷ ps) [] q k v h e a b = absurd h
Names-append st (p ∷ ps) (j ∷ ks) q k v h e a b = (h.0, Names-append st ps ks q k v h.1 e a b)

pub All-le : (ps : List ℕ) (m n : ℕ) → m ≤ n → All (λ p. p < m) ps → All (λ p. p < n) ps
All-le [] m n l h = tt
All-le (p ∷ ps) m n l h = (omega (arith, h.0), All-le ps m n l h.1)

pub All-append :
    (ps : List ℕ) (n q : ℕ) → All (λ p. p < n) ps → q < n → All (λ p. p < n) (ps ++ q ∷ [])
All-append [] n q h l = (l, tt)
All-append (p ∷ ps) n q h l = (h.0, All-append ps n q h.1 l)

-- The test of the code is the membership.
pub is_listed_lem :
    {rb : RbTree} (ps : List ℕ) (ks : List Address) (v : Peer) (s : Session rb)
    → Names s.peer ps ks
    → is_listed ps v s ≡ ok (member (v.addr, v.port) ks, s)
unfolding is_listed
is_listed_lem [] [] v s h = refl
is_listed_lem [] (k ∷ ks) v s h = absurd h
is_listed_lem (p ∷ ps) [] v s h = absurd h
is_listed_lem (p ∷ ps) (k ∷ ks) v s h =
    let (w, at, addr, port) = h.0 in
    let test : same_address w v ≡ same k (v.addr, v.port) = rw (addr, port) refl in
    elim (Bool-cases (same k (v.addr, v.port))) [
      | inl e ↦ rw (at, ◌>>=◌, test, e) refl
      | inr n ↦ rw (at, ◌>>=◌, test, n) (is_listed_lem ps ks v s h.1)
    ]
