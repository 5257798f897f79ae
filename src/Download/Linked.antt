-- ===== src/Download/Linked.antt =====
-- The queues of piece downloads in network.c and the downloads themselves point at one another.
pub mod Create
pub mod Choke
pub mod Find
pub mod Free
pub mod Orphan
pub mod Keeps
pub mod Adopt
use unworkable.Common.{
  ℕ, ◌<◌, ◌≡◌, ◌≢◌, refl, ap, sym, ◌∙◌, List, [], ◌∷◌, ◌++◌, Bool, true, false, not, ◌&&◌, ◌||◌,
  Option, none, some, arith, ◌==◌,
}
use native.Mathlib.Decide.{ℕ_discrete}
use unworkable.Index.{RbTree}
use unworkable.Session.{PieceDl, Peer, Session}
use unworkable.Session.Store.{has, unlink}

abbrev pub or_empty : Option (List ℕ) → List ℕ
or_empty none = []
or_empty (some l) = l

abbrev pub own_of : Option Peer → List ℕ
own_of none = []
own_of (some p) = p.piece_dls

-- The queue of a block, and the queue of a peer.
abbrev pub queue : {rb : RbTree} → Session rb → ℕ → ℕ → List ℕ
queue {rb} s i o = or_empty (rb.find s.index i o)

abbrev pub own : {rb : RbTree} → Session rb → ℕ → List ℕ
own s q = own_of (s.peer q)

abbrev pub Once : List ℕ → Type 0
Once [] = Unit
Once (x ∷ xs) = (has x xs ≡ false) × Once xs

-- Each download that is allocated stands once in the queue of its block, and in that of its peer if it
-- has one; what stands in a queue is allocated and belongs there; a node of the index has a download.
pub record Linked {rb : RbTree} (s : Session rb) : Type 0 where
  pub live : (d : ℕ) (v : PieceDl) → s.dl d ≡ some v → has d (queue s v.idx v.off) ≡ true
  pub indexed :
      (i o d : ℕ)
      → has d (queue s i o) ≡ true
      → (v : PieceDl) × (s.dl d ≡ some v) × (v.idx ≡ i) × (v.off ≡ o)
  pub once : (i o : ℕ) → Once (queue s i o)
  pub full : (i o : ℕ) → rb.find s.index i o ≢ some []
  pub assigned : (d q : ℕ) (v : PieceDl) → s.dl d ≡ some v → v.pc ≡ some q → has d (own s q) ≡ true
  pub owned :
      (q d : ℕ) → has d (own s q) ≡ true → (v : PieceDl) × (s.dl d ≡ some v) × (v.pc ≡ some q)
  pub own_once : (q : ℕ) → Once (own s q)
  pub room : (d : ℕ) (v : PieceDl) → s.dl d ≡ some v → d < s.fresh_dl

-- What a queue holds with one more download at its end.
pub has_last : (xs : List ℕ) (d a : ℕ) → has a (xs ++ (d ∷ [])) ≡ (a == d || has a xs)
has_last [] d a = refl
has_last (x ∷ xs) d a = ground (arith, has_last xs d a)

pub Once-append : (xs : List ℕ) (d : ℕ) → Once xs → has d xs ≡ false → Once (xs ++ (d ∷ []))
Once-append [] d h out = (refl, tt)
Once-append (x ∷ xs) d h out =
    (ground (arith, has_last xs d x), Once-append xs d h.1 (ground arith))

-- What stands in a queue can be taken out of it, and then stands in it no more.
pub unlink_lem :
    (d : ℕ) (xs : List ℕ)
    → has d xs ≡ true
    → Once xs
    → (ys : List ℕ) × (unlink d xs ≡ some ys)
      × Once ys
      × ((a : ℕ) → has a ys ≡ (has a xs && not (a == d)))
unlink_lem d [] h o = absurd (cc)
unlink_lem d (x ∷ xs) h o = elim (ℕ_discrete d x) [
  | yes e ↦ (xs, ground arith, o.1, λ a. ground arith)
  | no ne ↦
      let (ys, run, o', rest) = unlink_lem d xs (ground arith) o.1 in
      (x ∷ ys, ground arith, (ground (arith, rest x), o'), λ a. ground (arith, rest a))
]
