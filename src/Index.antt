-- ===== src/Index.antt =====
-- network.c: the index of piece downloads by block. Its tree is one of the vendored sys/tree.h, and so an
-- interface here; the comparison from which the tree is generated is the program's own.
pub mod Order
pub mod Sorted
use unworkable.Common.{
  ℕ, ◌-◌, ◌^◌, ◌≡◌, Bool, ◌&&◌, Option, none, some, List, ◌==◌, if◌then◌else◌, ltb, sub32,
}

-- A node of the tree has a key, the index of a piece and an offset in it, and heads a queue of piece
-- downloads, here their addresses. `store` is RB_INSERT of a node that is not there, and otherwise the
-- change of the queue that the node there heads.
pub record RbTree : Type 1 where
  pub Tree : Type 0
  pub init : Tree
  pub find : Tree → ℕ → ℕ → Option (List ℕ)
  pub store : Tree → ℕ → ℕ → List ℕ → Tree
  pub remove : Tree → ℕ → ℕ → Tree
  pub foreach : Tree → List (ℕ × ℕ × List ℕ)
  pub find-init : (i o : ℕ) → find init i o ≡ none
  pub find-store :
      (t : Tree) (i o : ℕ) (l : List ℕ) (j q : ℕ)
      → find (store t i o l) j q ≡ (if i == j && o == q then some l else find t j q)
  pub find-remove :
      (t : Tree) (i o j q : ℕ)
      → find (remove t i o) j q ≡ (if i == j && o == q then none else find t j q)

-- The sign of an `int`.
pub data Sign : Type 0 where
  negative zero positive : Sign

-- A difference of two `u_int32_t`, returned as an `int`.
abbrev pub sign_of : ℕ → Sign
sign_of n = if n == 0 then zero else if ltb n (2 ^ 31) then positive else negative

-- piece_dl_idxnode_cmp
pub cmp : ℕ → ℕ → ℕ → ℕ → Sign
cmp idx1 off1 idx2 off2 =
    let idxdiff = sub32 idx1 idx2 in
    if idxdiff == 0 then sign_of (sub32 off1 off2) else sign_of idxdiff
