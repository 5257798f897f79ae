-- ===== src/Index/Sorted.antt =====
-- A tree for the interface of network.c's index: an association list. It shows that the laws can be met.
use unworkable.Common.{
  ℕ, ◌≡◌, refl, ◌&&◌, Option, none, some, List, [], ◌∷◌, ◌==◌, if◌then◌else◌, arith, ltb, ◌||◌,
}
use unworkable.Index.{RbTree}

abbrev Nodes : Type 0
Nodes = List (ℕ × ℕ × List ℕ)

abbrev find : Nodes → ℕ → ℕ → Option (List ℕ)
find [] j q = none
find ((i, o, l) ∷ t) j q = if i == j && o == q then some l else find t j q

abbrev remove : Nodes → ℕ → ℕ → Nodes
remove [] i o = []
remove ((j, q, l) ∷ t) i o = if i == j && o == q then remove t i o else (j, q, l) ∷ remove t i o

-- The list is kept in the order of the keys.
abbrev insert : Nodes → ℕ → ℕ → List ℕ → Nodes
insert [] i o l = (i, o, l) ∷ []
insert ((j, q, m) ∷ t) i o l =
    let rest = insert t i o l in
    if i == j && o == q
    then (i, o, l) ∷ t
    else if ltb i j || (i == j && ltb o q)
    then (i, o, l) ∷ ((j, q, m) ∷ t)
    else (j, q, m) ∷ rest

pub find-insert :
    (t : Nodes) (i o : ℕ) (l : List ℕ) (j q : ℕ)
    → find (insert t i o l) j q ≡ (if i == j && o == q then some l else find t j q)
find-insert [] i o l j q = refl
find-insert ((k, r, m) ∷ t) i o l j q = ground (arith, find-insert t i o l j q)

pub find-remove :
    (t : Nodes) (i o j q : ℕ)
    → find (remove t i o) j q ≡ (if i == j && o == q then none else find t j q)
find-remove [] i o j q = ground arith
find-remove ((k, r, m) ∷ t) i o j q = ground (arith, find-remove t i o j q)

abbrev pub sorted_tree : RbTree
sorted_tree = record {
  Tree = Nodes;
  init = [];
  find = find;
  store = insert;
  remove = remove;
  foreach = λ t. t;
  find-init = λ i o. refl;
  find-store = find-insert;
  find-remove = find-remove;
}
