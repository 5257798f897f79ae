-- ===== src/Bencode/Syntax.antt =====
-- The texts that the grammar of parse.y is for, as trees, and the node tree that each of them means.
use unworkable.Common.{
  ℕ, ◌+◌, ◌-◌, ◌^◌, ◌<◌, ◌≡◌, ◌≢◌, List, [], ◌∷◌, ◌++◌, Option, some, length, All, arith,
  length-append,
}
use unworkable.Common.Int.{ℤ, pos}
use unworkable.Bencode.{
  Node, Nodes, bstring, bint, blist, bdict, bdict_entry, empty, node, c_string,
}

-- A numeral is as it is written, and a list or a dictionary has a first element.
mutual
  pub data Tree : Type 0 where
    str : List ℕ → List ℕ → Tree
    int : List ℕ → ℤ → Tree
    list : Tree → Trees → Tree
    dict : List ℕ → List ℕ → Tree → Pairs → Tree

  pub data Trees : Type 0 where
    nil : Trees
    more : Tree → Trees → Trees

  pub data Pairs : Type 0 where
    done : Pairs
    pair : List ℕ → List ℕ → Tree → Pairs → Pairs

-- A string with its numeral.
abbrev pub print_string : List ℕ → List ℕ → List ℕ
print_string w s = w ++ (b':' ∷ s)

unfoldable mutual
  pub print : Tree → List ℕ
  print (str w s) = print_string w s
  print (int w n) = b'i' ∷ (w ++ (b'e' ∷ []))
  print (list t ts) = b'l' ∷ (print t ++ (print_all ts ++ (b'e' ∷ [])))
  print (dict w key t ps) =
      b'd' ∷ (print_string w key ++ (print t ++ (print_pairs ps ++ (b'e' ∷ []))))

  pub print_all : Trees → List ℕ
  print_all nil = []
  print_all (more t ts) = print t ++ print_all ts

  pub print_pairs : Pairs → List ℕ
  print_pairs done = []
  print_pairs (pair w key t ps) = print_string w key ++ (print t ++ print_pairs ps)

-- The nodes of a text that begins at an offset; a dictionary ends behind its `e`.
unfoldable mutual
  pub meaning : ℕ → Tree → Node
  meaning at (str w s) = bstring (length s) s
  meaning at (int w n) = bint n
  meaning at (list t ts) =
      blist (node (meaning (at + 1) t) (meanings (at + 1 + length (print t)) ts))
  meaning at (dict w key t ps) =
      let value = at + 1 + length (print_string w key) in
      let rest = value + length (print t) in
      bdict (rest + length (print_pairs ps) + 1)
        (node (bdict_entry key (meaning value t)) (meaning_pairs rest ps))

  pub meanings : ℕ → Trees → Nodes
  meanings at nil = empty
  meanings at (more t ts) = node (meaning at t) (meanings (at + length (print t)) ts)

  pub meaning_pairs : ℕ → Pairs → Nodes
  meaning_pairs at done = empty
  meaning_pairs at (pair w key t ps) =
      let value = at + length (print_string w key) in
      node (bdict_entry key (meaning value t)) (meaning_pairs (value + length (print t)) ps)

-- None of the characters that the lexer treats apart.
abbrev pub Plain : ℕ → Type 0
Plain c = (c ≢ b':') × (c ≢ b'e') × (c ≢ b'i') × (c ≢ b'd') × (c ≢ b'l')

module _ (strtonum : List ℕ → Option ℤ) where
  abbrev pub Numeral : List ℕ → ℤ → Type 0
  Numeral w n = (0 < length w) × All Plain w × (strtonum (c_string w) ≡ some n)

  abbrev pub Counted : List ℕ → List ℕ → Type 0
  Counted w s = Numeral w (pos (length s)) × (length s < 2 ^ 64)

  -- Every numeral means what it is to mean, and no more than `depth` lists and dictionaries are open at once.
  unfoldable mutual
    pub Fits : ℕ → Tree → Type 0
    Fits depth (str w s) = Counted w s
    Fits depth (int w n) = Numeral w n
    Fits depth (list t ts) = (0 < depth) × Fits (depth - 1) t × FitsAll (depth - 1) ts
    Fits depth (dict w key t ps) =
        (0 < depth) × Counted w key × Fits (depth - 1) t × FitsPairs (depth - 1) ps

    pub FitsAll : ℕ → Trees → Type 0
    FitsAll depth nil = Unit
    FitsAll depth (more t ts) = Fits depth t × FitsAll depth ts

    pub FitsPairs : ℕ → Pairs → Type 0
    FitsPairs depth done = Unit
    FitsPairs depth (pair w key t ps) = Counted w key × Fits depth t × FitsPairs depth ps

pub print_pos : (t : Tree) → 0 < length (print t)
unfolding print
print_pos (str w s) = omega (arith, length-append w (b':' ∷ s))
print_pos (int w n) = omega arith
print_pos (list t ts) = omega arith
print_pos (dict w key t ps) = omega arith
