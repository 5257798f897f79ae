-- ===== src/Bencode/Find.antt =====
-- benc_node_find of bencode.c against the list of all that a tree has under a key.
use unworkable.Common.{
  ℕ, ◌≡◌, refl, sym, Bool, List, [], ◌∷◌, ◌++◌, Option, none, some, if◌then◌else◌, Bool-cases, inl,
  inr,
}
use unworkable.Bencode.{
  Node, Nodes, bstring, bint, blist, bdict, bdict_entry, empty, node, c_string, strcmp_eq, or_else,
  node_find, node_find_in, find_loop,
}

abbrev pub Keyed : Type 0
Keyed = List (List ℕ × Node)

-- What stands under a key, from the front of the text to its end: an entry before those inside of it.
unfoldable mutual
  pub entries : Node → Keyed
  entries (bstring len value) = []
  entries (bint number) = []
  entries (blist ns) = entries_all ns
  entries (bdict end ns) = entries_all ns
  entries (bdict_entry key value) = (key, value) ∷ entries value

  pub entries_all : Nodes → Keyed
  entries_all empty = []
  entries_all (node n ns) = entries n ++ entries_all ns

-- The value of an entry is never an entry, as in any tree that the grammar makes.
abbrev pub IsValue : Node → Type 0
IsValue (bdict_entry key value) = ⊥
IsValue other = Unit

unfoldable mutual
  pub IsTree : Node → Type 0
  IsTree (bstring len value) = Unit
  IsTree (bint number) = Unit
  IsTree (blist ns) = AreTrees ns
  IsTree (bdict end ns) = AreTrees ns
  IsTree (bdict_entry key value) = IsValue value × IsTree value

  pub AreTrees : Nodes → Type 0
  AreTrees empty = Unit
  AreTrees (node n ns) = IsTree n × AreTrees ns

abbrev pub is_key : List ℕ → List ℕ → Bool
is_key key name = strcmp_eq (c_string key) name

pub first : Keyed → List ℕ → Option Node
first [] name = none
first ((key, value) ∷ rest) name = if is_key key name then some value else first rest name

first-append :
    (xs ys : Keyed) (name : List ℕ)
    → first (xs ++ ys) name ≡ or_else (first xs name) (first ys name)
unfolding first
first-append [] ys name = refl
first-append ((key, value) ∷ xs) ys name = elim (Bool-cases (is_key key name)) [
  | inl e ↦ rw e refl
  | inr e ↦ rw e (first-append xs ys name)
]

mutual
  unfolding node_find entries IsTree first

  find_lem : (n : Node) (name : List ℕ) → IsTree n → node_find n name ≡ first (entries n) name
  find_lem (bstring len value) name h = refl
  find_lem (bint number) name h = refl
  find_lem (blist ns) name h = loop_lem ns name h
  find_lem (bdict end ns) name h = loop_lem ns name h
  find_lem (bdict_entry key value) name h = elim (Bool-cases (is_key key name)) [
    | inl e ↦ rw e refl
    | inr e ↦ rw e (inside_lem value name h.0 h.1)
  ]

  inside_lem :
      (n : Node) (name : List ℕ)
      → IsValue n
      → IsTree n
      → node_find_in n name ≡ first (entries n) name
  inside_lem (bstring len value) name v h = refl
  inside_lem (bint number) name v h = refl
  inside_lem (blist ns) name v h = loop_lem ns name h
  inside_lem (bdict end ns) name v h = loop_lem ns name h
  inside_lem (bdict_entry key value) name v h = absurd v

  loop_lem :
      (ns : Nodes) (name : List ℕ) → AreTrees ns → find_loop ns name ≡ first (entries_all ns) name
  loop_lem empty name h = refl
  loop_lem (node n ns) name h =
      rw (find_lem n name h.0, loop_lem ns name h.1)
        (sym (first-append (entries n) (entries_all ns) name))

-- In a tree in which no entry's value is an entry, the search finds what stands first under the key in the order of
-- the text, at whatever depth, and NULL if the key is nowhere.
pub node_find-first :
    (n : Node) (name : List ℕ) → IsTree n → node_find n name ≡ first (entries n) name
node_find-first n name h = find_lem n name h
