-- ===== src/Bencode.antt =====
-- bencode.c: the tree that a bencoded text stands for, and the search in it.
pub mod Find
pub mod Lexer
pub mod Parser
pub mod Syntax
pub mod Tokens
pub mod Fields
pub mod Rules
pub mod RoundTrip
pub mod Total
use unworkable.Common.{
  ℕ, zero, suc, ◌+◌, ◌-◌, Bool, true, false, ◌&&◌, List, [], ◌∷◌, Option, none, some, ◌==◌,
  if◌then◌else◌,
}
use unworkable.Common.Int.{ℤ}

-- `struct benc_node`: a constructor for each kind. A dictionary's entry has the flag of its value beside
-- `BDICT_ENTRY`, and no children of its own; the other kinds that are not containers have none either. The
-- field `end` is set for dictionaries only.
mutual
  pub data Node : Type 0 where
    bstring : ℕ → List ℕ → Node
    bint : ℤ → Node
    blist : Nodes → Node
    bdict : ℕ → Nodes → Node
    bdict_entry : List ℕ → Node → Node

  pub data Nodes : Type 0 where
    empty : Nodes
    node : Node → Nodes → Nodes

-- A C string ends at the first NUL.
unfoldable pub c_string : List ℕ → List ℕ
c_string [] = []
c_string (c ∷ s) = if c == 0 then [] else c ∷ c_string s

-- The test `strcmp(a, b) == 0` on strings that have been cut.
unfoldable pub strcmp_eq : List ℕ → List ℕ → Bool
strcmp_eq [] [] = true
strcmp_eq [] (b ∷ bs) = false
strcmp_eq (a ∷ as') [] = false
strcmp_eq (a ∷ as') (b ∷ bs) = a == b && strcmp_eq as' bs

unfoldable pub insert_tail : Nodes → Node → Nodes
insert_tail empty new = node new empty
insert_tail (node n ns) new = node n (insert_tail ns new)

-- Both are called with lists and dictionaries only; nothing else here has children.
unfoldable pub node_add : Node → Node → Node
node_add (blist ns) new = blist (insert_tail ns new)
node_add (bdict end ns) new = bdict end (insert_tail ns new)
node_add other new = other

unfoldable pub node_add_head : Node → Node → Node
node_add_head (blist ns) new = blist (node new ns)
node_add_head (bdict end ns) new = bdict end (node new ns)
node_add_head other new = other

unfoldable pub root_create : Node
root_create = blist empty

abbrev pub or_else {ℓ} : {A : Type ℓ} → Option A → Option A → Option A
or_else (some a) rest = some a
or_else none rest = rest

-- The entry itself, then the children of its value, in order. `name` is a literal of the program, shorter
-- than the lexer's buffer, so that the comparison ends in the buffer of the key.
unfoldable mutual
  pub node_find : Node → List ℕ → Option Node
  node_find (bdict_entry key value) name =
      if strcmp_eq (c_string key) name then some value else node_find_in value name
  node_find (blist ns) name = find_loop ns name
  node_find (bdict end ns) name = find_loop ns name
  node_find (bstring len value) name = none
  node_find (bint number) name = none

  pub node_find_in : Node → List ℕ → Option Node
  node_find_in (blist ns) name = find_loop ns name
  node_find_in (bdict end ns) name = find_loop ns name
  node_find_in (bstring len value) name = none
  node_find_in (bint number) name = none
  node_find_in (bdict_entry key value) name = none

  pub find_loop : Nodes → List ℕ → Option Node
  find_loop empty name = none
  find_loop (node n ns) name = or_else (node_find n name) (find_loop ns name)
