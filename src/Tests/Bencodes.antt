-- ===== src/Tests/Bencodes.antt =====
-- Runs of the parser and of what uses its trees.
use unworkable.Common.{
  ℕ, ◌+◌, ◌-◌, ◌*◌, ◌≡◌, refl, List, [], ◌∷◌, Option, none, some, ok, ◌&&◌, leb, if◌then◌else◌,
  length, arith, false,
}
use unworkable.Common.Int.{ℤ, pos}
use unworkable.Common.Text.{codes}
use unworkable.Common.Slices.{flatten}
use unworkable.Buf.{Buf, buf_load}
use unworkable.Bencode.{
  Node, bint, blist, bdict, bdict_entry, empty, node, node_find, root_create, c_string, strcmp_eq,
}
use unworkable.Bencode.Find.{entries, first, IsTree, node_find-first}
use unworkable.Bencode.Syntax.{
  Tree, str, int, dict, more, nil, done, pair, print, meaning, meanings, Fits,
}
use unworkable.Bencode.Tokens.{clean}
use unworkable.Bencode.Fields.{parser}
use unworkable.Bencode.Parser.{Parser, benc_parse_buf}
use unworkable.Bencode.RoundTrip.{benc_parse_buf-print}
use unworkable.Bencode.Total.File.{Outcomes, benc_parse_buf-Outcomes}
use unworkable.Torrent.Parse.{parse_infohash, end_of}
use unworkable.Torrent.Parse.InfoHash.{chain, parse_infohash-print}

-- A number in decimal, without a sign.
abbrev digits : ℕ → List ℕ → Option ℤ
digits n [] = some (pos n)
digits n (c ∷ s) = if leb b'0' c && leb c b'9' then digits (10 * n + (c - b'0')) s else none

abbrev strtonum : List ℕ → Option ℤ
strtonum [] = none
strtonum (c ∷ s) = digits 0 (c ∷ s)

abbrev nowhere : Buf
nowhere = record { autoext = false; bytes = []; cur = 0; len = 0; pos = 0 }

-- d8:announce1:x4:infod1:ai5eee
abbrev info : Tree
info = dict (codes "1") (codes "a") (int (codes "5") (pos 5)) done

abbrev sample : Tree
sample =
    dict (codes "8") (codes "announce") (str (codes "1") (codes "x"))
      (pair (codes "4") (codes "info") info done)

abbrev reads : List (List ℕ)
reads = codes "d8:announce1" ∷ codes ":x4:infod1:ai5eee" ∷ []

sample-Fits : Fits strtonum 15 sample
unfolding Fits c_string
sample-Fits = grind arith

benc_parse_buf-print_example :
    (b : Buf) × (buf_load (length (flatten reads)) reads false ≡ ok b)
    × (benc_parse_buf strtonum b root_create (parser (clean nowhere 0) [])
        ≡ ok (some (blist (meanings 0 (more sample nil)), parser (clean b b.len) [])))
unfolding print Fits
benc_parse_buf-print_example =
    benc_parse_buf-print strtonum (more sample nil) reads false nowhere (omega arith) refl
      (omega arith) (sample-Fits, tt)

parse_infohash-print_example :
    (b : Buf) × (p : Parser) × (troot : Node) × (found : Node) × (buf_load
        (length (flatten reads))
        reads
        false
      ≡ ok b)
    × (benc_parse_buf strtonum b root_create (parser (clean nowhere 0) []) ≡ ok (some (troot, p)))
    × (node_find troot (codes "info") ≡ some found)
    × (parse_infohash (λ s. s) reads (end_of found) ≡ ok (print info))
unfolding print node_find meaning c_string strcmp_eq chain
parse_infohash-print_example =
    parse_infohash-print (codes "8") (codes "announce") (str (codes "1") (codes "x")) done
      (codes "1") (codes "a") (int (codes "5") (pos 5)) done done (λ s. s) strtonum reads false
      nowhere (omega arith) (omega arith) refl sample-Fits (refl, refl) (grind arith)

-- An empty list, which is refused.
benc_parse_buf-Outcomes_example :
    (b : Buf) × (buf_load 2 (codes "le" ∷ []) false ≡ ok b)
    × Outcomes (benc_parse_buf strtonum b root_create (parser (clean nowhere 0) []))
benc_parse_buf-Outcomes_example =
    benc_parse_buf-Outcomes strtonum (codes "le" ∷ []) false root_create
      (parser (clean nowhere 0) []) (omega arith) (omega arith) refl

-- d1:ai5e1:ai6ee
abbrev twice : Node
twice = bdict 13 (
    node (bdict_entry (codes "a") (bint (pos 5)))
      (node (bdict_entry (codes "a") (bint (pos 6))) empty))

node_find-first_example : node_find twice (codes "a") ≡ first (entries twice) (codes "a")
unfolding IsTree
node_find-first_example = node_find-first twice (codes "a") ((tt, tt), ((tt, tt), tt))
