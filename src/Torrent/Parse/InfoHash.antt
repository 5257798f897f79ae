-- ===== src/Torrent/Parse/InfoHash.antt =====
-- The info hash that is computed of a torrent file is that of the bytes of its info dictionary.
use unworkable.Common.{
  ℕ, ◌+◌, ◌-◌, ◌^◌, ◌<◌, ◌≡◌, ◌≢◌, refl, ap, sym, ◌∙◌, Bool, true, false, List, [], ◌∷◌, ◌++◌,
  Option, none, some, ok, ◌==◌, ltb, length, All, arith, length-append,
}
use mathlib.Core.List.{append_assoc, append-nil}
use mathlib.Core.Path.{subst}
use unworkable.Common.Int.{ℤ}
use unworkable.Common.Text.{codes}
use unworkable.Common.Slices.{flatten, take-append_self}
use unworkable.Buf.{Buf, buf_load, buf_release}
use unworkable.Buf.Contents.{buf_load-filled}
use unworkable.Bencode.{
  Node, blist, bdict_entry, or_else, c_string, strcmp_eq, node_find, find_loop, root_create,
}
use unworkable.Bencode.Syntax.{
  Tree, Pairs, dict, more, nil, done, pair, print_string, print, print_pairs, meaning, meanings,
  meaning_pairs, Fits,
}
use unworkable.Bencode.Tokens.{clean}
use unworkable.Bencode.Fields.{parser}
use unworkable.Bencode.Parser.{Parser, benc_parse_buf}
use unworkable.Bencode.RoundTrip.{benc_parse_buf-print}
use unworkable.Torrent.Parse.{starts, strstr, info_str, parse_infohash, end_of}

-- Up to a place in a text there is no NUL, and `4:info` does not begin.
abbrev pub Before : List ℕ → List ℕ → Type 0
Before [] tail = Unit
Before (c ∷ pre) tail = (starts info_str (c ∷ (pre ++ tail)) ≡ false) × (c ≢ 0) × Before pre tail

strstr_lem :
    (pre rest : List ℕ)
    → Before pre (info_str ++ rest)
    → strstr (pre ++ (info_str ++ rest)) info_str ≡ ok (some (info_str ++ rest))
unfolding strstr
strstr_lem [] rest h = refl
strstr_lem (c ∷ pre) rest h =
    let nul : (c == 0) ≡ false = ground (arith, h.1) in rw (h.0, nul) (strstr_lem pre rest h.2)

-- The bytes between the key and the end that is given are hashed.
parse_infohash_lem :
    (sha1 : List ℕ → List ℕ) (reads : List (List ℕ)) (pre info post : List ℕ)
    → All (λ r. 0 < length r) reads
    → length (flatten reads) < 2 ^ 64
    → flatten reads ≡ pre ++ (info_str ++ (info ++ post))
    → Before pre (info_str ++ (info ++ post))
    → parse_infohash sha1 reads (length pre + 6 + length info) ≡ ok (sha1 info)
unfolding parse_infohash buf_release
parse_infohash_lem sha1 reads pre info post some_read fits text h =
    let n = length pre + 6 + length info in
    let some_end : (n == 0) ≡ false = ground arith in
    let tail = info ++ post in
    let len : length (flatten reads) ≡ length pre + (6 + length tail) =
      ap (λ s. length s) text ∙ length-append pre (info_str ++ tail) ∙ omega arith in
    let start : length (flatten reads) - length tail ≡ length pre + 6 = omega (arith, len) in
    let wrapped : ltb n (length pre + 6) ≡ false = ground arith in
    let count : n - (length pre + 6) ≡ length info = omega arith in
    let over : ltb (length tail) (length info) ≡ false = ground (arith, length-append info post) in
    rw (some_end, buf_load-filled reads true some_read fits)
      (rw
        (subst (λ s. strstr s info_str ≡ ok (some (info_str ++ tail))) (sym text)
          (strstr_lem pre tail h))
        (rw (start, wrapped, count, over, take-append_self (length info) info post refl) refl))

-- Entries behind entries.
unfoldable pub chain : Pairs → Pairs → Pairs
chain done qs = qs
chain (pair w key t ps) qs = pair w key t (chain ps qs)

print-chain : (ps qs : Pairs) → print_pairs (chain ps qs) ≡ print_pairs ps ++ print_pairs qs
unfolding chain print
print-chain done qs = refl
print-chain (pair w key t ps) qs = rw (print-chain ps qs) (
    ap (λ s. print_string w key ++ s)
      (sym (append_assoc (print t) (print_pairs ps) (print_pairs qs)))
    ∙ sym (append_assoc (print_string w key) (print t ++ print_pairs ps) (print_pairs qs)))

or_else-eq-none : (a b : Option Node) → or_else a b ≡ none → (a ≡ none) × (b ≡ none)
or_else-eq-none none b h = (refl, h)
or_else-eq-none (some a) b h = absurd (ground arith)

find-chain :
    (ps qs : Pairs) (at : ℕ) (name : List ℕ)
    → find_loop (meaning_pairs at ps) name ≡ none
    → find_loop (meaning_pairs at (chain ps qs)) name
      ≡ find_loop (meaning_pairs (at + length (print_pairs ps)) qs) name
unfolding chain print meaning node_find
find-chain done qs at name h = ap (λ k. find_loop (meaning_pairs k qs) name) (omega arith)
find-chain (pair w key t ps) qs at name h =
    let value = at + length (print_string w key) in
    let entry = bdict_entry key (meaning value t) in
    let rest = value + length (print t) in
    let (here, behind) =
      or_else-eq-none (node_find entry name) (find_loop (meaning_pairs rest ps) name) h in
    let there : rest + length (print_pairs ps)
        ≡ at + length (print_string w key ++ (print t ++ print_pairs ps)) =
      omega (
        arith,
        length-append (print_string w key) (print t ++ print_pairs ps),
        length-append (print t) (print_pairs ps),
      ) in
    ap (λ o. or_else o (find_loop (meaning_pairs rest (chain ps qs)) name)) here
    ∙ find-chain ps qs rest name behind
    ∙ ap (λ k. find_loop (meaning_pairs k qs) name) there

end_of_lem :
    (at : ℕ) (w key : List ℕ) (t : Tree) (ps : Pairs)
    → end_of (meaning at (dict w key t ps)) ≡ at + length (print (dict w key t ps))
unfolding meaning print
end_of_lem at w key t ps = omega (
  arith,
  length-append (print_string w key) (print t ++ (print_pairs ps ++ b'e' ∷ [])),
  length-append (print t) (print_pairs ps ++ b'e' ∷ []),
  length-append (print_pairs ps) (b'e' ∷ []),
)

regroup :
    (a x f s i b e : List ℕ)
    → a ++ (x ++ ((f ++ (s ++ (i ++ b))) ++ e)) ≡ (a ++ (x ++ f)) ++ (s ++ (i ++ (b ++ e)))
regroup a x f s i b e = simp append_assoc

-- The text of a torrent file: a dictionary with some entry, others, the info dictionary, and others.
module _ (fw fkey : List ℕ) (fx : Tree) (front : Pairs) (iw ikey : List ℕ) (ix : Tree)
    (ips back : Pairs) where
  abbrev info : Tree
  info = dict iw ikey ix ips

  abbrev info_entry : Pairs
  info_entry = pair (b'4' ∷ []) (codes "info") info back

  abbrev torrent_file : Tree
  torrent_file = dict fw fkey fx (chain front info_entry)

  -- What stands before the key `info`, and behind the info dictionary.
  abbrev ahead : List ℕ
  ahead = b'd' ∷ (print_string fw fkey ++ (print fx ++ print_pairs front))

  abbrev behind : List ℕ
  behind = print_pairs back ++ b'e' ∷ []

  print-torrent_file : print torrent_file ≡ ahead ++ (info_str ++ (print info ++ behind))
  unfolding print
  print-torrent_file =
      ap (λ s. b'd' ∷ s)
        (rw (print-chain front info_entry) (
          regroup (print_string fw fkey) (print fx) (print_pairs front)
            (print_string (b'4' ∷ []) (codes "info")) (print info) (print_pairs back) (b'e' ∷ [])))

  -- The entries that stand ahead of it have no key `info` in them.
  abbrev first_entry : Node
  first_entry = bdict_entry fkey (meaning (1 + length (print_string fw fkey)) fx)

  abbrev Unnamed : Type 0
  Unnamed =
      (node_find first_entry (codes "info") ≡ none)
      × (find_loop (meaning_pairs (1 + length (print_string fw fkey) + length (print fx)) front)
            (codes "info")
          ≡ none)

  find-torrent_file :
      Unnamed
      → node_find (blist (meanings 0 (more torrent_file nil))) (codes "info")
        ≡ some (meaning (length ahead + 6) info)
  unfolding meaning node_find c_string strcmp_eq
  find-torrent_file h =
      let start = 1 + length (print_string fw fkey) + length (print fx) in
      let place : start + length (print_pairs front) + 6 ≡ length ahead + 6 = omega (
        arith,
        length-append (print_string fw fkey) (print fx ++ print_pairs front),
        length-append (print fx) (print_pairs front),
      ) in
      let loop : find_loop (meaning_pairs start (chain front info_entry)) (codes "info")
          ≡ some (meaning (length ahead + 6) info) =
        find-chain front info_entry start (codes "info") h.1
        ∙ ap (λ k. some (meaning k info)) place in
      rw (h.0, loop) refl

  -- For a torrent file with the text of a dictionary in which `info` is the key of a dictionary, behind some other
  -- entry: if each numeral means what it is to mean, at most fifteen lists and dictionaries are open at once, nothing
  -- ahead of that entry has the key `info`, and neither a NUL nor the bytes `4:info` stand ahead of it, the file is
  -- parsed, the search finds the info dictionary, and the info hash is the SHA-1 of its bytes in the file.
  pub parse_infohash-print :
      (sha1 : List ℕ → List ℕ) (strtonum : List ℕ → Option ℤ) (reads : List (List ℕ)) (flags : Bool)
      (old : Buf)
      → All (λ r. 0 < length r) reads
      → length (flatten reads) < 2 ^ 64
      → flatten reads ≡ print torrent_file
      → Fits strtonum 15 torrent_file
      → Unnamed
      → Before ahead (info_str ++ (print info ++ behind))
      → (b : Buf) × (p : Parser) × (troot : Node) × (found : Node) × (buf_load
            (length (flatten reads))
            reads
            flags
          ≡ ok b)
        × (benc_parse_buf strtonum b root_create (parser (clean old old.pos) [])
            ≡ ok (some (troot, p)))
        × (node_find troot (codes "info") ≡ some found)
        × (parse_infohash sha1 reads (end_of found) ≡ ok (sha1 (print info)))
  unfolding Fits
  parse_infohash-print sha1 strtonum reads flags old some_read size text fits unnamed before =
      let whole : flatten reads ≡ print torrent_file ++ [] =
        text ∙ sym (append-nil (print torrent_file)) in
      let (b, loaded, parse) =
        benc_parse_buf-print strtonum (more torrent_file nil) reads flags old some_read
          (unfold print in whole) size (fits, tt) in
      let ends : end_of (meaning (length ahead + 6) info) ≡ length ahead + 6 + length (print info) =
        end_of_lem (length ahead + 6) iw ikey ix ips in
      (
        b,
        parser (clean b b.len) [],
        blist (meanings 0 (more torrent_file nil)),
        meaning (length ahead + 6) info,
        loaded,
        parse,
        find-torrent_file unnamed,
        rw ends (
            parse_infohash_lem sha1 reads ahead (print info) behind some_read size
              (text ∙ print-torrent_file) before),
      )
