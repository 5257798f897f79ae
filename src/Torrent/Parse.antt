-- ===== src/Torrent/Parse.antt =====
-- torrent_parse_infohash and torrent_parse_file of torrent.c. A file is what its reads give; a number of
-- the file is a `long long`, which goes into an `off_t` as it is and into a `u_int32_t` modulo 2 ^ 32.
pub mod InfoHash
use unworkable.Common.{
  ℕ, zero, suc, ◌+◌, ◌-◌, ◌/◌, Bool, true, false, List, [], ◌∷◌, ◌++◌, Option, none, some, Outcome,
  ok, die, fault, check, must, ◌>>=◌, ◌>>◌, ◌==◌, ltb, leb, if◌then◌else◌, length, take, drop, u32,
}
use unworkable.Common.Int.{ℤ, pos, to_word, add_64}
use unworkable.Common.Text.{codes}
use unworkable.Common.Slices.{flatten}
use unworkable.Buf.{Buf, buf_load, buf_release}
use unworkable.Bencode.{
  Node, Nodes, bstring, bint, blist, bdict, bdict_entry, empty, node, c_string, node_find,
  root_create,
}
use unworkable.Bencode.Parser.{Parser, benc_parse_buf}
use unworkable.Torrent.{TorrentType, multifile, singlefile}

-- `strstr(buf, str)`, as what begins with the first place where `str` stands. A NUL ends the string, and the
-- end of the memory with no NUL before it is a fault.
abbrev pub starts : List ℕ → List ℕ → Bool
starts [] s = true
starts (c ∷ cs) [] = false
starts (c ∷ cs) (d ∷ s) = if c == d then starts cs s else false

unfoldable pub strstr : List ℕ → List ℕ → Outcome (Option (List ℕ))
strstr [] str = fault
strstr (c ∷ s) str =
    if starts str (c ∷ s) then ok (some (c ∷ s)) else if c == 0 then ok none else strstr s str

-- INFO_STR, `4:info`
abbrev pub info_str : List ℕ
info_str = b'4' ∷ b':' ∷ b'i' ∷ b'n' ∷ b'f' ∷ b'o' ∷ []

module _ (sha1 : List ℕ → List ℕ) where
  -- The bytes behind the key, up to an offset in the file. Where the offset lies before them the length is a
  -- `size_t` that has wrapped, and more is read than there is.
  abbrev pub hash_from : List ℕ → ℕ → Option (List ℕ) → Outcome (List ℕ)
  hash_from buf infoend none = die
  hash_from buf infoend (some found) =
      let p = drop (length info_str) found in
      let start = length buf - length p in
      if ltb infoend start
      then fault
      else if ltb (length p) (infoend - start)
      then fault
      else ok (sha1 (take (infoend - start) p))

  unfoldable pub parse_infohash : List (List ℕ) → ℕ → Outcome (List ℕ)
  parse_infohash reads infoend = if infoend == 0 then die else do
    b ← buf_load (length (flatten reads)) reads true
    let buf = buf_release b
    found ← strstr buf info_str
    hash_from buf infoend found

-- `struct torrent_file`, with what is not set at NULL.
pub record TorrentFile : Type 0 where
  pub file_length : ℤ
  pub path : List ℕ
  pub md5sum : Option (List ℕ)

-- What torrent_parse_file sets of `struct torrent`. `name` and `files` are those of a torrent of many files,
-- `tfp` is the file of one.
pub record Parsed : Type 0 where
  pub info_hash : List ℕ
  pub announce : List ℕ
  pub comment : Option (List ℕ)
  pub type : TorrentType
  pub piece_length : ℕ
  pub pieces : List ℕ
  pub num_pieces : ℕ
  pub left : ℤ
  pub tfp : TorrentFile
  pub name : List ℕ
  pub files : List TorrentFile
  pub total_length : ℤ
  pub created_by : Option (List ℕ)
  pub creation_date : ℤ

-- `benc_node_find(node, key)`, with an errx where there is none.
abbrev pub found {ℓ} : {A : Type ℓ} → Option A → Outcome A
found none = die
found (some a) = ok a

abbrev pub need : Node → List ℕ → Outcome Node
need n key = found (node_find n key)

-- The test for BSTRING and for BINT, and the body; of the flags an entry has those of its value, and its body
-- is another one.
abbrev pub as_string : Node → Outcome (ℕ × List ℕ)
as_string (bstring len value) = ok (len, value)
as_string (bdict_entry key (bstring len value)) = fault
as_string other = die

abbrev pub as_int : Node → Outcome ℤ
as_int (bint number) = ok number
as_int (bdict_entry key (bint number)) = fault
as_int other = die

-- The same where another kind of node is passed over.
abbrev pub string_if : Option Node → Outcome (Option (List ℕ))
string_if none = ok none
string_if (some (bstring len value)) = ok (some value)
string_if (some (bdict_entry key (bstring len value))) = fault
string_if (some other) = ok none

abbrev pub int_if : Option Node → Outcome ℤ
int_if none = ok (pos 0)
int_if (some (bint number)) = ok number
int_if (some (bdict_entry key (bint number))) = fault
int_if (some other) = ok (pos 0)

-- The same where another kind of node stops the process.
abbrev pub string_or_die : Option Node → Outcome (Option (List ℕ))
string_or_die none = ok none
string_or_die (some n) = do (len, value) ← as_string n; ok (some value)

-- `node->end` is set in dictionaries only.
abbrev pub end_of : Node → ℕ
end_of (bdict end ns) = end
end_of other = 0

abbrev pub children : Node → Nodes
children (blist ns) = ns
children (bdict end ns) = ns
children other = empty

abbrev pub as_list : Node → Outcome Nodes
as_list (blist ns) = ok ns
as_list (bdict_entry key (blist ns)) = ok empty
as_list other = die

-- The elements of a path, joined by slashes in a buffer of MAXPATHLEN bytes. The test for the first is that the
-- buffer is empty.
abbrev pub joined : List ℕ → List ℕ → List ℕ
joined [] s = s
joined (c ∷ cs) s = (c ∷ cs) ++ (b'/' ∷ s)

unfoldable pub path_loop : ℕ → List ℕ → Nodes → Outcome (List ℕ)
path_loop max_path path empty = ok path
path_loop max_path path (node n ns) = do
  (len, value) ← as_string n
  let path' = joined path (c_string value)
  if leb max_path (length path') then die else path_loop max_path path' ns

-- One file of many, and the sum of the lengths with it.
unfoldable pub parse_one : ℕ → Node → ℤ → Outcome (TorrentFile × ℤ)
parse_one max_path child total = do
  length_node ← need child (codes "length")
  n ← as_int length_node
  total' ← add_64 total n
  md5sum ← string_if (node_find child (codes "md5sum"))
  path_node ← need child (codes "path")
  elements ← as_list path_node
  path ← path_loop max_path [] elements
  ok (record { file_length = n; path = path; md5sum = md5sum }, total')

unfoldable pub files_loop : ℕ → Nodes → ℤ → Outcome (List TorrentFile × ℤ)
files_loop max_path empty total = ok ([], total)
files_loop max_path (node n ns) total = do
  (f, total') ← parse_one max_path n total
  (fs, sum) ← files_loop max_path ns total'
  ok (f ∷ fs, sum)

-- `memset(torrent, 0, sizeof(*torrent))`
abbrev pub zero_file : TorrentFile
zero_file = record { file_length = pos 0; path = []; md5sum = none }

-- What is common to both types, ahead of the files.
abbrev pub fields : List ℕ → List ℕ → Option (List ℕ) → Parsed
fields info_hash announce comment = record {
  info_hash = info_hash;
  announce = announce;
  comment = comment;
  type = multifile;
  piece_length = 0;
  pieces = [];
  num_pieces = 0;
  left = pos 0;
  tfp = zero_file;
  name = [];
  files = [];
  total_length = pos 0;
  created_by = none;
  creation_date = pos 0;
}

-- The fields that both types have: the name, the length of a piece, the digests and the number of pieces.
abbrev pub parse_pieces : Node → Parsed → Outcome (List ℕ × Parsed)
parse_pieces troot t = do
  name_node ← need troot (codes "name")
  (name_len, name) ← as_string name_node
  piece_length_node ← need troot (codes "piece length")
  piece_length ← as_int piece_length_node
  pieces_node ← need troot (codes "pieces")
  (len, pieces) ← as_string pieces_node
  ok (
    name,
    record t {
      piece_length = to_word 32 piece_length;
      pieces = pieces;
      num_pieces = u32 (len / 20);
    },
  )

unfoldable pub parse_single : Node → Parsed → Outcome Parsed
parse_single troot t = do
  length_node ← need troot (codes "length")
  n ← as_int length_node
  (path, t') ← parse_pieces troot t
  md5sum ← string_or_die (node_find troot (codes "md5sum"))
  ok (record t' {
    type = singlefile;
    left = n;
    tfp = record { file_length = n; path = path; md5sum = md5sum };
  })

unfoldable pub parse_multi : ℕ → Node → Node → Parsed → Outcome Parsed
parse_multi max_path troot filenode t = do
  (name, t') ← parse_pieces troot t
  (files, total) ← files_loop max_path (children filenode) (pos 0)
  ok (record t' {
    type = multifile;
    name = name;
    files = files;
    total_length = total;
    left = total;
  })

abbrev pub parse_body : ℕ → Node → Parsed → Outcome Parsed
parse_body max_path troot t = elim (node_find troot (codes "files")) [
  | none ↦ parse_single troot t
  | some filenode ↦ parse_multi max_path troot filenode t
]

-- A yyparse that fails stops the process.
abbrev pub parsed_root : Outcome (Option (Node × Parser)) → Outcome (Node × Parser)
parsed_root (ok (some r)) = ok r
parsed_root (ok none) = die
parsed_root die = die
parsed_root fault = fault

module _ (sha1 : List ℕ → List ℕ) (max_path : ℕ) where
  -- What is read out of the tree. The file is loaded a second time for the hash.
  unfoldable pub parse_tree : List (List ℕ) → Node → Outcome Parsed
  parse_tree reads troot = do
    info ← need troot (codes "info")
    info_hash ← parse_infohash sha1 reads (end_of info)
    announce_node ← need troot (codes "announce")
    (announce_len, announce) ← as_string announce_node
    comment ← string_if (node_find troot (codes "comment"))
    t ← parse_body max_path troot (fields info_hash announce comment)
    created_by ← string_if (node_find troot (codes "created by"))
    creation_date ← int_if (node_find troot (codes "creation date"))
    ok (record t { created_by = created_by; creation_date = creation_date })

  unfoldable pub parse_file :
      (List ℕ → Option ℤ) → List (List ℕ) → Parser → Outcome (Parsed × Parser)
  parse_file strtonum reads p = do
    b ← buf_load (length (flatten reads)) reads false
    (troot, p') ← parsed_root (benc_parse_buf strtonum b root_create p)
    t ← parse_tree reads troot
    ok (t, p')
