-- ===== src/Torrent/Mapping.antt =====
-- torrent_piece_map, torrent_mmap_create, torrent_piece_sync and torrent_piece_unmap of torrent.c. A file
-- is its bytes, and a mapping takes its bytes from the file and gives them back when it is synchronised, as
-- far as the pages that are synchronised go. Descriptors and locks are left out.
pub mod Cut
pub mod Offset
pub mod Bytes
pub mod Sync
use unworkable.Common.{
  ℕ, zero, suc, ◌+◌, ◌-◌, ◌*◌, ◌/◌, ◌%◌, Bool, true, false, not, ◌&&◌, List, [], ◌∷◌, ◌++◌, Option,
  none, some, Outcome, ok, die, fault, must, ◌>>=◌, ◌==◌, ltb, if◌then◌else◌, length, get_elem?,
  set, take, drop, replicate, u32, u64,
}
use unworkable.Common.Slices.{put}
use unworkable.Torrent.{Mmap, TorrentType, multifile, singlefile, Piece, Torrent}
use unworkable.Torrent.Pieces.{piece_find}

-- What a mapping is asked for: a file, an offset in it and a length.
abbrev pub Extent : Type 0
Extent = ℕ × ℕ × ℕ

-- The extents of a piece, and the length that the loop has counted.
abbrev pub Extents : Type 0
Extents = List Extent × ℕ

abbrev pub emit : Extent → Outcome Extents → Outcome Extents
emit e r = r >>= λ p. ok (e ∷ p.0, p.1)

-- What follows when the piece goes on in the next file, `nfl` bytes long, with `len` bytes to go: `next`
-- is the loop at that file, and `after` the loop behind it. `off++` stands at the offset of the piece.
abbrev pub spill :
    ℕ
    → ℕ
    → ℕ
    → ℕ
    → ℕ
    → (ℕ → ℕ → ℕ → Outcome Extents)
    → (ℕ → ℕ → ℕ → Outcome Extents)
    → Outcome Extents
spill k nfl off len tlen next after =
    if ltb nfl len
    then (if nfl == 0
        then next (off + 1) len tlen
        else emit (k, 0, nfl) (after 0 (len - nfl) (tlen + nfl)))
    else if len == 0
    then next (off + 1) len tlen
    else ok ((k, 0, len) ∷ [], tlen + len)

-- The body of the loop at file `k`, `fl` bytes long: `next` is the loop at the next file, and `over` what
-- follows in the branch that goes over to it by itself.
abbrev pub file_step :
    ℕ
    → ℕ
    → ℕ
    → ℕ
    → ℕ
    → (ℕ → ℕ → ℕ → Outcome Extents)
    → (ℕ → ℕ → ℕ → Outcome Extents)
    → Outcome Extents
file_step k fl off len tlen next over =
    if ltb fl off
    then next (off - fl) len tlen
    else if ltb fl len && ltb tlen len
    then (if fl - off == 0
        then next off len tlen
        else emit (k, off, fl - off) (next 0 (len - (fl - off)) (tlen + (fl - off))))
    else if ltb fl (off + len)
    then (if fl == off
        then next 0 len tlen
        else emit (k, off, fl - off) (over off (len - (fl - off)) (tlen + (fl - off))))
    else if ltb off fl
    then (if len == 0 then next off len tlen else ok ((k, off, len) ∷ [], tlen + len))
    else next off len tlen

-- The loop over the files, from file `k` on; `tlen` is `tpp->len`. A next file that is not there is a fault.
pub map_loop : ℕ → List ℕ → ℕ → ℕ → ℕ → Outcome Extents
map_loop k [] off len tlen = ok ([], tlen)
map_loop k (fl ∷ []) off len tlen =
    file_step k fl off len tlen (λ o l t. ok ([], t)) (λ o l t. fault)
map_loop k (fl ∷ (nfl ∷ fls)) off len tlen =
    file_step k fl off len tlen (λ o l t. map_loop (k + 1) (nfl ∷ fls) o l t)
      (λ o l t.
        spill (k + 1) nfl o l t (λ o' l' t'. map_loop (k + 1) (nfl ∷ fls) o' l' t')
          (λ o' l' t'. map_loop (k + 1 + 1) fls o' l' t'))

-- A file that is too short is filled up to a length with zeros.
abbrev pub grow : ℕ → List ℕ → List ℕ
grow n bytes = bytes ++ replicate (n - length bytes) 0

-- The mapping, and the torrent with the file as it is then.
pub mmap_create : Torrent → Extent → Outcome (Mmap × Torrent)
mmap_create tp (k, off, len) = do
  bytes ← must (get_elem? tp.disk k)
  let bytes' = grow (off + len) bytes
  ok (
    take len (drop off bytes'),
    record tp {
      disk = set tp.disk k bytes';
      isnew = if ltb (length bytes) (len + off) then true else tp.isnew;
    },
  )

pub mmaps_create : List Extent → Torrent → Outcome (List Mmap × Torrent)
mmaps_create [] tp = ok ([], tp)
mmaps_create (e ∷ es) tp = do
  (m, tp') ← mmap_create tp e
  (ms, tp'') ← mmaps_create es tp'
  ok (m ∷ ms, tp'')

abbrev pub extents : Torrent → TorrentType → Piece → Outcome Extents
extents tp singlefile tpp = ok ((0, u64 (tp.piece_length * tpp.index), tpp.len) ∷ [], tpp.len)
extents tp multifile tpp = map_loop 0 tp.files (u64 (tp.piece_length * tpp.index)) tpp.len 0

abbrev pub place_of : Extent → ℕ × ℕ
place_of (k, off, len) = (k, off)

abbrev pub places_of : List Extent → List (ℕ × ℕ)
places_of [] = []
places_of (e ∷ es) = place_of e ∷ places_of es

-- `torrent_piece_map(tpp)` for the piece at an index.
pub piece_map : Torrent → ℕ → Outcome Torrent
piece_map tp idx = do
  tpp ← piece_find tp idx
  (es, len) ← extents tp tp.type tpp
  (ms, tp') ← mmaps_create es tp
  ok (record tp' {
    piece_array = set tp'.piece_array idx (record tpp {
      len = len;
      mmaps = tpp.mmaps ++ ms;
      places = tpp.places ++ places_of es;
      mapped = true;
    });
  })

-- How much of a mapping at an offset in a file `msync(aligned_addr, len)` covers. The call starts at the page
-- in which the mapping starts, `off % page_size` bytes ahead of it, and covers each page that begins in `len`
-- bytes from there; `len` is the length of the mapping, without the bytes ahead of it.
abbrev pub synced_len : ℕ → ℕ → ℕ → ℕ
synced_len page_size off len = (len + (page_size - 1)) / page_size * page_size - off % page_size

-- The bytes of a mapping that the call covers are in the file.
abbrev pub sync_one : ℕ → ℕ × ℕ → Mmap → List (List ℕ) → Outcome (List (List ℕ))
sync_one page_size (k, off) m disk = must (get_elem? disk k) >>= λ bytes.
    ok (set disk k (put off (take (synced_len page_size off (length m)) m) bytes))

pub sync_loop : ℕ → List (ℕ × ℕ) → List Mmap → List (List ℕ) → Outcome (List (List ℕ))
sync_loop page_size (p ∷ ps) (m ∷ ms) disk =
    sync_one page_size p m disk >>= λ disk'. sync_loop page_size ps ms disk'
sync_loop page_size [] ms disk = ok disk
sync_loop page_size (p ∷ ps) [] disk = ok disk

pub piece_sync : ℕ → Torrent → ℕ → Outcome Torrent
piece_sync page_size tp idx = do
  tpp ← piece_find tp idx
  disk ← sync_loop page_size tpp.places tpp.mmaps tp.disk
  ok (record tp { disk = disk })

-- `torrent_piece_unmap(tpp)` for the piece at an index. What `munmap` leaves mapped behind the pages that it is
-- called for is not reached any more, and when the system writes it is left out.
pub piece_unmap : ℕ → Torrent → ℕ → Outcome Torrent
piece_unmap page_size tp idx = do
  tpp ← piece_find tp idx
  disk ← sync_loop page_size tpp.places tpp.mmaps tp.disk
  ok (record tp {
    disk = disk;
    piece_array = set tp.piece_array idx (record tpp { mmaps = []; places = []; mapped = false });
  })
