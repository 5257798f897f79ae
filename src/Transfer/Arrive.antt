-- ===== src/Transfer/Arrive.antt =====
-- network_peer_read_piece of network.c: where a block goes that a peer has sent.
use unworkable.Common.{
  ℕ, ◌+◌, ◌<◌, ◌≡◌, ◌≢◌, refl, List, [], true, Option, some, ok, ◌==◌, arith, Bool-cases, inl, inr,
  Option-cases, u64, length, set, get_elem?, get_elem?-set_self, get_elem?-set_ne, u32,
}
use mathlib.Core.Path.{subst}
use unworkable.Common.Slices.{flatten, put}
use unworkable.Index.{RbTree}
use unworkable.Torrent.{Piece}
use unworkable.Torrent.Block.{block_write}
use unworkable.Torrent.Block.Write.{block_write-put}
use unworkable.Torrent.Pieces.Find.{Arrayed, piece_find_lem}
use unworkable.Torrent.Pieces.{piece_find}
use unworkable.Session.{PieceDl, Peer, Session}
use unworkable.Session.Store.{◌>>=◌, has, update}
use unworkable.Download.{piece_dl_find}
use unworkable.Download.Linked.{Linked, queue, own}
use unworkable.Download.Linked.Find.{Found, Found-some, piece_dl_find-queue}
use unworkable.Download.Linked.Orphan.{same_queues-Linked}
use unworkable.Transfer.{peer_read_piece, arrive}

module _ {rb : RbTree} (s : Session rb) (pd idx off : ℕ) (d : List ℕ) (tpp : Piece)
    (v : PieceDl) where
  abbrev filled : PieceDl
  filled = record v { bytes = u32 (v.bytes + length d) }

  -- The session in which the download has got its bytes, and the piece.
  abbrev counted : Session rb
  counted = record s {
    dl = update s.dl pd (some filled);
    tp = record (s.tp) {
      piece_array =
          set s.tp.piece_array idx (record tpp { mmaps = block_write tpp.mmaps off (length d) d });
      downloaded = s.tp.downloaded + length d;
    };
  }

  indexed-counted :
      Linked s
      → s.dl pd ≡ some v
      → (i o a : ℕ) → has a (queue s i o) ≡ true
      → (v' : PieceDl) × (counted.dl a ≡ some v') × (v'.idx ≡ i) × (v'.off ≡ o)
  indexed-counted linked there i o a h =
      let (v', e, ei, eo) = linked.indexed i o a h in
      elim (Bool-cases (a == pd)) [
        | inl same ↦ (filled, ground arith, ground arith, ground arith)
        | inr other ↦ (v', ground arith, ei, eo)
      ]

  owned-counted :
      Linked s
      → s.dl pd ≡ some v
      → (q a : ℕ) → has a (own s q) ≡ true
      → (v' : PieceDl) × (counted.dl a ≡ some v') × (v'.pc ≡ some q)
  owned-counted linked there q a h =
      let (v', e, c) = linked.owned q a h in
      elim (Bool-cases (a == pd)) [
        | inl same ↦ (filled, ground arith, ground arith)
        | inr other ↦ (v', ground arith, c)
      ]

  counted-Linked : Linked s → s.dl pd ≡ some v → Linked counted
  counted-Linked linked there = record {
    live = λ a v' e. ground (arith, linked.live a v', linked.live pd v);
    indexed = indexed-counted linked there;
    once = linked.once;
    full = linked.full;
    assigned = λ a q v' e c. ground (arith, linked.assigned a q v', linked.assigned pd q v);
    owned = owned-counted linked there;
    own_once = linked.own_once;
    room = λ a v' e. ground (arith, linked.room a v', linked.room pd v);
  }

-- The session after the peer's count.
module _ {rb : RbTree} (s : Session rb) (p pd idx off : ℕ) (d : List ℕ) (tpp : Piece) (v : PieceDl)
    (w : Peer) where
  abbrev arrived : Session rb
  arrived = record (counted s pd idx off d tpp v) {
    peer = update s.peer p (some (record w { totalrx = u64 (w.totalrx + length d) }));
  }

  arrived-Linked : Linked s → s.dl pd ≡ some v → s.peer p ≡ some w → Linked arrived
  arrived-Linked linked there peer =
      same_queues-Linked (counted s pd idx off d tpp v) _ (λ q. ground arith)
        (counted-Linked s pd idx off d tpp v linked there)

  arrive_run :
      s.dl pd ≡ some v → s.peer p ≡ some w → arrive p idx off d tpp (some pd) s ≡ ok (tt, arrived)
  arrive_run there peer = ground arith

  read_run :
      {r : Option ℕ}
      → r ≡ some pd
      → piece_find s.tp idx ≡ ok tpp
      → piece_dl_find (some p) idx off s ≡ ok (r, s)
      → s.dl pd ≡ some v
      → s.peer p ≡ some w
      → peer_read_piece p idx off d s ≡ ok (tt, arrived)
  unfolding peer_read_piece
  read_run {r} here found run there peer = rw (found, run, here, ◌>>=◌) (arrive_run there peer)

-- On linked queues, with a descriptor for each piece and a peer that is there, a block that arrives for a piece and an offset which are being downloaded is copied to its place among the
-- bytes of the piece, the descriptors of the other pieces stay, and its length is added to what has been
-- downloaded; the queues are linked as before.
pub peer_read_piece-put :
    {rb : RbTree} (s : Session rb) (p idx off : ℕ) (d : List ℕ) {w : Peer}
    → Linked s
    → Arrayed s.tp
    → idx < s.tp.num_pieces
    → s.peer p ≡ some w
    → queue s idx off ≢ []
    → (s' : Session rb) × (tpp : Piece) × (tpp' : Piece) × (peer_read_piece p idx off d s
        ≡ ok (tt, s'))
      × Linked s'
      × (get_elem? s.tp.piece_array idx ≡ some tpp)
      × (get_elem? s'.tp.piece_array idx ≡ some tpp')
      × (flatten tpp'.mmaps ≡ put off d (flatten tpp.mmaps))
      × ((i : ℕ) → idx ≢ i → get_elem? s'.tp.piece_array i ≡ get_elem? s.tp.piece_array i)
      × (s'.tp.downloaded ≡ s.tp.downloaded + length d)
peer_read_piece-put s p idx off d {w} linked v inside peer wanted =
    let (tpp, at, found) = piece_find_lem s.tp v idx inside in
    let (r, run, here, none_there) =
      piece_dl_find-queue s (some p) idx off linked (λ q e. (w, ground arith)) in
    elim (Option-cases r) [
      | inl missing ↦ absurd (wanted (none_there missing))
      | inr (pd, e) ↦
          let (v', there, _, _) =
            linked.indexed idx off pd
              (Found-some s idx off pd (subst (λ o. Found s idx off o) e here)) in
          let tpp' : Piece = record tpp { mmaps = block_write tpp.mmaps off (length d) d } in
          (
            arrived s p pd idx off d tpp v' w,
            tpp,
            tpp',
            read_run s p pd idx off d tpp v' w e found run there peer,
            arrived-Linked s p pd idx off d tpp v' w linked there peer,
            at,
            get_elem?-set_self s.tp.piece_array idx tpp' (omega (arith, v.described)),
            block_write-put tpp.mmaps off d,
            λ i ne. get_elem?-set_ne s.tp.piece_array idx i tpp' ne,
            refl,
          )
    ]
