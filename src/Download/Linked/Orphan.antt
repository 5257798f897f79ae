-- ===== src/Download/Linked/Orphan.antt =====
-- The loops of network.c that part a peer from its downloads: that of network_peer_free, and that of a
-- CHOKE message.
use unworkable.Common.{
  ℕ, ◌≡◌, ◌≢◌, refl, ap, sym, ◌∙◌, List, [], ◌∷◌, true, not, ◌&&◌, Option, none, some, arith, ◌==◌,
  if◌then◌else◌, ok, Bool-cases, inl, inr,
}
use mathlib.Core.Path.{subst}
use unworkable.Index.{RbTree}
use unworkable.Session.{PieceDl, Peer, Session}
use unworkable.Session.Store.{◌>>=◌, >>=-ok, has, unlink, update}
use unworkable.Download.{piece_dl_free, orphan_or_free, orphan_or_free_all, peer_free}
use unworkable.Download.Linked.{own_of, queue, own, Once, Linked}
use unworkable.Download.Linked.Free.{Without-Linked, piece_dl_free_orphan, own-Once_side}

module _ {rb : RbTree} (s : Session rb) (p pd : ℕ) (v : PieceDl) (w : Peer) where
  -- The session in which the download has no peer, and the peer's queue is `ds`.
  abbrev pub parted : List ℕ → Session rb
  parted ds = record s {
    dl = update s.dl pd (some (record v { pc = none }));
    peer = update s.peer p (some (record w { piece_dls = ds }));
  }

  module _ (linked : Linked s) (there : s.dl pd ≡ some v) (peer : s.peer p ≡ some w) (ds : List ℕ)
      (ds_once : Once ds) (kept : (a : ℕ) → has a ds ≡ (has a w.piece_dls && not (a == pd)))
      (mine : has pd w.piece_dls ≡ true) where
    -- The download stands in the peer's queue, and so in no other.
    own-parted : (r d : ℕ) → has d (own (parted ds) r) ≡ (has d (own s r) && not (d == pd))
    own-parted r d = elim (Bool-cases (has pd (own s r))) [
      | inl found ↦
          let (v', e, c) = linked.owned r pd found in
          let (v'', e', c') = linked.owned p pd (ground arith) in
          let same : r ≡ p = ground arith in ground (arith, kept d)
      | inr out ↦ ground (arith, kept d)
    ]

    indexed-parted :
        (i o d : ℕ)
        → has d (queue s i o) ≡ true
        → (v' : PieceDl) × ((parted ds).dl d ≡ some v') × (v'.idx ≡ i) × (v'.off ≡ o)
    indexed-parted i o d h =
        let (v', e, ei, eo) = linked.indexed i o d h in
        elim (Bool-cases (d == pd)) [
          | inl same ↦ (record v { pc = none }, ground arith, ground arith, ground arith)
          | inr other ↦ (v', ground arith, ei, eo)
        ]

    owned-parted :
        (q d : ℕ)
        → has d (own (parted ds) q) ≡ true
        → (v' : PieceDl) × ((parted ds).dl d ≡ some v') × (v'.pc ≡ some q)
    owned-parted q d h =
        let (v', e, c) = linked.owned q d (ground (arith, own-parted q d)) in
        (v', ground (arith, own-parted q d), c)

    pub parted-Linked : Linked (parted ds)
    parted-Linked = record {
      live = λ d v' e. ground (arith, linked.live d v', linked.live d v);
      indexed = indexed-parted;
      once = linked.once;
      full = linked.full;
      assigned = λ d q v' e c. ground (arith, own-parted q d, linked.assigned d q v');
      owned = owned-parted;
      own_once = own-Once_side s p _ linked.own_once ds_once;
      room = λ d v' e. ground (arith, linked.room d v', linked.room d v);
    }

  orphan_run :
      s.dl pd ≡ some v
      → s.peer p ≡ some w
      → (ds : List ℕ) → unlink pd w.piece_dls ≡ some ds
      → orphan_or_free p pd s
        ≡ (if not (v.len == v.bytes) then piece_dl_free pd (parted ds) else ok (tt, parted ds))
  unfolding orphan_or_free
  orphan_run there peer ds out = ground arith

-- What the loop needs of a session, with `ds` the peer's queue.
record Owns {rb : RbTree} (s : Session rb) (p : ℕ) (ds : List ℕ) : Type 0 where
  linked : Linked s
  there : (w : Peer) × (s.peer p ≡ some w) × (w.piece_dls ≡ ds)

pub unlink_first : (pd : ℕ) (ds : List ℕ) → unlink pd (pd ∷ ds) ≡ some ds
unlink_first pd ds = ground arith

pub kept_first :
    (pd : ℕ) (ds : List ℕ)
    → Once (pd ∷ ds)
    → (a : ℕ) → has a ds ≡ (has a (pd ∷ ds) && not (a == pd))
kept_first pd ds once a = ground (arith, once.0)

module _ {rb : RbTree} (s : Session rb) (p pd : ℕ) (ds : List ℕ) (w : Peer) (v : PieceDl) where
  -- One round of the loop takes the first download out of the peer's queue.
  orphan_or_free_lem :
      Linked s
      → s.dl pd ≡ some v
      → s.peer p ≡ some w
      → w.piece_dls ≡ pd ∷ ds
      → Once (pd ∷ ds)
      → (s' : Session rb) × (orphan_or_free p pd s ≡ ok (tt, s')) × Owns s' p ds
  orphan_or_free_lem linked there peer list once =
      let s1 = parted s p pd v w ds in
      let run = orphan_run s p pd v w there peer ds (rw list (unlink_first pd ds)) in
      let linked1 : Linked s1 =
        parted-Linked s p pd v w linked there peer ds once.1 (rw list (kept_first pd ds once))
          (ground arith) in
      let at_p : s1.peer p ≡ some (record w { piece_dls = ds }) = ground arith in
      elim (Bool-cases (v.len == v.bytes)) [
        | inl complete ↦ (
          s1,
          rw (run, complete),
          record { linked = linked1; there = (record w { piece_dls = ds }, at_p, refl) },
        )
        | inr open_ ↦
            let (s2, freed, w2, peers) =
              piece_dl_free_orphan s1 pd (record v { pc = none }) linked1 (ground arith) refl in
            (
              s2,
              rw (run, open_) freed,
              record {
                linked = Without-Linked pd linked1 w2;
                there = (record w { piece_dls = ds }, ap (λ f. f p) peers ∙ at_p, refl);
              },
            )
      ]

module _ {rb : RbTree} (p : ℕ) where
  orphan_or_free_all_lem :
      (ds : List ℕ) (s : Session rb)
      → Owns s p ds
      → (s' : Session rb) × (orphan_or_free_all p ds s ≡ ok (tt, s')) × Owns s' p []
  unfolding orphan_or_free_all
  orphan_or_free_all_lem [] s o = (s, refl, o)
  orphan_or_free_all_lem (pd ∷ ds) s o =
      let (w, peer, list) = o.there in
      let own_list : own s p ≡ pd ∷ ds = ap own_of peer ∙ list in
      let (v, there, c) = o.linked.owned p pd (rw own_list (ground arith)) in
      let once : Once (pd ∷ ds) = subst Once own_list (o.linked.own_once p) in
      let (s1, run, o1) = orphan_or_free_lem s p pd ds w v o.linked there peer list once in
      let (s2, runs, o2) = orphan_or_free_all_lem ds s1 o1 in
      (s2, >>=-ok (orphan_or_free p pd) _ s run ∙ runs, o2)

-- A change of the peers that leaves their queues as they are.
pub same_queues-Linked :
    {rb : RbTree} (s : Session rb) (peers : ℕ → Option Peer)
    → ((q : ℕ) → own_of (peers q) ≡ own s q)
    → Linked s
    → Linked (record s { peer = peers })
same_queues-Linked s peers same linked = record {
  live = linked.live;
  indexed = linked.indexed;
  once = linked.once;
  full = linked.full;
  assigned = λ d q v e c. ground (arith, same q, linked.assigned d q v);
  owned = λ q d h. linked.owned q d (ground (arith, same q));
  own_once = λ q. subst Once (sym (same q)) (linked.own_once q);
  room = linked.room;
}

-- The peer's own store is given back last.
module _ {rb : RbTree} (s : Session rb) (p : ℕ) where
  abbrev gone : Session rb
  gone = record s { peer = update s.peer p none }

  gone-Linked : Linked s → own s p ≡ [] → Linked gone
  gone-Linked linked empty = same_queues-Linked s (update s.peer p none) (λ q. ground arith) linked

freed_run :
    {rb : RbTree} (s : Session rb) (p : ℕ) (w : Peer) (s1 : Session rb)
    → s.peer p ≡ some w
    → orphan_or_free_all p w.piece_dls s ≡ ok (tt, s1)
    → peer_free p s ≡ ok (tt, gone s1 p)
unfolding peer_free
freed_run s p w s1 peer run = rw (peer, run, ◌>>=◌)

-- network_peer_free is defined on linked queues, for a peer that is there. Afterwards they are still linked, the peer is gone and
-- no download points to it.
pub peer_free-Linked :
    {rb : RbTree} (s : Session rb) (p : ℕ) {w : Peer}
    → Linked s
    → s.peer p ≡ some w
    → (s' : Session rb) × (peer_free p s ≡ ok (tt, s'))
      × Linked s'
      × (s'.peer p ≡ none)
      × ((d : ℕ) (v : PieceDl) → s'.dl d ≡ some v → v.pc ≢ some p)
peer_free-Linked s p {w} linked peer =
    let (s1, run, o) =
      orphan_or_free_all_lem p w.piece_dls s
        (record { linked = linked; there = (w, peer, refl) }) in
    let (w1, peer1, list) = o.there in
    let empty : own s1 p ≡ [] = ap own_of peer1 ∙ list in
    (
      gone s1 p,
      freed_run s p w s1 peer run,
      gone-Linked s1 p o.linked empty,
      ground arith,
      λ d v e c. ground (arith, o.linked.assigned d p v e c),
    )
