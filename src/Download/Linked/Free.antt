-- ===== src/Download/Linked/Free.antt =====
-- network_piece_dl_free of network.c: it is defined on linked queues, and keeps them linked.
use unworkable.Common.{
  ℕ, ◌≡◌, ◌≢◌, refl, List, [], ◌∷◌, true, false, not, ◌&&◌, Option, none, some, arith, ◌==◌,
  if◌then◌else◌, ok, Bool-cases, Option-cases, inl, inr,
}
use unworkable.Index.{RbTree}
use unworkable.Session.{PieceDl, Peer, Session}
use unworkable.Session.Store.{has, unlink, update}
use unworkable.Download.{piece_dl_free}
use unworkable.Download.Linked.{or_empty, own_of, queue, own, Once, Linked, unlink_lem}

-- A session from which one download is gone: from its block's queue, its peer's and the store.
pub record Without {rb : RbTree} (pd : ℕ) (s s' : Session rb) : Type 0 where
  pub gone : (d : ℕ) → s'.dl d ≡ (if d == pd then none else s.dl d)
  pub same_room : s'.fresh_dl ≡ s.fresh_dl
  pub unqueued : (i o d : ℕ) → has d (queue s' i o) ≡ (has d (queue s i o) && not (d == pd))
  pub unowned : (q d : ℕ) → has d (own s' q) ≡ (has d (own s q) && not (d == pd))
  pub once' : (i o : ℕ) → Once (queue s' i o)
  pub full' : (i o : ℕ) → rb.find s'.index i o ≢ some []
  pub own_once' : (q : ℕ) → Once (own s' q)

module _ {rb : RbTree} {s s' : Session rb} (pd : ℕ) (linked : Linked s) (w : Without pd s s') where
  indexed-Without :
      (i o d : ℕ)
      → has d (queue s' i o) ≡ true
      → (v : PieceDl) × (s'.dl d ≡ some v) × (v.idx ≡ i) × (v.off ≡ o)
  indexed-Without i o d h =
      let (v, e, ei, eo) = linked.indexed i o d (ground (arith, w.unqueued i o d)) in
      (v, ground (arith, w.gone d, w.unqueued i o d), ei, eo)

  owned-Without :
      (q d : ℕ) → has d (own s' q) ≡ true → (v : PieceDl) × (s'.dl d ≡ some v) × (v.pc ≡ some q)
  owned-Without q d h =
      let (v, e, c) = linked.owned q d (ground (arith, w.unowned q d)) in
      (v, ground (arith, w.gone d, w.unowned q d), c)

  pub Without-Linked : Linked s'
  Without-Linked = record {
    live = λ d v e. ground (arith, w.gone d, w.unqueued v.idx v.off d, linked.live d v);
    indexed = indexed-Without;
    once = w.once';
    full = w.full';
    assigned = λ d q v e c. ground (arith, w.gone d, w.unowned q d, linked.assigned d q v);
    owned = owned-Without;
    own_once = w.own_once';
    room = λ d v e. ground (arith, w.gone d, w.same_room, linked.room d v);
  }

-- A node is there as long as its queue has a member.
abbrev pub node_of : List ℕ → Option (List ℕ)
node_of [] = none
node_of (x ∷ l) = some (x ∷ l)

abbrev pub Peers : Type 0
Peers = ℕ → Option Peer

module _ {rb : RbTree} (s : Session rb) (pd : ℕ) (v : PieceDl) where
  abbrev left_index : List ℕ → rb.Tree → rb.Tree
  left_index [] t = rb.remove t v.idx v.off
  left_index (x ∷ l) t = t

  -- The session after the call: `l` is left of the block's queue, and `peers` are the peers.
  abbrev pub without : List ℕ → Peers → Session rb
  without l peers = record s {
    dl = update s.dl pd none;
    index = left_index l (rb.store s.index v.idx v.off l);
    peer = peers;
  }

  find-without :
      (l : List ℕ) (peers : Peers) (i o : ℕ)
      → rb.find (without l peers).index i o
        ≡ (if v.idx == i && v.off == o then node_of l else rb.find s.index i o)
  find-without [] peers i o = ground (
    arith,
    rb.find-store s.index v.idx v.off [] i o,
    rb.find-remove (rb.store s.index v.idx v.off []) v.idx v.off i o,
  )
  find-without (x ∷ l) peers i o = rb.find-store s.index v.idx v.off (x ∷ l) i o

  or_empty-node_of : (l : List ℕ) → or_empty (node_of l) ≡ l
  or_empty-node_of [] = refl
  or_empty-node_of (x ∷ l) = refl

  node_of-ne : (l : List ℕ) → node_of l ≢ some []
  node_of-ne [] e = cc
  node_of-ne (x ∷ l) e = cc

  queue-without :
      (l : List ℕ) (peers : Peers) (i o : ℕ)
      → queue (without l peers) i o ≡ (if v.idx == i && v.off == o then l else queue s i o)
  queue-without l peers i o = ground (arith, find-without l peers i o, or_empty-node_of l)

  module _ (linked : Linked s) (there : s.dl pd ≡ some v) where
    elsewhere : (i o : ℕ) → (v.idx == i && v.off == o) ≡ false → has pd (queue s i o) ≡ false
    elsewhere i o h = elim (Bool-cases (has pd (queue s i o))) [
      | inl found ↦ let (v', e, ei, eo) = linked.indexed i o pd found in ground arith
      | inr out ↦ out
    ]

    has-without :
        (l : List ℕ) (peers : Peers)
        → ((a : ℕ) → has a l ≡ (has a (queue s v.idx v.off) && not (a == pd)))
        → (i o d : ℕ) → has d (queue (without l peers) i o) ≡ (has d (queue s i o) && not (d == pd))
    has-without l peers kept i o d = elim (Bool-cases (v.idx == i && v.off == o)) [
      | inl here ↦ ground (arith, queue-without l peers i o, kept d)
      | inr apart ↦ ground (arith, queue-without l peers i o, elsewhere i o apart)
    ]

    -- The block's side of the removal is right, and what is left to show is the peer's.
    without-Without :
        (l : List ℕ) (peers : Peers)
        → Once l
        → ((a : ℕ) → has a l ≡ (has a (queue s v.idx v.off) && not (a == pd)))
        → ((q d : ℕ) → has d (own_of (peers q)) ≡ (has d (own s q) && not (d == pd)))
        → ((q : ℕ) → Once (own_of (peers q)))
        → Without pd s (without l peers)
    without-Without l peers l_once kept owners owners_once = record {
      gone = λ d. refl;
      same_room = refl;
      unqueued = has-without l peers kept;
      unowned = owners;
      once' = λ i o. elim (Bool-cases (v.idx == i && v.off == o)) [
        | inl here ↦ rw (queue-without l peers i o, here) l_once
        | inr apart ↦ rw (queue-without l peers i o, apart) (linked.once i o)
      ];
      full' = λ i o. ground (arith, find-without l peers i o, node_of-ne l, linked.full i o);
      own_once' = owners_once;
    }

    -- A download that no peer works on stands in no peer's queue.
    orphaned : v.pc ≡ none → (q d : ℕ) → has d (own s q) ≡ (has d (own s q) && not (d == pd))
    orphaned free q d = elim (Bool-cases (has pd (own s q))) [
      | inl found ↦ let (v', e, c) = linked.owned q pd found in absurd (ground arith)
      | inr out ↦ ground arith
    ]

    -- The run, by what is left of the block's queue.
    free_orphan :
        v.pc ≡ none
        → {m : List ℕ} (l : List ℕ) → rb.find s.index v.idx v.off ≡ some m
        → unlink pd m ≡ some l
        → piece_dl_free pd s ≡ ok (tt, without l s.peer)
    unfolding piece_dl_free
    free_orphan free [] at e = ground arith
    free_orphan free (x ∷ l) at e = ground arith

    free_owned :
        {q : ℕ} {w : Peer}
        → v.pc ≡ some q
        → s.peer q ≡ some w
        → {m ds : List ℕ} (l : List ℕ) → rb.find s.index v.idx v.off ≡ some m
        → unlink pd m ≡ some l
        → unlink pd w.piece_dls ≡ some ds
        → piece_dl_free pd s
          ≡ ok (tt, without l (update s.peer q (some (record w { piece_dls = ds }))))
    unfolding piece_dl_free
    free_owned owned peer [] at e f = ground arith
    free_owned owned peer (x ∷ l) at e f = ground arith

    -- The nodes that the removal works on are there.
    block_node : (m : List ℕ) × (rb.find s.index v.idx v.off ≡ some m)
    block_node = elim (Option-cases (rb.find s.index v.idx v.off)) [
      | inl missing ↦ absurd (ground (arith, linked.live pd v there))
      | inr found ↦ found
    ]

    -- The queues of the peers, where one of them works on the download.
    owner_side :
        {q : ℕ} {w : Peer}
        → v.pc ≡ some q
        → s.peer q ≡ some w
        → (ds : List ℕ) → ((a : ℕ) → has a ds ≡ (has a w.piece_dls && not (a == pd)))
        → (r d : ℕ)
        → has d (own_of (update s.peer q (some (record w { piece_dls = ds })) r))
          ≡ (has d (own s r) && not (d == pd))
    owner_side {q} owned peer ds kept r d = elim (Bool-cases (has pd (own s r))) [
      | inl found ↦
          let (v', e, c) = linked.owned r pd found in
          let same : r ≡ q = ground arith in ground (arith, kept d)
      | inr out ↦ ground (arith, kept d)
    ]

    owner_peer : (q : ℕ) → v.pc ≡ some q → (w : Peer) × (s.peer q ≡ some w)
    owner_peer q c = elim (Option-cases (s.peer q)) [
      | inl missing ↦ absurd (ground (arith, linked.assigned pd q v there c))
      | inr found ↦ found
    ]

pub own-Once_side :
    {rb : RbTree} (s : Session rb) (q : ℕ) (w : Peer)
    → ((r : ℕ) → Once (own s r))
    → Once w.piece_dls
    → (r : ℕ) → Once (own_of (update s.peer q (some w) r))
own-Once_side s q w all one r = elim (Bool-cases (r == q)) [
  | inl here ↦ rw here one
  | inr apart ↦ rw apart (all r)
]

-- On linked queues the removal of a download that is allocated is defined, frees it, and takes it and
-- nothing else out of the queues.
pub piece_dl_free-Without :
    {rb : RbTree} (s : Session rb) (pd : ℕ) (v : PieceDl)
    → Linked s
    → s.dl pd ≡ some v
    → (s' : Session rb) × (piece_dl_free pd s ≡ ok (tt, s')) × Without pd s s'
piece_dl_free-Without s pd v linked there =
    let (m, at) = block_node s pd v linked there in
    let (l, e, l_once, kept) =
      unlink_lem pd m (ground (arith, linked.live pd v there))
        (ground (arith, linked.once v.idx v.off)) in
    let kept' : (a : ℕ) → has a l ≡ (has a (queue s v.idx v.off) && not (a == pd)) =
      λ a. ground (arith, kept a) in
    elim (Option-cases v.pc) [
      | inl free ↦ (
        without s pd v l s.peer,
        free_orphan s pd v linked there free l at e,
        without-Without s pd v linked there l s.peer l_once kept'
            (orphaned s pd v linked there free) linked.own_once,
      )
      | inr (q, c) ↦
          let (w, peer) = owner_peer s pd v linked there q c in
          let (ds, f, ds_once, ds_kept) =
            unlink_lem pd w.piece_dls (ground (arith, linked.assigned pd q v there c))
              (ground (arith, linked.own_once q)) in
          (
            without s pd v l (update s.peer q (some (record w { piece_dls = ds }))),
            free_owned s pd v linked there c peer l at e f,
            without-Without s pd v linked there l _ l_once kept'
                (owner_side s pd v linked there c peer ds ds_kept)
                (own-Once_side s q _ linked.own_once ds_once),
          )
    ]

-- The same of a download that no peer works on: the peers stay as they are.
pub piece_dl_free_orphan :
    {rb : RbTree} (s : Session rb) (pd : ℕ) (v : PieceDl)
    → Linked s
    → s.dl pd ≡ some v
    → v.pc ≡ none
    → (s' : Session rb) × (piece_dl_free pd s ≡ ok (tt, s')) × Without pd s s' × (s'.peer ≡ s.peer)
piece_dl_free_orphan s pd v linked there free =
    let (m, at) = block_node s pd v linked there in
    let (l, e, l_once, kept) =
      unlink_lem pd m (ground (arith, linked.live pd v there))
        (ground (arith, linked.once v.idx v.off)) in
    (
      without s pd v l s.peer,
      free_orphan s pd v linked there free l at e,
      without-Without s pd v linked there l s.peer l_once (λ a. ground (arith, kept a))
          (orphaned s pd v linked there free) linked.own_once,
      refl,
    )
