-- ===== src/Download.antt =====
-- network.c: piece downloads and uploads. A download stands in the queue of its block, which the index
-- heads, and in that of the peer that works on it.
pub mod Linked
pub mod Listed
use unworkable.Common.{
  ℕ, suc, ◌++◌, List, [], ◌∷◌, Bool, not, ◌&&◌, true, false, Option, none, some, Outcome, ok, fault,
  must, ◌==◌, if◌then◌else◌, sub32,
}
use unworkable.Index.{RbTree}
use unworkable.Session.{PeerState, no_state, PieceDl, PieceUl, Peer, Session, Proc}
use unworkable.Session.Store.{
  update, ◌>>=◌, ◌>>◌, pure, lift, get, get_peer, get_dl, put_peer, put_dl, put_index, unlink,
}

-- `xmalloc` and `memset` of a piece download.
abbrev pub new_dl : {rb : RbTree} → PieceDl → Proc rb ℕ
new_dl v s =
    ok (s.fresh_dl, record s { dl = update s.dl s.fresh_dl (some v); fresh_dl = suc s.fresh_dl })

-- `xfree`
abbrev pub free_dl : {rb : RbTree} → ℕ → Proc rb (Unit {0})
free_dl d s = ok (tt, record s { dl = update s.dl d none })

abbrev pub append_dl : {rb : RbTree} → ℕ → ℕ → Proc rb (Unit {0})
append_dl p d = do v ← get_peer p; put_peer p (record v { piece_dls = v.piece_dls ++ (d ∷ []) })

abbrev pub unlink_dl : {rb : RbTree} → ℕ → ℕ → Proc rb (Unit {0})
unlink_dl p d = do
  v ← get_peer p
  ds ← lift (must (unlink d v.piece_dls))
  put_peer p (record v { piece_dls = ds })

-- A fresh peer is choked, and chokes.
abbrev pub fresh_state : PeerState
fresh_state = record no_state { choked = true; amchoking = true }

abbrev pub zero_peer : Peer
zero_peer = record {
  addr = [];
  port = [];
  connfd = 0;
  state = fresh_state;
  rxpending = 0;
  rxmsglen = 0;
  rxmsg = none;
  bitfield = none;
  id = [];
  info_hash = [];
  lastrecv = 0;
  connected = 0;
  lastsend = 0;
  totalrx = 0;
  totaltx = 0;
  dl_queue_len = 0;
  piece_dls = [];
  piece_uls = [];
}

-- The queue that the node of a block heads, with a new download at its end.
abbrev pub queue_with : Option (List ℕ) → ℕ → List ℕ
queue_with none d = d ∷ []
queue_with (some l) d = l ++ (d ∷ [])

-- The first download of the block, if it has one.
abbrev pub first_of_block : Option (List ℕ) → Option ℕ
first_of_block none = none
first_of_block (some []) = none
first_of_block (some (d ∷ l)) = some d

module _ {rb : RbTree} where
  unfoldable pub peer_create : Proc rb ℕ
  peer_create s = ok (
    s.fresh_peer,
    record s { peer = update s.peer s.fresh_peer (some zero_peer); fresh_peer = suc s.fresh_peer },
  )

  unfoldable pub piece_dl_create : ℕ → ℕ → ℕ → ℕ → Proc rb ℕ
  piece_dl_create p idx off len = do
    pd ← new_dl (record { pc = some p; idx = idx; off = off; len = len; bytes = 0 })
    s ← get
    put_index (rb.store s.index idx off (queue_with (rb.find s.index idx off) pd))
    append_dl p pd
    pure pd

  -- The removal from the queue of the block.
  abbrev pub unlink_block : PieceDl → ℕ → Option (List ℕ) → Proc rb (Option (List ℕ))
  unlink_block v pd none = pure none
  unlink_block v pd (some l) = do
    l' ← lift (must (unlink pd l))
    s ← get
    put_index (rb.store s.index v.idx v.off l')
    pure (some l')

  abbrev pub unlink_owner : Option ℕ → ℕ → Proc rb (Unit {0})
  unlink_owner none pd = pure tt
  unlink_owner (some p) pd = unlink_dl p pd

  -- A node whose queue is empty is taken out of the tree.
  abbrev pub drop_empty : PieceDl → Option (List ℕ) → Proc rb (Unit {0})
  drop_empty v none = pure tt
  drop_empty v (some (d ∷ l)) = pure tt
  drop_empty v (some []) = do s ← get; put_index (rb.remove s.index v.idx v.off)

  pub piece_dl_free : ℕ → Proc rb (Unit {0})
  piece_dl_free pd = do
    v ← get_dl pd
    s ← get
    res ← unlink_block v pd (rb.find s.index v.idx v.off)
    unlink_owner v.pc pd
    drop_empty v res
    free_dl pd

  -- The search of a peer's own queue.
  unfoldable pub find_own : List ℕ → ℕ → ℕ → Proc rb (Option ℕ)
  find_own [] idx off = pure none
  find_own (d ∷ ds) idx off = do
    v ← get_dl d
    let rest = find_own ds idx off
    if v.off == off && v.idx == idx then pure (some d) else rest

  unfoldable pub find_block : ℕ → ℕ → Proc rb (Option ℕ)
  find_block idx off = do s ← get; pure (first_of_block (rb.find s.index idx off))

  abbrev pub own_queue : Option ℕ → Proc rb (List ℕ)
  own_queue none = pure []
  own_queue (some p) = do v ← get_peer p; pure v.piece_dls

  abbrev pub or_block : Option ℕ → ℕ → ℕ → Proc rb (Option ℕ)
  or_block none idx off = find_block idx off
  or_block (some d) idx off = pure (some d)

  unfoldable pub piece_dl_find : Option ℕ → ℕ → ℕ → Proc rb (Option ℕ)
  piece_dl_find p idx off = do ds ← own_queue p; own ← find_own ds idx off; or_block own idx off

  -- One round of the loop of network_peer_free.
  pub orphan_or_free : ℕ → ℕ → Proc rb (Unit {0})
  orphan_or_free p pd = do
    v ← get_dl pd
    put_dl pd (record v { pc = none })
    unlink_dl p pd
    if not (v.len == v.bytes) then piece_dl_free pd else pure tt

  unfoldable pub orphan_or_free_all : ℕ → List ℕ → Proc rb (Unit {0})
  orphan_or_free_all p [] = pure tt
  orphan_or_free_all p (d ∷ ds) = orphan_or_free p d >> orphan_or_free_all p ds

  -- The buffers, the uploads and the socket go with the peer.
  unfoldable pub peer_free : ℕ → Proc rb (Unit {0})
  peer_free p = do
    v ← get_peer p
    orphan_or_free_all p v.piece_dls
    λ s. ok (tt, record s { peer = update s.peer p none })

  -- The loop of a CHOKE message: the downloads are orphaned, and each counts down the peer's requests.
  unfoldable pub choke_loop : ℕ → List ℕ → Proc rb (Unit {0})
  choke_loop p [] = pure tt
  choke_loop p (d ∷ ds) = do
    v ← get_dl d
    put_dl d (record v { pc = none })
    unlink_dl p d
    w ← get_peer p
    put_peer p (record w { dl_queue_len = sub32 w.dl_queue_len 1 })
    choke_loop p ds

  unfoldable pub piece_ul_enqueue : ℕ → ℕ → ℕ → ℕ → Proc rb (Unit {0})
  piece_ul_enqueue p idx off len = do
    v ← get_peer p
    put_peer p
        (record v { piece_uls = v.piece_uls ++ (record { idx = idx; off = off; len = len } ∷ []) })

  abbrev pub dequeue : ℕ → Peer → List PieceUl → Proc rb (Option PieceUl)
  dequeue p v [] = pure none
  dequeue p v (u ∷ us) = put_peer p (record v { piece_uls = us }) >> pure (some u)

  unfoldable pub piece_ul_dequeue : ℕ → Proc rb (Option PieceUl)
  piece_ul_dequeue p = do v ← get_peer p; dequeue p v v.piece_uls
