-- ===== src/Scheduler/Requests.antt =====
-- scheduler.c: the requests that are kept open with a peer, the upload that is answered, and the requests
-- of the end game.
use unworkable.Common.{
  ℕ, zero, suc, ◌+◌, ◌-◌, ◌/◌, List, [], ◌∷◌, Bool, true, false, not, ◌&&◌, Option, none, some,
  Outcome, ok, fault, must, ltb, leb, if◌then◌else◌, u32, sub32,
}
use unworkable.Index.{RbTree}
use unworkable.Platform.{Platform}
use unworkable.Torrent.Pieces.{piece_find}
use unworkable.Util.{getbit}
use unworkable.Session.{PieceUl, Proc}
use unworkable.Session.Store.{◌>>=◌, ◌>>◌, pure, lift, get, get_peer, get_dl, put_peer}
use unworkable.Download.{find_own, piece_dl_create, piece_ul_dequeue}
use unworkable.Send.{peer_request_block, peer_write_piece}
use unworkable.Transfer.{peer_rxrate}
use unworkable.Scheduler.{block_size}
use unworkable.Scheduler.Gimme.{block_len, piece_gimme}

-- MAX_REQUESTS
abbrev pub max_requests : ℕ
max_requests = 100

-- How many requests are to be added, from the rate of the peer and the requests it has.
unfoldable pub queue_len : ℕ → ℕ → ℕ
queue_len peer_rate dl_queue_len =
    let wanted = u32 peer_rate / 8192 in
    let len =
      if ltb wanted 2 then 2 else if ltb max_requests wanted then max_requests else wanted in
    if ltb len dl_queue_len then 0 else len - dl_queue_len

-- A peer is passed over if it has no bitfield, and if the bit of the piece is set.
abbrev pub passed_over : Option (List ℕ) → ℕ → Outcome Bool
passed_over none i = ok true
passed_over (some bitfield) i = getbit bitfield i

module _ {rb : RbTree} where
  -- The request for a download goes to the peer that it names, and is counted with the one at hand.
  abbrev pub request : ℕ → ℕ → Proc rb (Unit {0})
  request p d = do
    v ← get_dl d
    q ← lift (must v.pc)
    peer_request_block q v.idx v.off v.len
    w ← get_peer p
    put_peer p (record w { dl_queue_len = u32 (w.dl_queue_len + 1) })

  abbrev pub request_if : ℕ → Option ℕ → Proc rb (Unit {0})
  request_if p none = pure tt
  request_if p (some d) = request p d

  abbrev pub answer : ℕ → Option PieceUl → Proc rb (Unit {0})
  answer p none = pure tt
  answer p (some u) = peer_write_piece p u.idx u.off u.len

  unfoldable pub dequeue_uploads : ℕ → Proc rb (Unit {0})
  dequeue_uploads p = piece_ul_dequeue p >>= λ u. answer p u

  -- The blocks of a piece that a peer is not asked for are asked for; out of fuel it is a fault.
  abbrev pub ask : ℕ → ℕ → ℕ → ℕ → Proc rb (Unit {0})
  ask p i len off = piece_dl_create p i off (block_len len off) >>= λ d. request p d

  abbrev pub ask_unless : Option ℕ → Proc rb (Unit {0}) → Proc rb (Unit {0})
  ask_unless none asking = asking
  ask_unless (some d) asking = pure tt

  unfoldable pub ask_loop : ℕ → ℕ → ℕ → ℕ → ℕ → Proc rb (Unit {0})
  ask_loop zero p i len off = lift fault
  ask_loop (suc fuel) p i len off = if leb len off then pure tt else do
    v ← get_peer p
    found ← find_own v.piece_dls i off
    ask_unless found (ask p i len off)
    ask_loop fuel p i len (u32 (off + block_size))

  unfoldable pub ask_peers : List ℕ → ℕ → ℕ → Proc rb (Unit {0})
  ask_peers [] i len = pure tt
  ask_peers (p ∷ ps) i len = do
    v ← get_peer p
    over ← lift (passed_over v.bitfield i)
    if over
        then pure tt
        else if v.state.choked
        then pure tt
        else ask_loop (suc (suc (len / block_size))) p i len 0
    ask_peers ps i len

  unfoldable pub endgame_pieces : ℕ → ℕ → Proc rb (Unit {0})
  endgame_pieces zero i = pure tt
  endgame_pieces (suc left) i = do
    s ← get
    tpp ← lift (piece_find s.tp i)
    if tpp.cksumok then pure tt else ask_peers s.peers i tpp.len
    endgame_pieces left (i + 1)

  unfoldable pub endgame_algorithm : Proc rb (Unit {0})
  endgame_algorithm = do s ← get; endgame_pieces s.tp.num_pieces 0

module _ {rb : RbTree} (platform : Platform) where
  unfoldable pub fill_loop : ℕ → ℕ → Proc rb (Unit {0})
  fill_loop zero p = pure tt
  fill_loop (suc left) p = do
    (pd, hint) ← piece_gimme platform p false
    request_if p pd
    fill_loop left p

  unfoldable pub fill_requests : ℕ → Proc rb (Unit {0})
  fill_requests p = do
    s ← get
    v ← get_peer p
    if not v.state.choked && ltb 0 (sub32 s.tp.num_pieces s.tp.good_pieces)
        then (peer_rxrate p >>= λ rate. fill_loop (queue_len rate v.dl_queue_len) p)
        else pure tt
