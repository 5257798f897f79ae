-- ===== src/Scheduler.antt =====
-- scheduler.c: which blocks are in the hands of a peer, the end game, and peers that are silent or dead.
pub mod Endgame
pub mod Rarity
pub mod Gimme
pub mod Requests
pub mod Choking
pub mod Tick
pub mod Reads
pub mod Linked
pub mod Bounds
pub mod Idle
pub mod Spared
pub mod Unchoked
pub mod Reap
use unworkable.Common.{
  ℕ, zero, suc, ◌+◌, ◌-◌, ◌/◌, ◌^◌, List, [], ◌∷◌, Bool, true, false, not, ◌&&◌, ◌||◌, Option, none,
  some, Outcome, fault, must, ◌==◌, leb, if◌then◌else◌, u32, sub32,
}
use unworkable.Index.{RbTree}
use unworkable.Torrent.{Piece}
use unworkable.Torrent.Pieces.{piece_find}
use unworkable.Session.{killed, PieceDl, Peer, Session, Proc}
use unworkable.Session.Store.{◌>>=◌, ◌>>◌, pure, lift, get, get_peer, get_dl, put_peer, unlink}
use unworkable.Download.{piece_dl_find, peer_free}

-- BLOCK_SIZE and PEER_COMMS_THRESHOLD
abbrev pub block_size : ℕ
block_size = 16384

abbrev pub comms_threshold : ℕ
comms_threshold = 300

-- `pd->bytes != pd->len && pd->pc == NULL`
abbrev pub abandoned : PieceDl → Bool
abandoned v = elim v.pc [ none ↦ not (v.bytes == v.len) | some q ↦ false ]

module _ {rb : RbTree} where
  -- What one round does with the download that it finds; `rest` are the rounds that follow.
  abbrev pub assigned_round : Option ℕ → Proc rb Bool → Proc rb Bool
  assigned_round none rest = pure false
  assigned_round (some d) rest = do v ← get_dl d; if abandoned v then pure false else rest

  -- The loop over the offsets of the blocks; out of fuel it is a fault.
  unfoldable pub assigned_loop : ℕ → Piece → ℕ → Proc rb Bool
  assigned_loop zero tpp off = lift fault
  assigned_loop (suc fuel) tpp off =
      let rest = assigned_loop fuel tpp (u32 (off + block_size)) in
      if leb tpp.len off
      then pure true
      else piece_dl_find none tpp.index off >>= λ pd. assigned_round pd rest

  -- One round for each block that is begun, and one to end.
  unfoldable pub piece_assigned : Piece → Proc rb Bool
  piece_assigned tpp = assigned_loop (suc (suc (tpp.len / block_size))) tpp 0

  -- One round of the loop over the pieces.
  abbrev pub endgame_round : Piece → Proc rb Bool → Proc rb Bool
  endgame_round tpp rest =
      if tpp.cksumok
      then rest
      else piece_assigned tpp >>= λ assigned. if assigned then rest else pure false

  unfoldable pub endgame_loop : ℕ → ℕ → Proc rb Bool
  endgame_loop zero i = pure true
  endgame_loop (suc left) i = do
    let rest = endgame_loop left (i + 1)
    s ← get
    tpp ← lift (piece_find s.tp i)
    endgame_round tpp rest

  unfoldable pub is_endgame : Proc rb Bool
  is_endgame = do s ← get; endgame_loop s.tp.num_pieces 0

  -- The return value is true for 0, and false for -1; the difference of two `time_t`.
  unfoldable pub threshold_kill : ℕ → Proc rb Bool
  threshold_kill p = do
    v ← get_peer p
    s ← get
    if (v.state.bitfield || v.state.established) && leb comms_threshold (s.now - v.lastrecv)
        then put_peer p (record v { state = killed }) >> pure true
        else pure false

  -- A dead peer is taken out of the session's list, and freed.
  abbrev pub reap : ℕ → Proc rb Bool
  reap p = do
    s ← get
    ps ← lift (must (unlink p s.peers))
    λ t. Outcome.ok (tt, record t { peers = ps })
    peer_free p
    λ t. Outcome.ok (tt, record t { num_peers = sub32 t.num_peers 1 })
    pure true

  unfoldable pub reap_dead : ℕ → Proc rb Bool
  reap_dead p = do v ← get_peer p; if v.state.dead then reap p else pure false
