-- ===== src/Process.antt =====
-- network_peer_process_message of network.c: what a message of a peer does. The notices to the control
-- server and the progress meter are left out, and the announcement that the download is complete is a parameter.
pub mod Bitfields
pub mod Blocks
pub mod Linked
pub mod Unasked
use unworkable.Common.{
  ℕ, zero, suc, ◌+◌, ◌-◌, ◌*◌, ◌/◌, ◌^◌, List, [], ◌∷◌, Bool, true, false, not, ◌&&◌, ◌||◌, Option,
  none, some, Outcome, ok, die, fault, must, ◌==◌, ltb, leb, if◌then◌else◌, length, take, drop,
  replicate, u32, u64, sub32,
}
use unworkable.Index.{RbTree}
use unworkable.Platform.{Platform}
use unworkable.Torrent.{Piece, Torrent}
use unworkable.Torrent.Hash.{piece_checkhash}
use unworkable.Torrent.Mapping.{piece_unmap}
use unworkable.Torrent.Pieces.{piece_find}
use unworkable.Torrent.Resume.{bitfield_len, fastresume_dump}
use unworkable.Util.{setbit}
use unworkable.Session.{PeerState, killed, PieceDl, PieceUl, Peer, Session, Proc}
use unworkable.Session.Store.{◌>>=◌, ◌>>◌, pure, lift, get, get_peer, get_dl, put_peer, put_torrent}
use unworkable.Download.{piece_dl_find, piece_dl_free, choke_loop, piece_ul_enqueue}
use unworkable.Send.{ensure_mapped, peer_write_have, peer_write_interested, peer_reject_block}
use unworkable.Transfer.{peer_read_piece}
use unworkable.Scheduler.{block_size}
use unworkable.Scheduler.Gimme.{piece_gimme}
use unworkable.Wire.{read_u32}
use unworkable.Wire.MsgId

-- The peer's bitfield is there, and no other is expected.
abbrev pub with_bitfield : Peer → List ℕ → Peer
with_bitfield v bitfield = record v {
  bitfield = some bitfield;
  state = record (v.state) { bitfield = false; established = true };
}

-- The loop of CANCEL: each upload of that block is dropped.
abbrev pub same_upload : ℕ → ℕ → ℕ → PieceUl → Bool
same_upload idx off len u = u.idx == idx && u.off == off && u.len == len

pub cancel_loop : ℕ → ℕ → ℕ → List PieceUl → List PieceUl
cancel_loop idx off len [] = []
cancel_loop idx off len (u ∷ us) =
    let rest = cancel_loop idx off len us in if same_upload idx off len u then rest else u ∷ rest

module _ {rb : RbTree} where
  -- `p->state = …`, and the same for the peer that is to be dropped.
  abbrev pub put_state : ℕ → PeerState → Proc rb (Unit {0})
  put_state p state = do v ← get_peer p; put_peer p (record v { state = state })

  -- `p->rxmsg`: a fault where it is NULL.
  abbrev pub get_rxmsg : ℕ → Proc rb (List ℕ)
  get_rxmsg p = do v ← get_peer p; lift (must v.rxmsg)

  -- An index in the message, at byte 1, that is within the torrent; without one, nothing more is done.
  abbrev pub with_index : List ℕ → (ℕ → Proc rb (Unit {0})) → Proc rb (Unit {0})
  with_index rxmsg body = do
    idx ← lift (read_u32 rxmsg 1)
    s ← get
    if ltb (sub32 s.tp.num_pieces 1) idx then pure tt else body idx

  unfoldable pub on_choke : ℕ → Proc rb (Unit {0})
  on_choke p = do
    v ← get_peer p
    put_peer p (record v { state = record (v.state) { choked = true } })
    if v.state.fast then pure tt else choke_loop p v.piece_dls

  -- UNCHOKE, INTERESTED and NOTINTERESTED
  abbrev pub on_state : ℕ → (PeerState → PeerState) → Proc rb (Unit {0})
  on_state p change = do v ← get_peer p; put_state p (change v.state)

  -- A REQUEST of a block of a piece.
  abbrev pub on_block_request : ℕ → List ℕ → ℕ → Proc rb (Unit {0})
  on_block_request p rxmsg idx = do
    off ← lift (read_u32 rxmsg 5)
    s ← get
    tpp ← lift (piece_find s.tp idx)
    if ltb tpp.len off then pure tt else do
      blocklen ← lift (read_u32 rxmsg 9)
      v ← get_peer p
      if tpp.cksumok
          then piece_ul_enqueue p idx off blocklen
          else if v.state.fast
          then peer_reject_block p idx off blocklen
          else pure tt

  pub on_request : ℕ → Proc rb (Unit {0})
  on_request p = get_rxmsg p >>= λ rxmsg. with_index rxmsg (λ idx. on_block_request p rxmsg idx)

  abbrev pub on_block_cancel : ℕ → List ℕ → ℕ → Proc rb (Unit {0})
  on_block_cancel p rxmsg idx = do
    off ← lift (read_u32 rxmsg 5)
    blocklen ← lift (read_u32 rxmsg 9)
    v ← get_peer p
    put_peer p (record v { piece_uls = cancel_loop idx off blocklen v.piece_uls })

  pub on_cancel : ℕ → Proc rb (Unit {0})
  on_cancel p = get_rxmsg p >>= λ rxmsg. with_index rxmsg (λ idx. on_block_cancel p rxmsg idx)

  -- REJECT, with the fast extension: the download is freed, and counted down.
  abbrev pub reject_found : ℕ → Option ℕ → Proc rb (Unit {0})
  reject_found p none = pure tt
  reject_found p (some d) = do
    piece_dl_free d
    v ← get_peer p
    put_peer p (record v { dl_queue_len = sub32 v.dl_queue_len 1 })

  abbrev pub on_block_reject : ℕ → List ℕ → ℕ → Proc rb (Unit {0})
  on_block_reject p rxmsg idx = do
    off ← lift (read_u32 rxmsg 5)
    blocklen ← lift (read_u32 rxmsg 9)
    pd ← piece_dl_find (some p) idx off
    reject_found p pd

  pub on_reject : ℕ → Proc rb (Unit {0})
  on_reject p = do
    v ← get_peer p
    if not v.state.fast
        then put_state p killed
        else (get_rxmsg p >>= λ rxmsg. with_index rxmsg (λ idx. on_block_reject p rxmsg idx))

  -- ALLOWEDFAST goes on with SUGGEST, and SUGGEST with the messages that are not known: an index is read.
  pub on_suggest : ℕ → Proc rb (Unit {0})
  on_suggest p = get_rxmsg p >>= λ rxmsg. with_index rxmsg (λ idx. pure tt)

  pub on_allowedfast : ℕ → Proc rb (Unit {0})
  on_allowedfast p = get_rxmsg p >>= λ rxmsg. with_index rxmsg (λ idx. on_suggest p)
