-- ===== src/Send.antt =====
-- network.c: the procedures that write a message to a peer.
pub mod Linked
use unworkable.Common.{ℕ, ◌+◌, ◌++◌, ◌∷◌, [], List, true, false, ok, if◌then◌else◌, u32, u64, must}
use unworkable.Index.{RbTree}
use unworkable.Session.{Proc}
use unworkable.Session.Store.{◌>>=◌, ◌>>◌, pure, lift, get, get_peer, put_peer, put_torrent, get_dl}
use unworkable.Torrent.{Piece}
use unworkable.Torrent.Block.{Block, direct, copied, null, block_read}
use unworkable.Torrent.Hash.{whole}
use unworkable.Torrent.Mapping.{piece_map}
use unworkable.Torrent.Pieces.{piece_find}
use unworkable.Torrent.Resume.{bitfield_len, bitfield_get}
use unworkable.Wire.{
  have_message, request_message, cancel_message, reject_message, bitfield_message,
  interested_message, unchoke_message, choke_message, haveall_message, havenone_message,
  keepalive_message, handshake_message, piece_message,
}

-- `bufferevent_write`, which hands the bytes over, and the time of it.
unfoldable pub peer_write : {rb : RbTree} → ℕ → List ℕ → Proc rb (Unit {0})
peer_write p msg = do
  v ← get_peer p
  s ← get
  put_peer p (record v { lastsend = s.now })
  λ s'. ok (tt, record s' { sent = s'.sent ++ ((p, msg) ∷ []) })

module _ {rb : RbTree} where
  pub peer_write_have : ℕ → ℕ → Proc rb (Unit {0})
  peer_write_have p idx = peer_write p (have_message idx)

  unfoldable pub peer_request_block : ℕ → ℕ → ℕ → ℕ → Proc rb (Unit {0})
  peer_request_block p idx off len = peer_write p (request_message idx off len)

  -- The message goes to the peer that works on the download: a fault if there is none.
  pub peer_cancel_piece : ℕ → Proc rb (Unit {0})
  peer_cancel_piece pd = do
    v ← get_dl pd
    p ← lift (must v.pc)
    peer_write p (cancel_message v.idx v.off v.len)

  pub peer_reject_block : ℕ → ℕ → ℕ → ℕ → Proc rb (Unit {0})
  peer_reject_block p idx off len = peer_write p (reject_message idx off len)

  pub peer_write_interested : ℕ → Proc rb (Unit {0})
  peer_write_interested p = do
    v ← get_peer p
    put_peer p (record v { state = record (v.state) { aminterested = true } })
    peer_write p interested_message

  pub peer_write_bitfield : ℕ → Proc rb (Unit {0})
  peer_write_bitfield p = do
    s ← get
    bitfield ← lift (bitfield_get s.tp)
    peer_write p (bitfield_message (bitfield_len s.tp) bitfield)

  pub peer_write_unchoke : ℕ → Proc rb (Unit {0})
  peer_write_unchoke p = do
    v ← get_peer p
    put_peer p (record v { state = record (v.state) { amchoking = false } })
    peer_write p unchoke_message

  unfoldable pub peer_write_choke : ℕ → Proc rb (Unit {0})
  peer_write_choke p = do
    v ← get_peer p
    put_peer p (record v { state = record (v.state) { amchoking = true } })
    peer_write p choke_message

  pub peer_write_keepalive : ℕ → Proc rb (Unit {0})
  peer_write_keepalive p = peer_write p keepalive_message

  pub peer_write_haveall : ℕ → Proc rb (Unit {0})
  peer_write_haveall p = peer_write p haveall_message

  pub peer_write_havenone : ℕ → Proc rb (Unit {0})
  peer_write_havenone p = peer_write p havenone_message

  -- network_peer_handshake
  unfoldable pub peer_handshake : ℕ → Proc rb (Unit {0})
  peer_handshake p = do
    v ← get_peer p
    s ← get
    put_peer p (record v { connected = s.now })
    peer_write p (handshake_message s.tp.info_hash s.peerid)

  -- `torrent_piece_map(tpp)` if the piece is not mapped; `tpp` points into the array of pieces.
  abbrev pub ensure_mapped : ℕ → Piece → Proc rb (Unit {0})
  ensure_mapped idx tpp =
      if tpp.mapped then pure tt else do s ← get; tp ← lift (piece_map s.tp idx); put_torrent tp

  abbrev pub write_bytes : ℕ → ℕ → ℕ → ℕ → List ℕ → Proc rb (Unit {0})
  write_bytes p idx offset len block = do
    bytes ← lift (whole len block)
    peer_write p (piece_message idx offset len bytes)
    v ← get_peer p
    put_peer p (record v { totaltx = u64 (v.totaltx + u32 (4 + 1 + 4 + 4 + len)) })

  abbrev pub write_block : ℕ → ℕ → ℕ → ℕ → Block → Proc rb (Unit {0})
  write_block p idx offset len null = pure tt
  write_block p idx offset len (direct block) = write_bytes p idx offset len block
  write_block p idx offset len (copied block) = write_bytes p idx offset len block

  pub peer_write_piece : ℕ → ℕ → ℕ → ℕ → Proc rb (Unit {0})
  peer_write_piece p idx offset len = do
    s ← get
    tpp ← lift (piece_find s.tp idx)
    ensure_mapped idx tpp
    s' ← get
    tpp' ← lift (piece_find s'.tp idx)
    found ← lift (block_read tpp'.mmaps offset len)
    write_block p idx offset len found
