-- ===== src/Process/Blocks.antt =====
-- network_peer_process_message of network.c: a block of a piece, and the piece that it completes; and the
-- choice of a handler by the identifier of the message.
use unworkable.Common.{
  ℕ, zero, suc, ◌+◌, ◌-◌, ◌/◌, ◌^◌, List, [], ◌∷◌, Bool, true, false, not, Option, none, some, ok,
  die, fault, ◌==◌, ltb, leb, if◌then◌else◌, drop, u32, u64, sub32,
}
use unworkable.Index.{RbTree}
use unworkable.Platform.{Platform}
use unworkable.Torrent.{Piece}
use unworkable.Torrent.Hash.{piece_checkhash}
use unworkable.Torrent.Mapping.{piece_unmap}
use unworkable.Torrent.Pieces.{piece_find}
use unworkable.Torrent.Resume.{fastresume_dump}
use unworkable.Session.{killed, Proc}
use unworkable.Session.Store.{◌>>=◌, ◌>>◌, pure, lift, get, get_peer, get_dl, put_peer, put_torrent}
use unworkable.Download.{piece_dl_find, piece_dl_free}
use unworkable.Send.{ensure_mapped, peer_write_have}
use unworkable.Transfer.{peer_read_piece}
use unworkable.Scheduler.{block_size}
use unworkable.Wire.{read_u32}
use unworkable.Wire.MsgId
use unworkable.Process.{
  put_state, get_rxmsg, with_index, on_choke, on_state, on_request, on_cancel, on_reject,
  on_suggest, on_allowedfast,
}
use unworkable.Process.Bitfields.{on_have, on_bitfield, on_have_same}

module _ {rb : RbTree} where
  -- Has each block of the piece, of `len` bytes, come? Out of fuel it is a fault.
  abbrev pub block_here : Option ℕ → Proc rb Bool
  block_here none = pure false
  block_here (some d) = do v ← get_dl d; pure (v.len == v.bytes)

  unfoldable pub complete_loop : ℕ → ℕ → ℕ → ℕ → ℕ → Proc rb Bool
  complete_loop zero p idx len off = lift fault
  complete_loop (suc fuel) p idx len off = if leb len off then pure true else do
    pd ← piece_dl_find (some p) idx off
    here ← block_here pd
    if here then complete_loop fuel p idx len (u32 (off + block_size)) else pure false

  -- The downloads of the piece are freed.
  abbrev pub free_found : Option ℕ → Proc rb (Unit {0})
  free_found none = pure tt
  free_found (some d) = piece_dl_free d

  unfoldable pub clean_loop : ℕ → ℕ → ℕ → ℕ → Proc rb (Unit {0})
  clean_loop zero idx len off = lift fault
  clean_loop (suc fuel) idx len off = if leb len off then pure tt else do
    pd ← piece_dl_find none idx off
    free_found pd
    clean_loop fuel idx len (u32 (off + block_size))

  unfoldable pub write_haves : List ℕ → ℕ → Proc rb (Unit {0})
  write_haves [] idx = pure tt
  write_haves (q ∷ qs) idx = peer_write_have q idx >> write_haves qs idx

  -- One piece more is good: the fast resume file is written, and the piece is counted.
  abbrev pub count_piece : ℕ → Proc rb (Unit {0})
  count_piece len = do
    s ← get
    dump ← lift (fastresume_dump s.tp)
    λ t. ok (tt, record t { resume = some dump })
    put_torrent (record (s.tp) { good_pieces = u32 (s.tp.good_pieces + 1); left = s.tp.left - len })

  abbrev pub stamp : ℕ → Proc rb (Unit {0})
  stamp p = do v ← get_peer p; s ← get; put_peer p (record v { lastrecv = s.now })

module _ {rb : RbTree} (platform : Platform) (announce : Proc rb (Unit {0})) where
  -- Where all pieces are good, the process ends unless it is to seed.
  abbrev pub all_good : Proc rb (Unit {0})
  all_good = do
    s ← get
    if not (s.tp.good_pieces == s.tp.num_pieces)
        then pure tt
        else if not s.seed
        then lift die
        else if s.announce_underway
        then pure tt
        else announce

  -- The piece has passed the check, or it has not.
  abbrev pub piece_good : ℕ → ℕ → Proc rb (Unit {0})
  piece_good idx len = do count_piece len; all_good; s ← get; write_haves s.peers idx

  -- All blocks are here: the piece is checked and unmapped, and its downloads are freed.
  unfoldable pub piece_complete : ℕ → Piece → Proc rb (Unit {0})
  piece_complete idx tpp = do
    s ← get
    (good, tp) ← lift (piece_checkhash platform.sha1 s.tp idx)
    tp' ← lift (piece_unmap platform.page_size tp idx)
    put_torrent tp'
    if good then piece_good idx tpp.len else pure tt
    clean_loop (suc (suc (tpp.len / block_size))) idx tpp.len 0

  -- The block is written, and is perhaps the last one of its piece.
  abbrev pub store_block : ℕ → ℕ → ℕ → List ℕ → Piece → Proc rb (Unit {0})
  store_block p idx off d tpp = do
    w ← get_peer p
    put_peer p (record w { dl_queue_len = sub32 w.dl_queue_len 1 })
    ensure_mapped idx tpp
    peer_read_piece p idx off d
    s ← get
    tpp' ← lift (piece_find s.tp idx)
    complete ← complete_loop (suc (suc (tpp'.len / block_size))) p idx tpp'.len 0
    if complete then piece_complete idx tpp' else pure tt

  -- What is done with the download that is found; one that was not asked for drops the peer.
  abbrev pub found_block : ℕ → ℕ → ℕ → List ℕ → Piece → Option ℕ → Proc rb (Unit {0})
  found_block p idx off rxmsg tpp none = put_state p killed
  found_block p idx off rxmsg tpp (some d) = do
    v ← get_dl d
    w ← get_peer p
    if not (u64 (w.rxmsglen + 2 ^ 64 - 9) == v.len)
        then pure tt
        else do if tpp.cksumok then pure tt else store_block p idx off (drop 9 rxmsg) tpp; stamp p

  abbrev pub on_block : ℕ → List ℕ → ℕ → ℕ → Proc rb (Unit {0})
  on_block p rxmsg off idx = do
    s ← get
    tpp ← lift (piece_find s.tp idx)
    if ltb tpp.len off
        then pure tt
        else (piece_dl_find (some p) idx off >>= λ pd. found_block p idx off rxmsg tpp pd)

  unfoldable pub on_piece : ℕ → Proc rb (Unit {0})
  on_piece p = do
    rxmsg ← get_rxmsg p
    off ← lift (read_u32 rxmsg 5)
    with_index rxmsg (λ idx. on_block p rxmsg off idx)

  -- The handler of a message by its identifier; messages that are not known do nothing.
  unfoldable pub process_message : ℕ → ℕ → Proc rb (Unit {0})
  process_message id p =
      if id == MsgId.choke
      then on_choke p
      else if id == MsgId.unchoke
      then on_state p (λ st. record st { choked = false })
      else if id == MsgId.interested
      then on_state p (λ st. record st { interested = true })
      else if id == MsgId.notinterested
      then on_state p (λ st. record st { interested = false })
      else if id == MsgId.have
      then on_have platform p
      else if id == MsgId.bitfield
      then on_bitfield platform p
      else if id == MsgId.request
      then on_request p
      else if id == MsgId.piece
      then on_piece p
      else if id == MsgId.cancel
      then on_cancel p
      else if id == MsgId.reject
      then on_reject p
      else if id == MsgId.havenone
      then on_have_same platform 0 p
      else if id == MsgId.haveall
      then on_have_same platform 0xFF p
      else if id == MsgId.allowedfast
      then on_allowedfast p
      else if id == MsgId.suggest
      then on_suggest p
      else pure tt
