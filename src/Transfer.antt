-- ===== src/Transfer.antt =====
-- network.c: a block that arrives, and the times and rates of a peer.
pub mod Arrive
use unworkable.Common.{
  ℕ, ◌+◌, ◌-◌, ◌/◌, List, Bool, Option, none, some, Outcome, ok, ◌==◌, leb, if◌then◌else◌, length,
  set, u32, u64,
}
use unworkable.Index.{RbTree}
use unworkable.Torrent.{Piece}
use unworkable.Torrent.Block.{block_write}
use unworkable.Torrent.Pieces.{piece_find}
use unworkable.Session.{PieceDl, Peer, Session, Proc}
use unworkable.Session.Store.{◌>>=◌, ◌>>◌, pure, lift, get, get_peer, get_dl, put_peer, put_dl}
use unworkable.Download.{piece_dl_find}
use unworkable.Send.{peer_write_keepalive}

-- PEER_KEEPALIVE_SECONDS
abbrev pub keepalive_seconds : ℕ
keepalive_seconds = 60

-- The piece whose bytes have changed, and the count of the bytes that have arrived.
abbrev pub put_piece : {rb : RbTree} → ℕ → Piece → ℕ → Proc rb (Unit {0})
put_piece idx tpp len s = ok (
  tt,
  record s {
    tp = record (s.tp) {
      piece_array = set s.tp.piece_array idx tpp;
      downloaded = s.tp.downloaded + len;
    };
  },
)

-- `total / rate`, with the guard against a division by zero.
abbrev pub per_second : ℕ → ℕ → ℕ
per_second total rate = if rate == 0 then 0 else total / rate

module _ {rb : RbTree} where
  -- What is done with the download that is found; `d` is the block. `torrent_piece_find` gives a pointer
  -- into the array of pieces.
  abbrev pub arrive : ℕ → ℕ → ℕ → List ℕ → Piece → Option ℕ → Proc rb (Unit {0})
  arrive p idx off d tpp none = pure tt
  arrive p idx off d tpp (some pd) = do
    v ← get_dl pd
    put_dl pd (record v { bytes = u32 (v.bytes + length d) })
    put_piece idx (record tpp { mmaps = block_write tpp.mmaps off (length d) d }) (length d)
    w ← get_peer p
    put_peer p (record w { totalrx = u64 (w.totalrx + length d) })

  -- The notice to the control server is left out.
  unfoldable pub peer_read_piece : ℕ → ℕ → ℕ → List ℕ → Proc rb (Unit {0})
  peer_read_piece p idx off d = do
    s ← get
    tpp ← lift (piece_find s.tp idx)
    pd ← piece_dl_find (some p) idx off
    arrive p idx off d tpp pd

  -- The clock does not go back.
  pub peer_lastcomms : ℕ → Proc rb ℕ
  peer_lastcomms p = do v ← get_peer p; s ← get; pure (s.now - v.lastrecv)

  unfoldable pub peer_rxrate : ℕ → Proc rb ℕ
  peer_rxrate p = do v ← get_peer p; s ← get; pure (per_second v.totalrx (s.now - v.connected))

  pub peer_txrate : ℕ → Proc rb ℕ
  peer_txrate p = do v ← get_peer p; s ← get; pure (per_second v.totaltx (s.now - v.connected))

  -- The timer of the next second is left out.
  pub peer_keepalive : ℕ → Proc rb (Unit {0})
  peer_keepalive p = do
    v ← get_peer p
    s ← get
    if leb keepalive_seconds (s.now - v.lastsend) then peer_write_keepalive p else pure tt
