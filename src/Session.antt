-- ===== src/Session.antt =====
-- includes.h: peers, piece downloads and uploads, and the session that they belong to. A structure that
-- the program allocates lies at an address in one of two stores; a queue is the list of the addresses
-- of its members, or of the members themselves where nothing else points to them.
pub mod Store
pub mod Keeps
use unworkable.Common.{ℕ, Bool, true, false, List, [], Option, none, some, Outcome, ok}
use unworkable.Index.{RbTree}
use unworkable.Torrent.{Torrent}

-- The bits of `state` in `struct peer`, PEER_STATE_CRYPTED aside, which nothing uses.
pub record PeerState : Type 0 where
  pub handshake1 : Bool
  pub bitfield : Bool
  pub established : Bool
  pub amchoking : Bool
  pub choked : Bool
  pub aminterested : Bool
  pub interested : Bool
  pub dead : Bool
  pub gotlen : Bool
  pub handshake2 : Bool
  pub sendbitfield : Bool
  pub fast : Bool

-- `state = 0`
abbrev pub no_state : PeerState
no_state = record {
  handshake1 = false;
  bitfield = false;
  established = false;
  amchoking = false;
  choked = false;
  aminterested = false;
  interested = false;
  dead = false;
  gotlen = false;
  handshake2 = false;
  sendbitfield = false;
  fast = false;
}

-- `state = 0; state |= PEER_STATE_DEAD;`
abbrev pub killed : PeerState
killed = record no_state { dead = true }

-- `struct piece_dl`; `pc` is NULL for one that no peer works on.
pub record PieceDl : Type 0 where
  pub pc : Option ℕ
  pub idx : ℕ
  pub off : ℕ
  pub len : ℕ
  pub bytes : ℕ

-- `struct piece_ul`
pub record PieceUl : Type 0 where
  pub idx : ℕ
  pub off : ℕ
  pub len : ℕ

-- `struct peer`. `rxmsg` is the part of the receive buffer that has been filled, `rxmsglen - rxpending`
-- bytes of it.
pub record Peer : Type 0 where
  pub addr : List ℕ
  pub port : List ℕ
  pub connfd : ℕ
  pub state : PeerState
  pub rxpending : ℕ
  pub rxmsglen : ℕ
  pub rxmsg : Option (List ℕ)
  pub bitfield : Option (List ℕ)
  pub id : List ℕ
  pub info_hash : List ℕ
  pub lastrecv : ℕ
  pub connected : ℕ
  pub lastsend : ℕ
  pub totalrx : ℕ
  pub totaltx : ℕ
  pub dl_queue_len : ℕ
  pub piece_dls : List ℕ
  pub piece_uls : List PieceUl

-- `struct piececounter` and `struct peercounter`
pub record PieceCounter : Type 0 where
  pub count : ℕ
  pub idx : ℕ

pub record PeerCounter : Type 0 where
  pub rate : ℕ
  pub peer : ℕ

-- `struct session`, with the stores of peers and of piece downloads and the next address that is free
-- in each, the clock, what has been written to each peer, the number of calls of `random` so far, and the
-- fast resume file that was written last. `seed` is the option of that name.
pub record Session (rb : RbTree) : Type 0 where
  pub tp : Torrent
  pub peerid : List ℕ
  pub peers : List ℕ
  pub num_peers : ℕ
  pub maxfds : ℕ
  pub index : rb.Tree
  pub peer : ℕ → Option Peer
  pub fresh_peer : ℕ
  pub dl : ℕ → Option PieceDl
  pub fresh_dl : ℕ
  pub now : ℕ
  pub sent : List (ℕ × List ℕ)
  pub rarity_array : Option (List PieceCounter)
  pub last_rarity : ℕ
  pub announce_underway : Bool
  pub last_announce : ℕ
  pub seed : Bool
  pub draws : ℕ
  pub resume : Option (List ℕ)

-- A procedure that works on the session.
abbrev pub Proc : RbTree → Type 0 → Type 0
Proc rb A = Session rb → Outcome (A × Session rb)
