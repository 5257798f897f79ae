-- ===== src/Wire.antt =====
-- network.c: the bytes of the messages to a peer, and the fields that a message from one is read by.
pub mod MsgId
pub mod Roundtrip
use unworkable.Common.{
  ℕ, ◌+◌, ◌-◌, List, [], ◌∷◌, ◌++◌, Outcome, ok, must, ◌>>=◌, get_elem?, take, length, be32, word,
  u32, sub32,
}

-- `msglen2 = htonl(msglen - sizeof(msglen))`, the identifier, and what follows them.
abbrev pub framed : ℕ → ℕ → List ℕ → List ℕ
framed msglen id payload = be32 (sub32 msglen 4) ++ (id ∷ payload)

-- A message of an identifier alone: `len = htonl(sizeof(id))`.
abbrev pub bare_message : ℕ → List ℕ
bare_message id = be32 1 ++ (id ∷ [])

-- network_peer_write_have
pub have_message : ℕ → List ℕ
have_message idx = framed (4 + 1 + 4) MsgId.have (be32 idx)

-- network_peer_write_piece, for the `len` bytes of the block
pub piece_message : ℕ → ℕ → ℕ → List ℕ → List ℕ
piece_message idx offset len block =
    framed (u32 (4 + 1 + 4 + 4 + len)) MsgId.piece (be32 idx ++ (be32 offset ++ block))

-- network_peer_request_block
pub request_message : ℕ → ℕ → ℕ → List ℕ
request_message idx off len =
    framed (4 + 1 + 4 + 4 + 4) MsgId.request (be32 idx ++ (be32 off ++ be32 len))

-- network_peer_cancel_piece
pub cancel_message : ℕ → ℕ → ℕ → List ℕ
cancel_message idx off len =
    framed (4 + 1 + 4 + 4 + 4) MsgId.cancel (be32 idx ++ (be32 off ++ be32 len))

-- network_peer_reject_block
pub reject_message : ℕ → ℕ → ℕ → List ℕ
reject_message idx off len =
    framed (4 + 1 + 4 + 4 + 4) MsgId.reject (be32 idx ++ (be32 off ++ be32 len))

-- network_peer_write_bitfield
pub bitfield_message : ℕ → List ℕ → List ℕ
bitfield_message bitfieldlen bitfield = framed (u32 (4 + 1 + bitfieldlen)) MsgId.bitfield bitfield

-- network_peer_write_interested and its like
pub interested_message : List ℕ
interested_message = bare_message MsgId.interested

pub unchoke_message : List ℕ
unchoke_message = bare_message MsgId.unchoke

pub choke_message : List ℕ
choke_message = bare_message MsgId.choke

pub haveall_message : List ℕ
haveall_message = bare_message MsgId.haveall

pub havenone_message : List ℕ
havenone_message = bare_message MsgId.havenone

-- network_peer_write_keepalive
pub keepalive_message : List ℕ
keepalive_message = be32 0

-- BT_PROTOCOL
abbrev pub protocol : List ℕ
protocol =
    b'B' ∷ b'i' ∷ b't' ∷ b'T' ∷ b'o' ∷ b'r' ∷ b'r' ∷ b'e' ∷ b'n' ∷ b't' ∷ b' ' ∷ b'p' ∷ b'r' ∷ b'o'
    ∷ b't' ∷ b'o' ∷ b'c' ∷ b'o' ∷ b'l' ∷ []

-- network_peer_handshake: of the eight reserved bytes the last has the bit of the fast extension.
unfoldable pub handshake_message : List ℕ → List ℕ → List ℕ
handshake_message info_hash peerid =
    19
    ∷ (protocol ++ (0 ∷ 0 ∷ 0 ∷ 0 ∷ 0 ∷ 0 ∷ 0 ∷ 0x04 ∷ []) ++ (take 20 info_hash ++ take 20 peerid))

-- `memcpy(&x, p + at, sizeof(x)); x = ntohl(x);` on a buffer: a fault if it ends before.
unfoldable pub read_u32 : List ℕ → ℕ → Outcome ℕ
read_u32 msg at = do
  a ← must (get_elem? msg at)
  b ← must (get_elem? msg (at + 1))
  c ← must (get_elem? msg (at + 2))
  d ← must (get_elem? msg (at + 3))
  ok (word a b c d)
