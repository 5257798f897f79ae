-- ===== src/Tests/Messages.antt =====
-- Runs of the model of what is received and sent, and its theorems at concrete arguments.
use unworkable.Common.{
  ℕ, ◌<◌, ◌≡◌, refl, [], ◌∷◌, ◌++◌, true, false, ◌||◌, some, ok, arith, inl, replicate, drop,
}
use unworkable.Index.Sorted.{sorted_tree}
use unworkable.Session.{Peer, Session, Proc}
use unworkable.Session.Store.{◌>>=◌, pure}
use unworkable.Wire.{
  protocol, request_message, cancel_message, reject_message, handshake_message, read_u32,
}
use unworkable.Wire.MsgId
use unworkable.Wire.Roundtrip.{Carries, block_messages-Carries}
use unworkable.Receive.{
  message, out, after_read, set_up, read, on_complete, on_handshake1, on_handshake2, on_length,
  deliver, send_bitfield, handle_peer_response, receive_loop, receive,
}
use unworkable.Receive.Bounds.{Bounded, Filled, read-Bounded}
use unworkable.Receive.Framing.{sent_as, message-understood}
use unworkable.Receive.Chunks.{handle_peer_response-append}
use unworkable.Receive.Loop.{receive-enough}
use unworkable.Receive.Handshake.{on_handshake2_reserved, handshake-understood}
use unworkable.Download.{zero_peer}
use unworkable.Tests.Data.{hash, greeting, quiet}

-- A message is ignored.
abbrev ignore : ℕ → ℕ → Proc sorted_tree (Unit {0})
ignore id p = pure tt

-- The first byte of a handshake does not fill the buffer.
one_byte : 1 < (set_up 1000 greeting).rxpending
unfolding set_up
one_byte = omega arith

handle_peer_response-append_example :
    (handle_peer_response ignore 0 (19 ∷ []) >>= λ rest.
    handle_peer_response ignore 0 (rest ++ protocol))
      (quiet greeting)
    ≡ handle_peer_response ignore 0 (19 ∷ protocol) (quiet greeting)
handle_peer_response-append_example =
    handle_peer_response-append ignore 0 (quiet greeting) (19 ∷ []) protocol refl refl one_byte

fresh-Filled : Filled greeting
unfolding Filled
fresh-Filled = inl refl

receive-enough_example :
    receive_loop ignore 9 0 (0 ∷ 0 ∷ 0 ∷ 0 ∷ []) (quiet greeting)
    ≡ receive ignore 0 (0 ∷ 0 ∷ 0 ∷ 0 ∷ []) (quiet greeting)
receive-enough_example =
    receive-enough ignore 9 0 (0 ∷ 0 ∷ 0 ∷ 0 ∷ []) (quiet greeting) (omega arith)

read-Bounded_example : Bounded (read (set_up 1000 greeting) (19 ∷ protocol))
read-Bounded_example = read-Bounded 1000 greeting (19 ∷ protocol) fresh-Filled

-- The peer after the first part of a handshake.
abbrev greeted : Peer
greeted = record greeting {
  state = record (greeting.state) { handshake1 = false; handshake2 = true };
  lastrecv = 1000;
  rxmsg = some [];
  rxmsglen = 48;
  rxpending = 48;
  totalrx = 20;
}

first_part : on_complete hash (read (set_up 1000 greeting) (19 ∷ protocol)) ≡ ok (out, greeted)
unfolding set_up read on_complete on_handshake1
first_part = refl

none_pending : (read (set_up 1000 greeting) (19 ∷ protocol)).rxpending ≡ 0
unfolding set_up read
none_pending = refl

-- A message of one byte, with a byte behind it.
message-understood_example :
    (w : Peer) × (w' : Peer) × (on_complete hash
        (read (set_up 1000 zero_peer) (sent_as (1 ∷ []) ++ (9 ∷ [])))
      ≡ ok (out, w))
    × (on_complete hash (read (set_up 1001 w) (drop 4 (sent_as (1 ∷ []) ++ (9 ∷ []))))
        ≡ ok (message, w'))
    × ((set_up 1000 zero_peer).rxpending ≡ 4)
    × ((set_up 1001 w).rxpending ≡ 1)
    × (w'.rxmsg ≡ some (1 ∷ []))
    × (w'.rxmsglen ≡ 1)
    × (w'.rxpending ≡ 0)
    × (w'.state ≡ record (zero_peer.state) { gotlen = true })
message-understood_example =
    message-understood 1000 1001 zero_peer hash (1 ∷ []) (9 ∷ []) refl refl refl (omega arith)
      (omega arith)

-- An UNCHOKE that arrives whole is processed, and the buffer is empty.
unchoked :
    (s' : Session sorted_tree) × (receive ignore 0 (0 ∷ 0 ∷ 0 ∷ 1 ∷ 1 ∷ []) (quiet zero_peer)
      ≡ ok ([], s'))
unfolding receive receive_loop handle_peer_response after_read set_up read on_complete on_length
    deliver send_bitfield read_u32
unchoked = (_, refl)

handshake-understood_example :
    (w : Peer) × (w' : Peer) × (on_complete hash
        (read (set_up 1000 greeting) (handshake_message hash hash))
      ≡ ok (out, w))
    × (on_complete hash (read (set_up 1001 w) (drop 20 (handshake_message hash hash)))
        ≡ ok (out, w'))
    × (w'.info_hash ≡ hash)
    × (w'.id ≡ hash)
    × ((w'.state.handshake1 || w'.state.handshake2) ≡ false)
    × (w'.state.sendbitfield ≡ true)
    × (w'.rxpending ≡ 0)
handshake-understood_example = handshake-understood 1000 1001 greeting hash hash refl refl refl refl

on_handshake2_reserved_example :
    on_handshake2 hash greeting (replicate 8 0 ++ hash ++ hash)
    ≡ on_handshake2 hash greeting (replicate 8 255 ++ hash ++ hash)
on_handshake2_reserved_example =
    on_handshake2_reserved hash greeting (replicate 8 0) (replicate 8 255) (hash ++ hash) refl refl

block_messages-Carries_example :
    Carries (request_message 1 16384 100) MsgId.request 1 16384 100
    × Carries (cancel_message 1 16384 100) MsgId.cancel 1 16384 100
    × Carries (reject_message 1 16384 100) MsgId.reject 1 16384 100
block_messages-Carries_example =
    block_messages-Carries 1 16384 100 (omega arith) (omega arith) (omega arith)
