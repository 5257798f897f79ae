-- ===== src/Receive/Framing.antt =====
-- network_handle_peer_response of network.c takes a message out of the bytes of a peer by its length.
use unworkable.Common.{
  ℕ, ◌^◌, ◌≤◌, ◌<◌, ◌≡◌, refl, true, false, List, [], ◌++◌, some, ok, length, drop, take, arith, ap,
  be32, word-bytes, ltb, ◌==◌, length-append,
}
use unworkable.Common.Slices.{take-append_self}
use unworkable.Session.{Peer}
use unworkable.Wire.{read_u32}
use unworkable.Receive.{max_message_len, set_up, read, out, message, on_length, on_complete}

-- A message as it is sent: its length, and its bytes.
abbrev pub sent_as : List ℕ → List ℕ
sent_as msg = be32 (length msg) ++ msg

length-read : (n : ℕ) (rest : List ℕ) → n < 2 ^ 32 → read_u32 (take 4 (be32 n ++ rest)) 0 ≡ ok n
unfolding read_u32
length-read n rest h = ap (λ k. ok k) (word-bytes n h)

-- The peer when the length has been read.
abbrev told : ℕ → Peer → List ℕ → List ℕ → Peer
told now v msg rest = record (read (set_up now v) (sent_as msg ++ rest)) {
  rxmsglen = length msg;
  rxmsg = some [];
  rxpending = length msg;
  state = record (v.state) { gotlen = true };
}

module _ (now : ℕ) (v : Peer) (our_hash msg rest : List ℕ) (h1 : v.state.handshake1 ≡ false)
    (h2 : v.state.handshake2 ≡ false) (some_bytes : 0 < length msg)
    (fits : length msg ≤ max_message_len) where
  length_part :
      v.rxpending ≡ 0
      → on_complete our_hash (read (set_up now v) (sent_as msg ++ rest))
        ≡ ok (out, told now v msg rest)
  unfolding on_complete on_length set_up read
  length_part e =
      let long : ltb max_message_len (length msg) ≡ false = ground arith in
      let none : (length msg == 0) ≡ false = ground arith in
      rw (h1, h2, e, length-read (length msg) (msg ++ rest) (omega arith)) (rw (long, none) refl)

-- The peer when the message has been read.
abbrev filled : ℕ → ℕ → Peer → List ℕ → List ℕ → Peer
filled now now' v msg rest = read (set_up now' (told now v msg rest)) (msg ++ rest)

module _ (now now' : ℕ) (v : Peer) (msg rest : List ℕ) (h1 : v.state.handshake1 ≡ false)
    (h2 : v.state.handshake2 ≡ false) (some_bytes : 0 < length msg) where
  still_pending : set_up now' (told now v msg rest) ≡ told now v msg rest
  unfolding set_up read
  still_pending = let pending : (length msg == 0) ≡ false = ground arith in rw (h1, pending) refl

  none_pending : (filled now now' v msg rest).rxpending ≡ 0
  unfolding read
  none_pending = rw still_pending (omega (arith, length-append msg rest))

  all_received : (filled now now' v msg rest).rxmsg ≡ some msg
  unfolding read
  all_received = rw still_pending (ap some (take-append_self (length msg) msg rest refl))

  message_part :
      (our_hash : List ℕ)
      → on_complete our_hash (filled now now' v msg rest) ≡ ok (message, filled now now' v msg rest)
  unfolding on_complete set_up read
  message_part our_hash = rw still_pending (rw (h1, h2) refl)

-- Where a peer that has done its handshake awaits a message, with nothing pending, and sends one of a byte at least and of
-- 2 ^ 24 - 1 bytes at most behind its length, with anything behind it: a call takes the four bytes of the length, with
-- no message yet, and the next one takes just the bytes of the message, which stand in the buffer whole, with nothing
-- pending, when it is processed. Of the peer's state only the mark that the length is known has changed.
pub message-understood :
    (now now' : ℕ) (v : Peer) (our_hash msg rest : List ℕ)
    → v.state.handshake1 ≡ false
    → v.state.handshake2 ≡ false
    → v.rxpending ≡ 0
    → 0 < length msg
    → length msg ≤ max_message_len
    → (w : Peer) × (w' : Peer) × (on_complete our_hash (read (set_up now v) (sent_as msg ++ rest))
        ≡ ok (out, w))
      × (on_complete our_hash (read (set_up now' w) (drop 4 (sent_as msg ++ rest)))
          ≡ ok (message, w'))
      × ((set_up now v).rxpending ≡ 4)
      × ((set_up now' w).rxpending ≡ length msg)
      × (w'.rxmsg ≡ some msg)
      × (w'.rxmsglen ≡ length msg)
      × (w'.rxpending ≡ 0)
      × (w'.state ≡ record (v.state) { gotlen = true })
unfolding set_up read
message-understood now now' v our_hash msg rest h1 h2 e some_bytes fits =
    let pending = still_pending now now' v msg rest h1 h2 some_bytes in
    (
      told now v msg rest,
      filled now now' v msg rest,
      length_part now v our_hash msg rest h1 h2 some_bytes fits e,
      message_part now now' v msg rest h1 h2 some_bytes our_hash,
      rw (h1, e) refl,
      rw pending refl,
      all_received now now' v msg rest h1 h2 some_bytes,
      rw pending refl,
      none_pending now now' v msg rest h1 h2 some_bytes,
      rw pending refl,
    )
