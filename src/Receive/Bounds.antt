-- ===== src/Receive/Bounds.antt =====
-- network_handle_peer_response of network.c never reads past the end of a peer's buffer.
use unworkable.Common.{
  ℕ, ◌+◌, ◌≤◌, ◌≡◌, ◌⊎◌, inl, inr, List, ok, length, take, arith, length-append, length-take,
}
use unworkable.Session.{Peer}
use unworkable.Receive.{
  max_message_len, received, set_up, read, Next, on_handshake1, on_handshake2, on_length,
  on_complete,
}

-- The filled part of the buffer and what is pending make up the buffer, which is not too long.
pub Bounded : Peer → Type 0
Bounded v = (length (received v.rxmsg) + v.rxpending ≡ v.rxmsglen) × (v.rxmsglen ≤ max_message_len)

-- Between two calls: nothing is pending, or the buffer is as it should be.
unfoldable pub Filled : Peer → Type 0
Filled v =
    (v.rxpending ≡ 0)
    ⊎ ((length (received v.rxmsg) + v.rxpending ≡ v.rxmsglen) × (v.rxmsglen ≤ max_message_len))

set_up-Bounded : (now : ℕ) (v : Peer) → Filled v → Bounded (set_up now v)
unfolding Filled Bounded set_up
set_up-Bounded now v (inl e) = ground arith
set_up-Bounded now v (inr e) = ground arith

read_lem : (v : Peer) (xs : List ℕ) → Bounded v → Bounded (read v xs)
unfolding Bounded read
read_lem v xs h = (
  omega (
    arith,
    h.0,
    length-append (received v.rxmsg) (take v.rxpending xs),
    length-take v.rxpending xs,
  ),
  h.1,
)

-- If the buffer is as a call expects it, then whatever the call reads, it stays inside the buffer: what was there, what is read and what is still
-- pending make up the buffer, of at most 2 ^ 24 - 1 bytes.
pub read-Bounded : (now : ℕ) (v : Peer) (xs : List ℕ) → Filled v → Bounded (read (set_up now v) xs)
read-Bounded now v xs h = read_lem (set_up now v) xs (set_up-Bounded now v h)

-- A full buffer is left as the next call expects it.
pub on_complete-Filled :
    (our_hash : List ℕ) (v : Peer) {next : Next} {w : Peer}
    → v.rxpending ≡ 0
    → on_complete our_hash v ≡ ok (next, w)
    → Filled w
unfolding Filled on_complete on_handshake1 on_handshake2 on_length
on_complete-Filled our_hash v e run = ground arith
