-- ===== src/Receive.antt =====
-- network_handle_peer_response of network.c: the bytes of a peer, gathered to handshakes and messages.
-- `input` is what the buffer of the connection holds when the procedure is called.
pub mod Bounds
pub mod Chunks
pub mod Framing
pub mod Handshake
pub mod Loop
pub mod Linked
use unworkable.Common.{
  ℕ, zero, suc, ◌+◌, ◌-◌, ◌/◌, ◌%◌, Bool, true, false, not, ◌&&◌, ◌||◌, List, [], ◌∷◌, ◌++◌, Option,
  none, some, Outcome, ok, must, min, ◌==◌, ltb, if◌then◌else◌, bytes_eq, length, get_elem?, take,
  drop, u64,
}
use unworkable.Common
use unworkable.Index.{RbTree}
use unworkable.Session.{PeerState, killed, Peer, Session, Proc}
use unworkable.Session.Store.{◌>>=◌, ◌>>◌, pure, lift, get, get_peer, put_peer}
use unworkable.Torrent.Resume.{empty}
use unworkable.Send.{peer_write_havenone, peer_write_haveall, peer_write_bitfield}
use unworkable.Wire.{protocol, read_u32}

-- MAX_MESSAGE_LEN
abbrev pub max_message_len : ℕ
max_message_len = 0xffffff

abbrev pub received : Option (List ℕ) → List ℕ
received none = []
received (some bytes) = bytes

-- Where nothing is pending, a buffer is set up: for a handshake, or for the length of a new message.
unfoldable pub set_up : ℕ → Peer → Peer
set_up now v =
    if v.state.handshake1 && v.rxpending == 0
    then record v { lastrecv = now; rxmsg = some []; rxmsglen = 20; rxpending = 20 }
    else if v.rxpending == 0
    then record v {
      state = record (v.state) { gotlen = false };
      rxmsg = some [];
      rxmsglen = 4;
      rxpending = 4;
    }
    else v

-- `bufferevent_read` of what is pending, or of what there is.
unfoldable pub read : Peer → List ℕ → Peer
read v input =
    let len = min v.rxpending (length input) in
    record v {
      rxmsg = some (received v.rxmsg ++ take v.rxpending input);
      totalrx = u64 (v.totalrx + len);
      rxpending = v.rxpending - len;
    }

-- What is to be done when a buffer is full: nothing more, or the message is to be processed.
pub data Next : Type 0 where
  out message : Next

-- The first part of a handshake, 20 bytes.
unfoldable pub on_handshake1 : Peer → List ℕ → Outcome (Next × Peer)
on_handshake1 v rxmsg = Common.◌>>=◌ (must (get_elem? rxmsg 0)) λ pstrlen.
    if pstrlen == 19 && bytes_eq (take 19 (drop 1 rxmsg)) protocol
    then ok (
      out,
      record v {
        rxmsg = some [];
        rxpending = 48;
        rxmsglen = 48;
        state = record (v.state) { handshake1 = false; handshake2 = true };
      },
    )
    else ok (out, record v { state = killed })

-- The second part, 48 bytes; the flag is bit 2 of the byte at 27.
pub on_handshake2 : List ℕ → Peer → List ℕ → Outcome (Next × Peer)
on_handshake2 our_hash v rxmsg = Common.◌>>=◌ (must (get_elem? rxmsg 27)) λ flags.
    let info_hash = take 20 (drop 8 rxmsg) in
    let w = record v { info_hash = info_hash; id = take 20 (drop 28 rxmsg) } in
    let fast = not (flags / 4 % 2 == 0) || v.state.fast in
    if not (bytes_eq info_hash our_hash)
    then ok (out, record w { state = killed })
    else ok (
      out,
      record w {
        rxmsg = none;
        rxpending = 0;
        state = record (v.state) {
          fast = fast;
          bitfield = true;
          sendbitfield = true;
          handshake2 = false;
        };
      },
    )

-- A length field, 4 bytes.
unfoldable pub on_length : Peer → List ℕ → Outcome (Next × Peer)
on_length v rxmsg = Common.◌>>=◌ (read_u32 rxmsg 0) λ msglen.
    if ltb max_message_len msglen
    then ok (out, record v { rxmsglen = msglen; state = killed })
    else if msglen == 0
    then ok
        (out, record v { rxmsglen = 0; rxmsg = none; state = record (v.state) { gotlen = true } })
    else ok (
      out,
      record v {
        rxmsglen = msglen;
        rxmsg = some [];
        rxpending = msglen;
        state = record (v.state) { gotlen = true };
      },
    )

-- The dispatch on the state when nothing is pending any more.
unfoldable pub on_complete : List ℕ → Peer → Outcome (Next × Peer)
unfolding on_handshake1 on_handshake2 on_length
on_complete our_hash v =
    if v.state.handshake1
    then on_handshake1 v (received v.rxmsg)
    else if v.state.handshake2
    then on_handshake2 our_hash v (received v.rxmsg)
    else if not v.state.gotlen
    then on_length v (received v.rxmsg)
    else ok (message, v)

module _ {rb : RbTree} where
  -- What is sent when it is time for the bitfield, with the fast extension and without it.
  abbrev pub write_fast : ℕ → Bool → Bool → Proc rb (Unit {0})
  write_fast p none_good all_good =
      if none_good
      then peer_write_havenone p
      else if all_good
      then peer_write_haveall p
      else peer_write_bitfield p

  pub write_pieces : ℕ → Bool → Proc rb (Unit {0})
  write_pieces p fast = do
    s ← get
    none_good ← lift (empty s.tp)
    if fast
        then write_fast p none_good (s.tp.good_pieces == s.tp.num_pieces)
        else if not none_good
        then peer_write_bitfield p
        else pure tt

  -- `p->state &= ~PEER_STATE_SENDBITFIELD`
  abbrev pub clear_sendbitfield : ℕ → Proc rb (Unit {0})
  clear_sendbitfield p = do
    w ← get_peer p
    put_peer p (record w { state = record (w.state) { sendbitfield = false } })

  unfoldable pub send_bitfield : ℕ → Proc rb (Unit {0})
  send_bitfield p = do
    v ← get_peer p
    if v.state.sendbitfield then write_pieces p v.state.fast >> clear_sendbitfield p else pure tt

module _ {rb : RbTree} (process_message : ℕ → ℕ → Proc rb (Unit {0})) where
  -- The message is processed and its buffer given back.
  unfoldable pub deliver : ℕ → List ℕ → Next → Proc rb (Unit {0})
  deliver p rxmsg out = pure tt
  deliver p rxmsg message = do
    id ← lift (must (get_elem? rxmsg 0))
    process_message id p
    w ← get_peer p
    put_peer p (record w { rxmsg = none })

  abbrev pub on_full : ℕ → Peer → Proc rb (Unit {0})
  on_full p v = do
    s ← get
    (next, w) ← lift (on_complete s.tp.info_hash v)
    put_peer p w
    deliver p (received w.rxmsg) next

  -- What follows the read.
  unfoldable pub after_read : ℕ → Peer → Proc rb (Unit {0})
  after_read p v = if ltb 0 v.rxpending then pure tt else on_full p v

  -- One call; the result is what is left in the buffer.
  unfoldable pub handle_peer_response : ℕ → List ℕ → Proc rb (List ℕ)
  handle_peer_response p input = do
    v ← get_peer p
    s ← get
    let ready = set_up s.now v
    put_peer p (read ready input)
    after_read p (read ready input)
    send_bitfield p
    pure (drop ready.rxpending input)

  -- The procedure calls itself as long as the buffer holds something.
  unfoldable pub receive_loop : ℕ → ℕ → List ℕ → Proc rb (List ℕ)
  receive_loop fuel p [] = pure []
  receive_loop zero p (b ∷ input) = pure (b ∷ input)
  receive_loop (suc fuel) p (b ∷ input) =
      handle_peer_response p (b ∷ input) >>= λ rest. receive_loop fuel p rest

  -- Each call reads a byte at least, so as many calls as there are bytes are enough.
  unfoldable pub receive : ℕ → List ℕ → Proc rb (List ℕ)
  receive p input = receive_loop (length input) p input
