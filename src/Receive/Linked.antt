-- ===== src/Receive/Linked.antt =====
-- network_handle_peer_response of network.c leaves the queues of piece downloads linked.
use unworkable.Common.{
  ℕ, zero, suc, ◌≡◌, refl, ◌∙◌, Bool, true, false, not, List, [], ◌∷◌, ok, must, ◌==◌, ltb,
  if◌then◌else◌, get_elem?, arith, length,
}
use unworkable.Index.{RbTree}
use unworkable.Session.{Peer, Proc}
use unworkable.Session.Keeps.{
  From, Held, From-Reads, From-get, From-lift, From-lift_ok, From-get_peer, From->>, From->>=,
  From-if, From-read, pure-Reads, get_peer-Reads,
}
use unworkable.Download.Linked.{Linked}
use unworkable.Download.Linked.Keeps.{put_peer-Keeps, put_peer-then}
use unworkable.Send.Linked.{
  KeepsLinked, peer_write_havenone-Linked, peer_write_haveall-Linked, peer_write_bitfield-Linked,
}
use unworkable.Torrent.Resume.{empty}
use unworkable.Receive.{
  Next, out, message, received, set_up, read, on_handshake1, on_handshake2, on_length, on_complete,
  write_pieces, send_bitfield, deliver, after_read, handle_peer_response, receive_loop, receive,
}

set_up_own : (now : ℕ) (v : Peer) → (set_up now v).piece_dls ≡ v.piece_dls
unfolding set_up
set_up_own now v = ground arith

read_own : (v : Peer) (input : List ℕ) → (read v input).piece_dls ≡ v.piece_dls
unfolding read
read_own v input = refl

handshake1_own :
    (v w : Peer) (rxmsg : List ℕ) (next : Next)
    → on_handshake1 v rxmsg ≡ ok (next, w)
    → w.piece_dls ≡ v.piece_dls
unfolding on_handshake1
handshake1_own v w rxmsg next run = ground arith

length_own :
    (v w : Peer) (rxmsg : List ℕ) (next : Next)
    → on_length v rxmsg ≡ ok (next, w)
    → w.piece_dls ≡ v.piece_dls
unfolding on_length
length_own v w rxmsg next run = ground arith

handshake2_own :
    (hash : List ℕ) (v w : Peer) (rxmsg : List ℕ) (next : Next)
    → on_handshake2 hash v rxmsg ≡ ok (next, w)
    → w.piece_dls ≡ v.piece_dls
unfolding on_handshake2
handshake2_own hash v w rxmsg next run = ground arith

complete_own :
    (hash : List ℕ) (v w : Peer) (next : Next)
    → on_complete hash v ≡ ok (next, w)
    → w.piece_dls ≡ v.piece_dls
unfolding on_complete
complete_own hash v w next run = by_state v.state.handshake1 v.state.handshake2 v.state.gotlen run
  where
    by_state :
        (a b c : Bool)
        → (if a
            then on_handshake1 v (received v.rxmsg)
            else if b
            then on_handshake2 hash v (received v.rxmsg)
            else if not c
            then on_length v (received v.rxmsg)
            else ok (message, v))
          ≡ ok (next, w)
        → w.piece_dls ≡ v.piece_dls
    by_state true b c run = handshake1_own v w (received v.rxmsg) next run
    by_state false true c run = handshake2_own hash v w (received v.rxmsg) next run
    by_state false false false run = length_own v w (received v.rxmsg) next run
    by_state false false true run = ground arith

module _ {rb : RbTree} where
  write_pieces-Linked : (p : ℕ) (fast : Bool) → KeepsLinked {rb = rb} (write_pieces p fast)
  unfolding write_pieces
  write_pieces-Linked p fast = From-get (λ s. From-lift (empty s.tp) (λ none_good.
      From-if fast
        (From-if none_good (peer_write_havenone-Linked p) (
          From-if (s.tp.good_pieces == s.tp.num_pieces) (peer_write_haveall-Linked p)
            (peer_write_bitfield-Linked p)))
        (From-if (not none_good) (peer_write_bitfield-Linked p) (From-Reads pure-Reads))))

  send_bitfield-Linked : (p : ℕ) → KeepsLinked {rb = rb} (send_bitfield p)
  unfolding send_bitfield
  send_bitfield-Linked p = From-read get_peer-Reads (λ v.
      From-if v.state.sendbitfield
        (From->> (write_pieces-Linked p v.state.fast) (From-get_peer (λ w. put_peer-Keeps _ refl)))
        (From-Reads pure-Reads))

module _ {rb : RbTree} (process_message : ℕ → ℕ → Proc rb (Unit {0}))
    (keeps : (id p : ℕ) → KeepsLinked (process_message id p)) where
  deliver-Linked :
      (p : ℕ) (rxmsg : List ℕ) (next : Next) → KeepsLinked (deliver process_message p rxmsg next)
  unfolding deliver
  deliver-Linked p rxmsg out = From-Reads pure-Reads
  deliver-Linked p rxmsg message =
      From-lift (must (get_elem? rxmsg 0))
        (λ id. From->> (keeps id p) (From-get_peer (λ w. put_peer-Keeps _ refl)))

  after_read-Linked :
      (p : ℕ) (v : Peer)
      → From (λ s. Linked {rb = rb} s) (Held p v) (after_read process_message p v)
  unfolding after_read
  after_read-Linked p v = From-if (ltb 0 v.rxpending) (From-Reads pure-Reads) (
      From-get (λ s. From-lift_ok (on_complete s.tp.info_hash v) (λ r e.
        From->> (put_peer-Keeps _ (complete_own s.tp.info_hash v r.1 r.0 e))
          (deliver-Linked p (received r.1.rxmsg) r.0))))

  response-Linked :
      (p : ℕ) (input : List ℕ) → KeepsLinked (handle_peer_response process_message p input)
  unfolding handle_peer_response
  response-Linked p input = From-get_peer (λ v. From-get (λ s.
      put_peer-then _ (read_own (set_up s.now v) input ∙ set_up_own s.now v) (
        From->> (after_read-Linked p (read (set_up s.now v) input))
          (From->> (send_bitfield-Linked p) (From-Reads pure-Reads)))))

  receive_loop-Linked :
      (fuel p : ℕ) (input : List ℕ) → KeepsLinked (receive_loop process_message fuel p input)
  unfolding receive_loop
  receive_loop-Linked fuel p [] = From-Reads pure-Reads
  receive_loop-Linked zero p (b ∷ input) = From-Reads pure-Reads
  receive_loop-Linked (suc fuel) p (b ∷ input) =
      From->>= (response-Linked p (b ∷ input)) (λ rest. receive_loop-Linked fuel p rest)

  pub receive-Linked : (p : ℕ) (input : List ℕ) → KeepsLinked (receive process_message p input)
  unfolding receive
  receive-Linked p input = receive_loop-Linked (length input) p input
