-- ===== src/Process/Linked/Messages.antt =====
-- The handlers of network_peer_process_message of network.c, that of PIECE aside, leave the queues of
-- piece downloads linked.
use unworkable.Common.{
  ℕ, ◌≡◌, refl, true, not, ◌&&◌, List, Option, none, some, must, ◌==◌, ltb, arith, take, drop,
  replicate, sub32,
}
use unworkable.Index.{RbTree}
use unworkable.Platform.{Platform}
use unworkable.Torrent.Pieces.{piece_find}
use unworkable.Torrent.Resume.{bitfield_len}
use unworkable.Util.{setbit}
use unworkable.Session.{PeerState, killed, Peer, Proc}
use unworkable.Session.Keeps.{
  Reads, From-Reads, From-Keeps, From-get, From-lift, From-get_peer, From->>, From->>=, From-if,
  From-read, pure-Reads, get_peer-Reads, lift-Reads, >>=-Reads,
}
use unworkable.Download.{piece_ul_enqueue}
use unworkable.Download.Linked.Keeps.{put_peer-Keeps, put_peer-then, piece_dl_free-Keeps}
use unworkable.Download.Linked.Adopt.{choke_loop-Keeps}
use unworkable.Send.Linked.{KeepsLinked, peer_write_interested-Linked, peer_reject_block-Linked}
use unworkable.Scheduler.Linked.Gimme.{piece_gimme-Linked}
use unworkable.Scheduler.Reads.{piece_dl_find-Reads}
use unworkable.Wire.{read_u32}
use unworkable.Process.{
  put_state, get_rxmsg, with_index, on_choke, on_state, on_request, on_cancel, reject_found,
  on_reject, on_suggest, on_allowedfast,
}
use unworkable.Process.Bitfields.{
  or_zeros, known, show_interest, on_have, take_bitfield, on_bitfield, on_have_same,
}

module _ {rb : RbTree} where
  pub put_state-Linked : (p : ℕ) (state : PeerState) → KeepsLinked {rb = rb} (put_state p state)
  put_state-Linked p state = From-get_peer (λ v. put_peer-Keeps _ refl)

  pub on_state-Linked :
      (p : ℕ) (change : PeerState → PeerState) → KeepsLinked {rb = rb} (on_state p change)
  on_state-Linked p change = From-read get_peer-Reads (λ v. put_state-Linked p (change v.state))

  pub rxmsg-Reads : (p : ℕ) → Reads {rb = rb} (get_rxmsg p)
  rxmsg-Reads p = >>=-Reads get_peer-Reads (λ v. lift-Reads (must v.rxmsg))

  pub with_index-Linked :
      (rxmsg : List ℕ) {body : ℕ → Proc rb (Unit {0})}
      → ((idx : ℕ) → KeepsLinked (body idx))
      → KeepsLinked (with_index rxmsg body)
  with_index-Linked rxmsg k = From-lift (read_u32 rxmsg 1) (λ idx.
      From-get (λ s. From-if (ltb (sub32 s.tp.num_pieces 1) idx) (From-Reads pure-Reads) (k idx)))

  pub on_choke-Linked : (p : ℕ) → KeepsLinked {rb = rb} (on_choke p)
  unfolding on_choke
  on_choke-Linked p = From-get_peer (λ v.
      put_peer-then _ refl
        (From-if v.state.fast (From-Reads pure-Reads) (choke_loop-Keeps v.piece_dls refl)))

  pub on_request-Linked : (p : ℕ) → KeepsLinked {rb = rb} (on_request p)
  unfolding on_request piece_ul_enqueue
  on_request-Linked p = From-read (rxmsg-Reads p) (λ rxmsg. with_index-Linked rxmsg (λ idx.
      From-lift (read_u32 rxmsg 5) (λ off. From-get (λ s. From-lift (piece_find s.tp idx) (λ tpp.
        From-if (ltb tpp.len off) (From-Reads pure-Reads) (
          From-lift (read_u32 rxmsg 9) (λ len. From-get_peer (λ v.
            From-if tpp.cksumok (From-get_peer (λ w. put_peer-Keeps _ refl)) (
              From-if v.state.fast (From-Keeps (peer_reject_block-Linked p idx off len))
                (From-Reads pure-Reads))))))))))

  pub on_cancel-Linked : (p : ℕ) → KeepsLinked {rb = rb} (on_cancel p)
  unfolding on_cancel
  on_cancel-Linked p = From-read (rxmsg-Reads p) (λ rxmsg. with_index-Linked rxmsg (λ idx.
      From-lift (read_u32 rxmsg 5)
        (λ off. From-lift (read_u32 rxmsg 9) (λ len. From-get_peer (λ v. put_peer-Keeps _ refl)))))

  reject_found-Linked : (p : ℕ) (d : Option ℕ) → KeepsLinked {rb = rb} (reject_found p d)
  reject_found-Linked p none = From-Reads pure-Reads
  reject_found-Linked p (some d) =
      From->> (piece_dl_free-Keeps d) (From-get_peer (λ v. put_peer-Keeps _ refl))

  pub on_reject-Linked : (p : ℕ) → KeepsLinked {rb = rb} (on_reject p)
  unfolding on_reject
  on_reject-Linked p = From-read get_peer-Reads (λ v.
      From-if (not v.state.fast) (put_state-Linked p killed) (
        From-read (rxmsg-Reads p) (λ rxmsg. with_index-Linked rxmsg (λ idx.
          From-lift (read_u32 rxmsg 5) (λ off. From-lift (read_u32 rxmsg 9) (λ len.
            From-read (piece_dl_find-Reads (some p) idx off) (λ d. reject_found-Linked p d)))))))

  pub on_suggest-Linked : (p : ℕ) → KeepsLinked {rb = rb} (on_suggest p)
  unfolding on_suggest
  on_suggest-Linked p =
      From-read (rxmsg-Reads p) (λ rxmsg. with_index-Linked rxmsg (λ idx. From-Reads pure-Reads))

  pub on_allowedfast-Linked : (p : ℕ) → KeepsLinked {rb = rb} (on_allowedfast p)
  unfolding on_allowedfast
  on_allowedfast-Linked p =
      From-read (rxmsg-Reads p) (λ rxmsg. with_index-Linked rxmsg (λ idx. on_suggest-Linked p))

module _ {rb : RbTree} (platform : Platform) where
  show_interest-Linked : (p : ℕ) → KeepsLinked {rb = rb} (show_interest platform p)
  unfolding show_interest
  show_interest-Linked p = From->>= (piece_gimme-Linked platform p true) (λ r.
      From-read get_peer-Reads (λ v.
        From-if (r.1 && not v.state.aminterested) (peer_write_interested-Linked p)
          (From-Reads pure-Reads)))

  pub on_have-Linked : (p : ℕ) → KeepsLinked {rb = rb} (on_have platform p)
  unfolding on_have
  on_have-Linked p = From-read (rxmsg-Reads p) (λ rxmsg. with_index-Linked rxmsg (λ idx.
      From-get_peer (λ v. From-get (λ s.
        From-lift (setbit (or_zeros v.bitfield (bitfield_len s.tp)) idx) (λ bitfield.
          From->> (put_peer-Keeps _ (known-own v (bitfield_len s.tp))) (show_interest-Linked p))))))
    where
      known-own : (v : Peer) (n : ℕ) → (known v n).piece_dls ≡ v.piece_dls
      known-own v n = ground arith

  take_bitfield-Linked :
      (p : ℕ) (bitfield : List ℕ) → KeepsLinked {rb = rb} (take_bitfield platform p bitfield)
  take_bitfield-Linked p bitfield =
      From-get_peer (λ v. From->> (put_peer-Keeps _ refl) (show_interest-Linked p))

  pub on_bitfield-Linked : (p : ℕ) → KeepsLinked {rb = rb} (on_bitfield platform p)
  unfolding on_bitfield
  on_bitfield-Linked p = From-read get_peer-Reads (λ v. From-get (λ s.
      From-if (not v.state.bitfield) (From-Reads pure-Reads) (
        From-if (not (sub32 v.rxmsglen 1 == bitfield_len s.tp)) (put_state-Linked p killed) (
          From-read (rxmsg-Reads p)
            (λ rxmsg. take_bitfield-Linked p (take (sub32 v.rxmsglen 1) (drop 1 rxmsg)))))))

  pub on_have_same-Linked : (byte p : ℕ) → KeepsLinked {rb = rb} (on_have_same platform byte p)
  unfolding on_have_same
  on_have_same-Linked byte p = From-read get_peer-Reads (λ v. From-get (λ s.
      From-if v.state.bitfield (take_bitfield-Linked p (replicate (bitfield_len s.tp) byte))
        (From-Reads pure-Reads)))
