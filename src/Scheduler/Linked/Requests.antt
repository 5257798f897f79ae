-- ===== src/Scheduler/Linked/Requests.antt =====
-- The requests and the uploads of scheduler.c leave the queues of piece downloads linked.
use unworkable.Common.{
  ℕ, zero, suc, ◌+◌, ◌/◌, refl, sub32, false, not, ◌&&◌, List, [], ◌∷◌, Option, none, some, fault,
  must, leb, ltb, u32,
}
use unworkable.Index.{RbTree}
use unworkable.Platform.{Platform}
use unworkable.Torrent.Pieces.{piece_find}
use unworkable.Session.{PieceUl, Peer, Proc}
use unworkable.Session.Keeps.{
  From, Held, From-Reads, From-get, From-lift, From-get_peer, From->>, From->>=, From-if, From-read,
  pure-Reads, get_peer-Reads, get_dl-Reads, lift-Reads,
}
use unworkable.Download.{dequeue, piece_ul_dequeue}
use unworkable.Download.Linked.{Linked}
use unworkable.Download.Linked.Keeps.{put_peer-Keeps, piece_dl_create-Keeps}
use unworkable.Send.Linked.{KeepsLinked, peer_request_block-Linked, peer_write_piece-Linked}
use unworkable.Scheduler.{block_size}
use unworkable.Scheduler.Gimme.{block_len}
use unworkable.Scheduler.Requests.{
  request, request_if, answer, dequeue_uploads, ask_loop, queue_len, ask_unless, passed_over,
  ask_peers, endgame_pieces, endgame_algorithm, fill_loop, fill_requests,
}
use unworkable.Scheduler.Reads.{find_own-Reads, peer_rxrate-Reads}
use unworkable.Scheduler.Linked.Gimme.{piece_gimme-Linked}

module _ {rb : RbTree} where
  request-Linked : (p d : ℕ) → KeepsLinked {rb = rb} (request p d)
  request-Linked p d = From-read get_dl-Reads (λ v. From-lift (must v.pc) (λ q.
      From->> (peer_request_block-Linked q v.idx v.off v.len)
        (From-get_peer (λ w. put_peer-Keeps _ refl))))

  request_if-Linked : (p : ℕ) (d : Option ℕ) → KeepsLinked {rb = rb} (request_if p d)
  request_if-Linked p none = From-Reads pure-Reads
  request_if-Linked p (some d) = request-Linked p d

  dequeue-Linked : (p : ℕ) → KeepsLinked {rb = rb} (piece_ul_dequeue p)
  unfolding piece_ul_dequeue
  dequeue-Linked p = From-get_peer (λ v. dequeue_from p v v.piece_uls)
    where
      dequeue_from :
          (q : ℕ) (v : Peer) (us : List PieceUl)
          → From (λ s. Linked {rb = rb} s) (Held q v) (dequeue q v us)
      dequeue_from q v [] = From-Reads pure-Reads
      dequeue_from q v (u ∷ us) = From->> (put_peer-Keeps _ refl) (From-Reads pure-Reads)

  answer-Linked : (p : ℕ) (u : Option PieceUl) → KeepsLinked {rb = rb} (answer p u)
  answer-Linked p none = From-Reads pure-Reads
  answer-Linked p (some u) = peer_write_piece-Linked p u.idx u.off u.len

  pub dequeue_uploads-Linked : (p : ℕ) → KeepsLinked {rb = rb} (dequeue_uploads p)
  unfolding dequeue_uploads
  dequeue_uploads-Linked p = From->>= (dequeue-Linked p) (λ u. answer-Linked p u)

  ask_unless-Linked :
      (d : Option ℕ) {m : Proc rb (Unit {0})}
      → KeepsLinked m
      → KeepsLinked {rb = rb} (ask_unless d m)
  ask_unless-Linked none k = k
  ask_unless-Linked (some d) k = From-Reads pure-Reads

  ask_loop-Linked : (fuel p i len off : ℕ) → KeepsLinked {rb = rb} (ask_loop fuel p i len off)
  unfolding ask_loop
  ask_loop-Linked zero p i len off = From-Reads (lift-Reads fault)
  ask_loop-Linked (suc fuel) p i len off = From-if (leb len off) (From-Reads pure-Reads) (
      From-read get_peer-Reads (λ v. From-read (find_own-Reads v.piece_dls i off) (λ found.
        From->>
          (ask_unless-Linked found (
            From->>= (piece_dl_create-Keeps p i off (block_len len off)) (λ d. request-Linked p d)))
          (ask_loop-Linked fuel p i len (u32 (off + block_size))))))

  ask_peers-Linked : (ps : List ℕ) (i len : ℕ) → KeepsLinked {rb = rb} (ask_peers ps i len)
  unfolding ask_peers
  ask_peers-Linked [] i len = From-Reads pure-Reads
  ask_peers-Linked (p ∷ ps) i len = From-read get_peer-Reads (λ v.
      From-lift (passed_over v.bitfield i) (λ over.
        From->>
          (From-if over (From-Reads pure-Reads) (
            From-if v.state.choked (From-Reads pure-Reads)
              (ask_loop-Linked (suc (suc (len / block_size))) p i len 0)))
          (ask_peers-Linked ps i len)))

  endgame_pieces-Linked : (left i : ℕ) → KeepsLinked {rb = rb} (endgame_pieces left i)
  unfolding endgame_pieces
  endgame_pieces-Linked zero i = From-Reads pure-Reads
  endgame_pieces-Linked (suc left) i = From-get (λ s. From-lift (piece_find s.tp i) (λ tpp.
      From->> (From-if tpp.cksumok (From-Reads pure-Reads) (ask_peers-Linked s.peers i tpp.len))
        (endgame_pieces-Linked left (i + 1))))

  pub endgame_algorithm-Linked : KeepsLinked {rb = rb} endgame_algorithm
  unfolding endgame_algorithm
  endgame_algorithm-Linked = From-get (λ s. endgame_pieces-Linked s.tp.num_pieces 0)

module _ {rb : RbTree} (platform : Platform) where
  fill_loop-Linked : (left p : ℕ) → KeepsLinked {rb = rb} (fill_loop platform left p)
  unfolding fill_loop
  fill_loop-Linked zero p = From-Reads pure-Reads
  fill_loop-Linked (suc left) p =
      From->>= (piece_gimme-Linked platform p false)
        (λ r. From->> (request_if-Linked p r.0) (fill_loop-Linked left p))

  pub fill_requests-Linked : (p : ℕ) → KeepsLinked {rb = rb} (fill_requests platform p)
  unfolding fill_requests
  fill_requests-Linked p = From-get (λ s. From-read get_peer-Reads (λ v.
      From-if (not v.state.choked && ltb 0 (sub32 s.tp.num_pieces s.tp.good_pieces))
        (From-read (peer_rxrate-Reads p)
          (λ rate. fill_loop-Linked (queue_len rate v.dl_queue_len) p))
        (From-Reads pure-Reads)))
