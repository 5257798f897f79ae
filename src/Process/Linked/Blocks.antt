-- ===== src/Process/Linked/Blocks.antt =====
-- The PIECE message and network_peer_process_message of network.c as a whole leave the queues of piece
-- downloads linked.
use unworkable.Common.{
  ℕ, zero, suc, ◌+◌, ◌-◌, ◌/◌, ◌^◌, refl, not, List, [], ◌∷◌, Option, none, some, ok, die, fault,
  ◌==◌, leb, ltb, drop, set, u32, u64,
}
use mathlib.Core.Path.{subst}
use unworkable.Index.{RbTree}
use unworkable.Platform.{Platform}
use unworkable.Torrent.{Piece}
use unworkable.Torrent.Hash.{piece_checkhash}
use unworkable.Torrent.Mapping.{piece_unmap}
use unworkable.Torrent.Pieces.{piece_find}
use unworkable.Torrent.Resume.{fastresume_dump}
use unworkable.Session.{killed, Session, Proc}
use unworkable.Session.Keeps.{
  From, Reads, ended, From-Reads, From-get, From-lift, From-get_peer, From-get_dl, From->>, From-if,
  From-read, pure-Reads, get_peer-Reads, get_dl-Reads, lift-Reads, if-Reads, >>=-Reads,
}
use unworkable.Download.Linked.{Linked}
use unworkable.Download.Linked.Keeps.{
  others-Linked, put_peer-Keeps, put_torrent-Keeps, piece_dl_free-Keeps,
}
use unworkable.Download.Linked.Adopt.{put_dl-Keeps}
use unworkable.Send.Linked.{KeepsLinked, ensure_mapped-Linked, peer_write_have-Linked}
use unworkable.Transfer.{put_piece, arrive, peer_read_piece}
use unworkable.Scheduler.{block_size}
use unworkable.Scheduler.Reads.{piece_dl_find-Reads}
use unworkable.Wire.{read_u32}
use unworkable.Wire.MsgId
use unworkable.Process.Blocks.{
  block_here, complete_loop, free_found, clean_loop, write_haves, count_piece, all_good, piece_good,
  piece_complete, store_block, stamp, found_block, on_piece, process_message,
}
use unworkable.Process.Linked.Messages.{
  put_state-Linked, on_state-Linked, rxmsg-Reads, with_index-Linked, on_choke-Linked,
  on_request-Linked, on_cancel-Linked, on_reject-Linked, on_suggest-Linked, on_allowedfast-Linked,
  on_have-Linked, on_bitfield-Linked, on_have_same-Linked,
}

module _ {rb : RbTree} where
  put_piece-Linked :
      {H : Session rb → Type 0} (idx : ℕ) (tpp : Piece) (len : ℕ)
      → From (λ s. Linked {rb = rb} s) H (put_piece idx tpp len)
  put_piece-Linked idx tpp len = record {
    ends = λ t i h a t' run.
        subst (λ x. Linked x) (ended run)
          (others-Linked t
            (record (t.tp) {
              piece_array = set t.tp.piece_array idx tpp;
              downloaded = t.tp.downloaded + len;
            })
            t.peers t.num_peers t.sent t.rarity_array t.last_rarity t.draws t.resume i);
  }

  arrive-Linked :
      (p idx off : ℕ) (d : List ℕ) (tpp : Piece) (pd : Option ℕ)
      → KeepsLinked {rb = rb} (arrive p idx off d tpp pd)
  arrive-Linked p idx off d tpp none = From-Reads pure-Reads
  arrive-Linked p idx off d tpp (some pd) = From-get_dl (λ v.
      From->> (put_dl-Keeps _ refl refl refl)
        (From->> (put_piece-Linked idx _ _) (From-get_peer (λ w. put_peer-Keeps _ refl))))

  peer_read_piece-Linked :
      (p idx off : ℕ) (d : List ℕ) → KeepsLinked {rb = rb} (peer_read_piece p idx off d)
  unfolding peer_read_piece
  peer_read_piece-Linked p idx off d = From-get (λ s. From-lift (piece_find s.tp idx) (λ tpp.
      From-read (piece_dl_find-Reads (some p) idx off) (λ pd. arrive-Linked p idx off d tpp pd)))

  block_here-Reads : (d : Option ℕ) → Reads {rb = rb} (block_here d)
  block_here-Reads none = pure-Reads
  block_here-Reads (some d) = >>=-Reads get_dl-Reads (λ v. pure-Reads)

  complete_loop-Reads :
      (fuel p idx len off : ℕ) → Reads {rb = rb} (complete_loop fuel p idx len off)
  unfolding complete_loop
  complete_loop-Reads zero p idx len off = lift-Reads fault
  complete_loop-Reads (suc fuel) p idx len off = if-Reads (leb len off) pure-Reads (
      >>=-Reads (piece_dl_find-Reads (some p) idx off) (λ pd.
        >>=-Reads (block_here-Reads pd) (λ here.
          if-Reads here (complete_loop-Reads fuel p idx len (u32 (off + block_size))) pure-Reads)))

  free_found-Linked : (d : Option ℕ) → KeepsLinked {rb = rb} (free_found d)
  free_found-Linked none = From-Reads pure-Reads
  free_found-Linked (some d) = piece_dl_free-Keeps d

  clean_loop-Linked : (fuel idx len off : ℕ) → KeepsLinked {rb = rb} (clean_loop fuel idx len off)
  unfolding clean_loop
  clean_loop-Linked zero idx len off = From-Reads (lift-Reads fault)
  clean_loop-Linked (suc fuel) idx len off = From-if (leb len off) (From-Reads pure-Reads) (
      From-read (piece_dl_find-Reads none idx off) (λ pd.
        From->> (free_found-Linked pd) (clean_loop-Linked fuel idx len (u32 (off + block_size)))))

  write_haves-Linked : (qs : List ℕ) (idx : ℕ) → KeepsLinked {rb = rb} (write_haves qs idx)
  unfolding write_haves
  write_haves-Linked [] idx = From-Reads pure-Reads
  write_haves-Linked (q ∷ qs) idx =
      From->> (peer_write_have-Linked q idx) (write_haves-Linked qs idx)

  dumped-Linked :
      (dump : List ℕ) → KeepsLinked {rb = rb} (λ t. ok (tt {0}, record t { resume = some dump }))
  dumped-Linked dump = record {
    ends = λ t i h a t' run.
        subst (λ x. Linked x) (ended run)
          (others-Linked t t.tp t.peers t.num_peers t.sent t.rarity_array t.last_rarity t.draws
            (some dump) i);
  }

  count_piece-Linked : (len : ℕ) → KeepsLinked {rb = rb} (count_piece len)
  count_piece-Linked len = From-get (λ s.
      From-lift (fastresume_dump s.tp) (λ dump. From->> (dumped-Linked dump) put_torrent-Keeps))

module _ {rb : RbTree} (platform : Platform) (announce : Proc rb (Unit {0}))
    (keeps : KeepsLinked announce) where
  all_good-Linked : KeepsLinked {rb = rb} (all_good platform announce)
  all_good-Linked = From-get (λ s.
      From-if (not (s.tp.good_pieces == s.tp.num_pieces)) (From-Reads pure-Reads) (
        From-if (not s.seed) (From-Reads (lift-Reads die))
          (From-if s.announce_underway (From-Reads pure-Reads) keeps)))

  piece_good-Linked : (idx len : ℕ) → KeepsLinked {rb = rb} (piece_good platform announce idx len)
  piece_good-Linked idx len =
      From->> (count_piece-Linked len)
        (From->> all_good-Linked (From-get (λ s. write_haves-Linked s.peers idx)))

  piece_complete-Linked :
      (idx : ℕ) (tpp : Piece) → KeepsLinked {rb = rb} (piece_complete platform announce idx tpp)
  unfolding piece_complete
  piece_complete-Linked idx tpp = From-get (λ s.
      From-lift (piece_checkhash platform.sha1 s.tp idx) (λ r.
        From-lift (piece_unmap platform.page_size r.1 idx) (λ tp. From->> put_torrent-Keeps (
          From->> (From-if r.0 (piece_good-Linked idx tpp.len) (From-Reads pure-Reads))
            (clean_loop-Linked (suc (suc (tpp.len / block_size))) idx tpp.len 0)))))

  store_block-Linked :
      (p idx off : ℕ) (d : List ℕ) (tpp : Piece)
      → KeepsLinked {rb = rb} (store_block platform announce p idx off d tpp)
  store_block-Linked p idx off d tpp = From-get_peer (λ w. From->> (put_peer-Keeps _ refl) (
      From->> (ensure_mapped-Linked idx tpp) (
        From->> (peer_read_piece-Linked p idx off d) (
          From-get (λ s. From-lift (piece_find s.tp idx) (λ tpp'.
            From-read (complete_loop-Reads (suc (suc (tpp'.len / block_size))) p idx tpp'.len 0)
              (λ complete.
                From-if complete (piece_complete-Linked idx tpp') (From-Reads pure-Reads))))))))

  stamp-Linked : (p : ℕ) → KeepsLinked {rb = rb} (stamp p)
  stamp-Linked p = From-get_peer (λ v. From-get (λ s. put_peer-Keeps _ refl))

  found_block-Linked :
      (p idx off : ℕ) (rxmsg : List ℕ) (tpp : Piece) (d : Option ℕ)
      → KeepsLinked {rb = rb} (found_block platform announce p idx off rxmsg tpp d)
  found_block-Linked p idx off rxmsg tpp none = put_state-Linked p killed
  found_block-Linked p idx off rxmsg tpp (some d) = From-read get_dl-Reads (λ v.
      From-read get_peer-Reads (λ w.
        From-if (not (u64 (w.rxmsglen + 2 ^ 64 - 9) == v.len)) (From-Reads pure-Reads) (
          From->>
            (From-if tpp.cksumok (From-Reads pure-Reads)
              (store_block-Linked p idx off (drop 9 rxmsg) tpp))
            (stamp-Linked p))))

  on_piece-Linked : (p : ℕ) → KeepsLinked {rb = rb} (on_piece platform announce p)
  unfolding on_piece
  on_piece-Linked p = From-read (rxmsg-Reads p) (λ rxmsg. From-lift (read_u32 rxmsg 5) (λ off.
      with_index-Linked rxmsg (λ idx. From-get (λ s. From-lift (piece_find s.tp idx) (λ tpp.
        From-if (ltb tpp.len off) (From-Reads pure-Reads) (
          From-read (piece_dl_find-Reads (some p) idx off)
            (λ pd. found_block-Linked p idx off rxmsg tpp pd)))))))

  pub process_message_keeps :
      (id p : ℕ) → KeepsLinked {rb = rb} (process_message platform announce id p)
  unfolding process_message
  process_message_keeps id p = From-if (id == MsgId.choke) (on_choke-Linked p) (
      From-if (id == MsgId.unchoke) (on_state-Linked p _) (
        From-if (id == MsgId.interested) (on_state-Linked p _) (
          From-if (id == MsgId.notinterested) (on_state-Linked p _) (
            From-if (id == MsgId.have) (on_have-Linked platform p) (
              From-if (id == MsgId.bitfield) (on_bitfield-Linked platform p) (
                From-if (id == MsgId.request) (on_request-Linked p) (
                  From-if (id == MsgId.piece) (on_piece-Linked p) (
                    From-if (id == MsgId.cancel) (on_cancel-Linked p) (
                      From-if (id == MsgId.reject) (on_reject-Linked p) (
                        From-if (id == MsgId.havenone) (on_have_same-Linked platform 0 p) (
                          From-if (id == MsgId.haveall) (on_have_same-Linked platform 0xFF p) (
                            From-if (id == MsgId.allowedfast) (on_allowedfast-Linked p) (
                              From-if (id == MsgId.suggest) (on_suggest-Linked p)
                                (From-Reads pure-Reads))))))))))))))
