-- ===== src/Download/Linked/Choke.antt =====
-- The loop of a CHOKE message in network.c, and the count of a peer's requests.
use unworkable.Common.{
  ℕ, ◌+◌, ◌^◌, ◌<◌, ◌≡◌, ◌≢◌, refl, ap, ◌∙◌, List, [], ◌∷◌, some, arith, ok, length, sub32, u32,
}
use mathlib.Core.Path.{subst}
use unworkable.Index.{RbTree}
use unworkable.Session.{PieceDl, Peer, Session}
use unworkable.Session.Store.{unlink, update}
use unworkable.Download.{choke_loop}
use unworkable.Download.Linked.{own_of, own, Once, Linked}
use unworkable.Download.Linked.Orphan.{
  parted, parted-Linked, unlink_first, kept_first, same_queues-Linked,
}

module _ {rb : RbTree} (s : Session rb) (p pd : ℕ) (ds : List ℕ) (w : Peer) (v : PieceDl) where
  -- The peer after one round.
  abbrev counted : Peer
  counted = record w { piece_dls = ds; dl_queue_len = sub32 w.dl_queue_len 1 }

  abbrev pub after : Session rb
  after = record (parted s p pd v w ds) {
    peer = update (parted s p pd v w ds).peer p (some counted);
  }

  pub choke_round :
      s.dl pd ≡ some v
      → s.peer p ≡ some w
      → w.piece_dls ≡ pd ∷ ds
      → choke_loop p (pd ∷ ds) s ≡ choke_loop p ds after
  unfolding choke_loop
  choke_round there peer list =
      let out : unlink pd w.piece_dls ≡ some ds = rw list (unlink_first pd ds) in ground arith

  pub after-Linked :
      Linked s
      → s.dl pd ≡ some v
      → s.peer p ≡ some w
      → w.piece_dls ≡ pd ∷ ds
      → Once (pd ∷ ds)
      → Linked after
  after-Linked linked there peer list once =
      same_queues-Linked (parted s p pd v w ds)
        (update (parted s p pd v w ds).peer p (some counted)) (λ q. ground arith)
        (parted-Linked s p pd v w linked there peer ds once.1 (rw list (kept_first pd ds once))
          (ground arith))

module _ {rb : RbTree} (p : ℕ) where
  -- On linked queues, for a peer that is there, the loop of a CHOKE message is defined and keeps them linked.
  -- After it no download is with the peer, and its count of requests has been taken down
  -- by one for each download that was, modulo 2 ^ 32.
  pub choke_loop-Linked :
      (ds : List ℕ) (s : Session rb) {w : Peer}
      → Linked s
      → s.peer p ≡ some w
      → w.piece_dls ≡ ds
      → w.dl_queue_len < 2 ^ 32
      → (s' : Session rb) × (w' : Peer) × (choke_loop p ds s ≡ ok (tt, s'))
        × Linked s'
        × (s'.peer p ≡ some w')
        × (w'.piece_dls ≡ [])
        × (w'.dl_queue_len < 2 ^ 32)
        × (u32 (w'.dl_queue_len + length ds) ≡ w.dl_queue_len)
        × ((q : ℕ) → q ≢ p → s'.peer q ≡ s.peer q)
  unfolding choke_loop
  choke_loop-Linked [] s {w} linked peer list fits =
      (s, w, refl, linked, peer, list, fits, omega arith, λ q ne. refl)
  choke_loop-Linked (pd ∷ ds) s {w} linked peer list fits =
      let own_list : own s p ≡ pd ∷ ds = ap own_of peer ∙ list in
      let (v, there, c) = linked.owned p pd (rw own_list (ground arith)) in
      let once : Once (pd ∷ ds) = subst Once own_list (linked.own_once p) in
      let (s', w', run, linked', peer', empty, fits', count, others) =
        choke_loop-Linked ds (after s p pd ds w v) {w = counted s p pd ds w v}
          (after-Linked s p pd ds w v linked there peer list once) (ground arith) refl
          (omega arith) in
      (
        s',
        w',
        choke_round s p pd ds w v there peer list ∙ run,
        linked',
        peer',
        empty,
        fits',
        omega arith,
        λ q ne. others q ne ∙ ground arith,
      )
