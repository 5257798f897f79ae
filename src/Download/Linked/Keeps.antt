-- ===== src/Download/Linked/Keeps.antt =====
-- The steps that network.c and scheduler.c are made of, and the queues of piece downloads.
use unworkable.Common.{
  ℕ, ◌≡◌, sym, ◌∙◌, ◌==◌, List, Option, some, ok, arith, Option-cases, Bool-cases, inl, inr,
}
use mathlib.Core.Path.{subst}
use unworkable.Index.{RbTree}
use unworkable.Torrent.{Torrent}
use unworkable.Session.{PieceCounter, PieceDl, Peer, Session, Proc}
use unworkable.Session.Store.{◌>>◌, put_peer, put_torrent, update}
use unworkable.Session.Keeps.{From, Keeps, Held, ended}
use unworkable.Download.{piece_dl_create, piece_dl_free, peer_free}
use unworkable.Download.Linked.{Linked, own, own_of}
use unworkable.Download.Linked.Create.{piece_dl_create-Linked}
use unworkable.Download.Linked.Free.{piece_dl_free-Without, Without-Linked}
use unworkable.Download.Linked.Orphan.{same_queues-Linked, peer_free-Linked}

-- What is not of the queues may change.
pub others-Linked :
    {rb : RbTree} (s : Session rb) (tp : Torrent) (peers : List ℕ) (num_peers : ℕ)
    (sent : List (ℕ × List ℕ)) (rarity_array : Option (List PieceCounter)) (last_rarity draws : ℕ)
    (resume : Option (List ℕ))
    → Linked s
    → Linked (record s {
      tp = tp;
      peers = peers;
      num_peers = num_peers;
      sent = sent;
      rarity_array = rarity_array;
      last_rarity = last_rarity;
      draws = draws;
      resume = resume;
    })
others-Linked s tp peers num_peers sent rarity_array last_rarity draws resume linked = record {
  live = linked.live;
  indexed = linked.indexed;
  once = linked.once;
  full = linked.full;
  assigned = linked.assigned;
  owned = linked.owned;
  own_once = linked.own_once;
  room = linked.room;
}

module _ {rb : RbTree} where
  pub put_own :
      (s : Session rb) (p : ℕ) (v w : Peer)
      → s.peer p ≡ some v
      → w.piece_dls ≡ v.piece_dls
      → (q : ℕ) → own_of (update s.peer p (some w) q) ≡ own s q
  put_own s p v w h same q = elim (Bool-cases (q == p)) [
    | inl e ↦ ground arith
    | inr n ↦ ground arith
  ]

  -- A peer is changed that keeps its downloads.
  pub put_peer-Keeps :
      {p : ℕ} {v : Peer} (w : Peer)
      → w.piece_dls ≡ v.piece_dls
      → From (λ s. Linked {rb = rb} s) (Held p v) (put_peer p w)
  put_peer-Keeps {p} {v} w same = record {
    ends = λ s i h a t run.
        subst (λ u. Linked u) (ended run)
          (same_queues-Linked s (update s.peer p (some w)) (put_own s p v w h same) i);
  }

  -- The same, with what follows and works on the peer as it is then.
  pub put_peer-then :
      {B : Type 0} {p : ℕ} {v : Peer} (w : Peer) {k : Proc rb B}
      → w.piece_dls ≡ v.piece_dls
      → From (λ s. Linked {rb = rb} s) (Held p w) k
      → From (λ s. Linked {rb = rb} s) (Held p v) (put_peer p w >> k)
  put_peer-then {p = p} {v = v} w same k = record {
    ends = λ s i h b t run.
        k.ends (record s { peer = update s.peer p (some w) })
          (same_queues-Linked s (update s.peer p (some w)) (put_own s p v w h same) i)
          (ground arith) b t run;
  }

  pub put_torrent-Keeps :
      {tp : Torrent} {H : Session rb → Type 0} → From (λ s. Linked s) H (put_torrent tp)
  put_torrent-Keeps {tp} = record {
    ends = λ s i h a t run.
        subst (λ u. Linked u) (ended run)
          (others-Linked s tp s.peers s.num_peers s.sent s.rarity_array s.last_rarity s.draws
            s.resume i);
  }

  piece_dl_create_runs :
      (s : Session rb) (p idx off len d : ℕ) (t : Session rb)
      → piece_dl_create p idx off len s ≡ ok (d, t)
      → (w : Peer) × (s.peer p ≡ some w)
  unfolding piece_dl_create
  piece_dl_create_runs s p idx off len d t run = elim (Option-cases (s.peer p)) [
    | inl gone ↦ absurd (ground arith)
    | inr (w, e) ↦ (w, e)
  ]

  pub piece_dl_create-Keeps :
      (p idx off len : ℕ) → Keeps (λ s. Linked {rb = rb} s) (piece_dl_create p idx off len)
  piece_dl_create-Keeps p idx off len = record {
    ends = λ s i h d t run.
        let (w, there) = piece_dl_create_runs s p idx off len d t run in
        let (s', run', linked, _, _, _) = piece_dl_create-Linked s p idx off len i there in
        subst (λ u. Linked u) (ended (sym run' ∙ run)) linked;
  }

  piece_dl_free_runs :
      (s : Session rb) (pd : ℕ) (t : Session rb)
      → piece_dl_free pd s ≡ ok (tt, t)
      → (v : PieceDl) × (s.dl pd ≡ some v)
  unfolding piece_dl_free
  piece_dl_free_runs s pd t run = elim (Option-cases (s.dl pd)) [
    | inl gone ↦ absurd (ground arith)
    | inr (v, e) ↦ (v, e)
  ]

  pub piece_dl_free-Keeps : (pd : ℕ) → Keeps (λ s. Linked {rb = rb} s) (piece_dl_free pd)
  piece_dl_free-Keeps pd = record {
    ends = λ s i h a t run.
        let (v, there) = piece_dl_free_runs s pd t run in
        let (s', run', without) = piece_dl_free-Without s pd v i there in
        subst (λ u. Linked u) (ended (sym run' ∙ run)) (Without-Linked pd i without);
  }

  peer_free_runs :
      (s : Session rb) (p : ℕ) (t : Session rb)
      → peer_free p s ≡ ok (tt, t)
      → (w : Peer) × (s.peer p ≡ some w)
  unfolding peer_free
  peer_free_runs s p t run = elim (Option-cases (s.peer p)) [
    | inl gone ↦ absurd (ground arith)
    | inr (v, e) ↦ (v, e)
  ]

  pub peer_free-Keeps : (p : ℕ) → Keeps (λ s. Linked {rb = rb} s) (peer_free p)
  peer_free-Keeps p = record {
    ends = λ s i h a t run.
        let (w, there) = peer_free_runs s p t run in
        let (s', run', linked, _, _) = peer_free-Linked s p i there in
        subst (λ u. Linked u) (ended (sym run' ∙ run)) linked;
  }
