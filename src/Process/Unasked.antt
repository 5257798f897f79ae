-- ===== src/Process/Unasked.antt =====
-- The PIECE message in network_peer_process_message of network.c, with a block that we did not ask for.
use unworkable.Common.{
  ℕ, ◌+◌, ◌-◌, ◌^◌, ◌<◌, ◌≡◌, ◌≢◌, refl, ap, ◌∙◌, true, false, not, List, Option, none, some, ok,
  ◌==◌, ltb, if◌then◌else◌, arith, Bool-cases, inl, inr, u64, sub32,
}
use unworkable.Index.{RbTree}
use unworkable.Platform.{Platform}
use unworkable.Torrent.{Piece}
use unworkable.Torrent.Pieces.Find.{Arrayed, piece_find_lem}
use unworkable.Session.{killed, PieceDl, Peer, Session, Proc}
use unworkable.Session.Store.{>>=-ok, update, pure, lift, get_dl, get_peer}
use unworkable.Download.{piece_dl_find}
use unworkable.Download.Linked.{Linked}
use unworkable.Download.Linked.Find.{Found, Found-some, piece_dl_find-queue}
use unworkable.Download.Linked.Keeps.{put_own}
use unworkable.Download.Linked.Orphan.{same_queues-Linked}
use unworkable.Wire.{read_u32}
use unworkable.Process.{get_rxmsg}
use unworkable.Process.Blocks.{found_block, on_block, on_piece}

range_lem : (n : ℕ) {idx : ℕ} → n + 7 < 2 ^ 32 → 0 < n → ltb (sub32 n 1) idx ≡ false → idx < n
range_lem n room some_piece h = ground arith

module _ {rb : RbTree} (platform : Platform) (announce : Proc rb (Unit {0})) (s : Session rb)
    (p idx off : ℕ) (v : Peer) (rxmsg : List ℕ) (linked : Linked s)
    (there : s.peer p ≡ some v) where
  -- A run that ends with linked queues and the torrent as it was.
  abbrev pub Harmless : Proc rb (Unit {0}) → Type 0
  Harmless m = (t : Session rb) × ((m s ≡ ok (tt, t)) × (Linked t × (t.tp ≡ s.tp)))

  abbrev marked_dead : Session rb
  marked_dead = record s { peer = update s.peer p (some (record v { state = killed })) }

  marked_dead-Linked : Linked marked_dead
  marked_dead-Linked =
      same_queues-Linked s (update s.peer p (some (record v { state = killed })))
        (put_own s p v (record v { state = killed }) there refl) linked

  -- No download of the block has the length of what has come.
  abbrev pub Unasked : Type 0
  Unasked =
      (d : ℕ) (w : PieceDl)
      → s.dl d ≡ some w
      → w.idx ≡ idx
      → w.off ≡ off
      → w.len ≢ u64 (v.rxmsglen + 2 ^ 64 - 9)

  found_lem :
      (tpp : Piece) (r : Option ℕ)
      → Unasked
      → Found s idx off r
      → Harmless (found_block platform announce p idx off rxmsg tpp r)
  found_lem tpp none unasked found = (marked_dead, (ground arith, (marked_dead-Linked, refl)))
  found_lem tpp (some d) unasked found =
      let (w, e, ei, eo) = linked.indexed idx off d (Found-some s idx off d found) in
      let other : not (u64 (v.rxmsglen + 2 ^ 64 - 9) == w.len) ≡ true =
        wrong_len w (unasked d w e ei eo) in
      (
        s,
        (
          >>=-ok (get_dl d) _ s {a = w} {s' = s} (ground arith)
              ∙ (>>=-ok (get_peer p) _ s {a = v} {s' = s} (ground arith) ∙ rw other refl),
          (linked, refl),
        ),
      )
    where
      wrong_len :
          (w : PieceDl)
          → w.len ≢ u64 (v.rxmsglen + 2 ^ 64 - 9)
          → not (u64 (v.rxmsglen + 2 ^ 64 - 9) == w.len) ≡ true
      wrong_len w n = elim (Bool-cases (u64 (v.rxmsglen + 2 ^ 64 - 9) == w.len)) [
        | inl same ↦ absurd (n (ground arith))
        | inr other ↦ ap not other
      ]

  block_lem :
      Arrayed s.tp
      → idx < s.tp.num_pieces
      → Unasked
      → Harmless (on_block platform announce p rxmsg off idx)
  block_lem v' in_range unasked =
      let (tpp, at, found) = piece_find_lem s.tp v' idx in_range in
      elim (Bool-cases (ltb tpp.len off)) [
        | inl behind ↦ (s, (rw (found, behind) refl, (linked, refl)))
        | inr inside ↦
            let (r, run, queued, _) =
              piece_dl_find-queue s (some p) idx off linked (λ q e. (v, ground arith)) in
            let (t, (run', rest)) = found_lem tpp r unasked queued in
            (
              t,
              (
                rw (found, inside)
                    (>>=-ok (piece_dl_find (some p) idx off) _ s {a = r} {s' = s} run ∙ run'),
                rest,
              ),
            )
      ]

  -- The reading of the message.
  piece_step :
      v.rxmsg ≡ some rxmsg
      → read_u32 rxmsg 1 ≡ ok idx
      → read_u32 rxmsg 5 ≡ ok off
      → on_piece platform announce p s
        ≡ (if ltb (sub32 s.tp.num_pieces 1) idx
              then pure tt
              else on_block platform announce p rxmsg off idx)
            s
  unfolding on_piece
  piece_step filled read_idx read_off =
      >>=-ok (get_rxmsg p) _ s {a = rxmsg} {s' = s} (ground arith)
      ∙ (>>=-ok (lift (read_u32 rxmsg 5)) _ s {a = off} {s' = s} (rw read_off refl)
          ∙ >>=-ok (lift (read_u32 rxmsg 1)) _ s {a = idx} {s' = s} (rw read_idx refl))

  -- On linked queues, with a descriptor for each piece and one at least, a PIECE message of a peer that is there, with an index and an offset for which we have no download of
  -- the length of its block, is processed to the end, writes nothing to the torrent and leaves the queues linked.
  pub on_piece-Unasked :
      Arrayed s.tp
      → 0 < s.tp.num_pieces
      → v.rxmsg ≡ some rxmsg
      → read_u32 rxmsg 1 ≡ ok idx
      → read_u32 rxmsg 5 ≡ ok off
      → Unasked
      → Harmless (on_piece platform announce p)
  on_piece-Unasked v' some_piece filled read_idx read_off unasked =
      let step = piece_step filled read_idx read_off in
      elim (Bool-cases (ltb (sub32 s.tp.num_pieces 1) idx)) [
        | inl out ↦ (s, (step ∙ rw out refl, (linked, refl)))
        | inr in_range ↦
            let (t, (run, rest)) =
              block_lem v' (range_lem s.tp.num_pieces v'.room some_piece in_range) unasked in
            (t, (step ∙ rw in_range run, rest))
      ]
