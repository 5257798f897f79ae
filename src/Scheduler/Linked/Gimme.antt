-- ===== src/Scheduler/Linked/Gimme.antt =====
-- scheduler_piece_gimme of scheduler.c leaves the queues of piece downloads linked.
use unworkable.Common.{
  ℕ, zero, suc, ◌+◌, ◌/◌, ◌≡◌, sym, Bool, true, false, List, [], Option, none, some, ok, must,
  get_elem?, ◌==◌, leb, u32, arith, Bool-cases, Option-cases, inl, inr,
}
use mathlib.Core.Path.{subst}
use unworkable.Index.{RbTree}
use unworkable.Platform.{Platform}
use unworkable.Torrent.{Piece}
use unworkable.Torrent.Pieces.{piece_find}
use unworkable.Session.{PieceDl, Peer, Session, Proc}
use unworkable.Session.Store.{◌>>=◌, pure, >>=-last}
use unworkable.Session.Keeps.{
  ended, From-Reads, From-get, From-lift, From->>, From->>=, From-if, From-read, pure-Reads,
  get_peer-Reads, if-Reads, lift-Reads,
}
use unworkable.Download.{piece_dl_find}
use unworkable.Download.Linked.{Linked}
use unworkable.Download.Linked.Keeps.{others-Linked, piece_dl_create-Keeps}
use unworkable.Download.Linked.Adopt.{adopted-Linked}
use unworkable.Send.Linked.{KeepsLinked}
use unworkable.Scheduler.{block_size, abandoned}
use unworkable.Scheduler.Rarity.{piece_cmp, piece_rarityarray, find_rarest}
use unworkable.Scheduler.Gimme.{
  NextBlock, unqueued, recycled, block_round, block_loop, take_block, block_len, get_block,
  random_below, random_piece, rare_piece, or_fresh, from_piece, piece_gimme,
}
use unworkable.Scheduler.Reads.{
  rarity_loop-Reads, rarest_loop-Reads, begun_loop-Reads, useful_count-Reads, useful_pieces-Reads,
  block_loop-Reads, piece_dl_find-Reads,
}

-- What the search for a block comes to: a download that it finds has no peer.
abbrev Loose : {rb : RbTree} → Session rb → NextBlock → Type 0
Loose s (unqueued off) = Unit
Loose s (recycled d) = (v : PieceDl) × ((s.dl d ≡ some v) × (v.pc ≡ none))

abandoned_free : (v : PieceDl) → abandoned v ≡ true → v.pc ≡ none
abandoned_free v h = elim (Option-cases v.pc) [ inl e ↦ e | inr (q, e) ↦ absurd (ground arith) ]

module _ {rb : RbTree} where
  block_round-Loose :
      (off : ℕ) (o : Option ℕ) (rest : Proc rb NextBlock) (s : Session rb) (n : NextBlock)
      (t : Session rb)
      → (rest s ≡ ok (n, t) → Loose s n)
      → block_round off o rest s ≡ ok (n, t)
      → Loose s n
  block_round-Loose off none rest s (unqueued o') t h run = tt
  block_round-Loose off none rest s (recycled d) t h run = absurd (ground arith)
  block_round-Loose off (some d) rest s n t h run = elim (Option-cases (s.dl d)) [
    | inl gone ↦ absurd (ground arith)
    | inr (v, e) ↦ elim (Bool-cases (abandoned v)) [
      | inl a ↦
          let found : n ≡ recycled d = ground arith in
          subst (λ m. Loose s m) (sym found) ((v, (e, abandoned_free v a)))
      | inr b ↦ h (ground arith)
    ]
  ]

  block_loop-Loose :
      (fuel idx len off : ℕ) (s : Session rb) (n : NextBlock) (t : Session rb)
      → block_loop fuel idx len off s ≡ ok (n, t)
      → Loose s n
  unfolding block_loop
  block_loop-Loose zero idx len off s n t run = absurd (cc)
  block_loop-Loose (suc fuel) idx len off s n t run = elim (Bool-cases (leb len off)) [
    | inl past ↦ absurd (ground arith)
    | inr inside ↦
        let rest : Proc rb NextBlock = block_loop fuel idx len (u32 (off + block_size)) in
        >>=-last (piece_dl_find none idx off) (λ pd. block_round off pd rest) s
          (λ o u e r.
            let same : s ≡ u = (piece_dl_find-Reads none idx off).same s o u e in
            subst (λ x. Loose x n) (sym same)
              (block_round-Loose off o rest u n t
                (λ r'. block_loop-Loose fuel idx len (u32 (off + block_size)) u n t r') r))
          (rw inside at run)
  ]

  recycled-Linked :
      (p len d : ℕ) (s : Session rb) (b : ℕ) (t : Session rb)
      → Linked s
      → Loose s (recycled d)
      → take_block p 0 len (recycled d) s ≡ ok (b, t)
      → Linked t
  recycled-Linked p len d s b t linked (v, (e, free)) run = elim (Option-cases (s.peer p)) [
    | inl gone ↦ absurd (ground arith)
    | inr (w, there) ↦
        subst (λ u. Linked u) (ended {a = d} {b = b} (ground arith))
          (adopted-Linked s p d v w linked e free there)
  ]

  take_block-Linked :
      (p idx len : ℕ) (n : NextBlock) (s : Session rb) (b : ℕ) (t : Session rb)
      → Linked s
      → Loose s n
      → take_block p idx len n s ≡ ok (b, t)
      → Linked t
  take_block-Linked p idx len (unqueued off) s b t linked h run =
      (piece_dl_create-Keeps p idx off (block_len len off)).ends s linked tt b t run
  take_block-Linked p idx len (recycled d) s b t linked h run =
      recycled-Linked p len d s b t linked h run

  get_block-Linked :
      (p : ℕ) (nocreate : Bool) (idx : ℕ) (tpp : Piece)
      → KeepsLinked {rb = rb} (get_block p nocreate idx tpp)
  get_block-Linked p true idx tpp = From-Reads pure-Reads
  get_block-Linked p false idx tpp = record {
    ends = λ s i h b t run.
        let search_blocks : Proc rb NextBlock =
          block_loop (suc (suc (tpp.len / block_size))) idx tpp.len 0 in
        >>=-last search_blocks (λ n. take_block p idx tpp.len n >>= λ d. pure (some d, false)) s
          (λ n u e r.
            let same : s ≡ u =
              (block_loop-Reads (suc (suc (tpp.len / block_size))) idx tpp.len 0).same s n u e in
            let loose : Loose u n =
              subst (λ x. Loose x n) same
                (block_loop-Loose (suc (suc (tpp.len / block_size))) idx tpp.len 0 s n u e) in
            >>=-last (take_block p idx tpp.len n) (λ d. pure (some d, false)) u
              (λ d x e' r'.
                subst (λ y. Linked y) (ended r')
                  (take_block-Linked p idx tpp.len n u d x (subst (λ x'. Linked x') same i) loose
                    e'))
              r)
          run;
  }

module _ {rb : RbTree} (platform : Platform) where
  rarityarray-Linked : KeepsLinked {rb = rb} (piece_rarityarray platform)
  unfolding piece_rarityarray
  rarityarray-Linked = From-get (λ s. From-read (rarity_loop-Reads _ 0) (λ pieces. record {
    ends = λ t i h a t' run.
        subst (λ x. Linked x) (ended run)
          (others-Linked t t.tp t.peers t.num_peers t.sent (some (platform.qsort piece_cmp pieces))
            t.now t.draws t.resume i);
  }))

  find_rarest-Linked :
      (p : ℕ) (ignore_assigned : Bool)
      → KeepsLinked {rb = rb} (find_rarest platform p ignore_assigned)
  unfolding find_rarest
  find_rarest-Linked p ignore_assigned = From-get (λ s.
      From->> (From-if _ rarityarray-Linked (From-Reads pure-Reads)) (
        From-get (λ s'. From-read get_peer-Reads (λ v.
          From-read
            (if-Reads (s'.tp.num_pieces == 0) (pure-Reads {a = []})
              (lift-Reads (must s'.rarity_array)))
            (λ pieces.
              From-Reads
                (rarest_loop-Reads s'.tp.num_pieces 0 ignore_assigned v.bitfield pieces none))))))

  pub random_below-Linked : (n : ℕ) → KeepsLinked {rb = rb} (random_below platform n)
  random_below-Linked n = record {
    ends = λ t i h a t' run.
        subst (λ x. Linked x) (ended run)
          (others-Linked t t.tp t.peers t.num_peers t.sent t.rarity_array t.last_rarity
            (suc t.draws) t.resume i);
  }

  random_piece-Linked :
      (bitfield : Option (List ℕ)) → KeepsLinked {rb = rb} (random_piece platform bitfield)
  unfolding random_piece
  random_piece-Linked bitfield = From-get (λ s.
      From-read (useful_count-Reads bitfield s.tp.num_pieces 0) (λ n.
        From-if (n == 0) (From-Reads pure-Reads) (
          From-read (useful_pieces-Reads bitfield s.tp.num_pieces 0) (λ pieces.
            From->>= (random_below-Linked n) (λ r. From-lift (must (get_elem? pieces r)) (λ idx.
              From-lift (piece_find s.tp idx)
                (λ tpp. From-Reads (pure-Reads {a = some (idx, tpp)}))))))))

  rare_piece-Linked : (p : ℕ) → KeepsLinked {rb = rb} (rare_piece platform p)
  unfolding rare_piece
  rare_piece-Linked p = From->>= (find_rarest-Linked p true) (λ found. From-get (λ s.
      From-if found.1
        (From-lift (piece_find s.tp found.0)
          (λ tpp. From-Reads (pure-Reads {a = some (found.0, tpp)})))
        (From-Reads (pure-Reads {a = none}))))

  or_fresh-Linked :
      (p : ℕ) (v : Peer) (found : Option (ℕ × Piece))
      → KeepsLinked {rb = rb} (or_fresh platform p v found)
  or_fresh-Linked p v (some found) = From-Reads pure-Reads
  or_fresh-Linked p v none =
      From-get (λ s. From-if _ (random_piece-Linked v.bitfield) (rare_piece-Linked p))

  from_piece-Linked :
      (p : ℕ) (nocreate : Bool) (found : Option (ℕ × Piece))
      → KeepsLinked {rb = rb} (from_piece platform p nocreate found)
  from_piece-Linked p nocreate none = From-Reads pure-Reads
  from_piece-Linked p nocreate (some (idx, tpp)) = get_block-Linked p nocreate idx tpp

  -- Wherever the choice of a block ends, the queues that were linked are linked.
  pub piece_gimme-Linked :
      (p : ℕ) (nocreate : Bool) → KeepsLinked {rb = rb} (piece_gimme platform p nocreate)
  unfolding piece_gimme
  piece_gimme-Linked p nocreate = From-read get_peer-Reads (λ v. From-get (λ s.
      From-read (begun_loop-Reads (rb.foreach s.index) v.bitfield) (λ begun.
        From->>= (or_fresh-Linked p v begun) (λ found. from_piece-Linked p nocreate found))))
