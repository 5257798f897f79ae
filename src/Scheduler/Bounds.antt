-- ===== src/Scheduler/Bounds.antt =====
-- The number of requests of scheduler_fill_requests, and the block that scheduler_piece_gimme takes, of
-- scheduler.c.
use unworkable.Common.{
  ℕ, zero, suc, ◌+◌, ◌*◌, ◌/◌, ◌^◌, ◌≤◌, ◌<◌, ◌≡◌, ◌≢◌, ◌⊎◌, refl, ◌∙◌, true, false, List, [], ◌∷◌,
  Option, none, some, ok, ltb, leb, arith, Bool-cases, Option-cases, inl, inr, u32,
}
use unworkable.Index.{RbTree}
use unworkable.Session.{PieceDl, Session, Proc}
use unworkable.Session.Store.{>>=-ok}
use unworkable.Download.{first_of_block, piece_dl_find}
use unworkable.Download.Linked.{Linked, queue, or_empty}
use unworkable.Download.Linked.Find.{piece_dl_find-none}
use unworkable.Scheduler.{block_size, abandoned}
use unworkable.Scheduler.Endgame.{taken_first, all_taken, blocks}
use unworkable.Scheduler.Gimme.{NextBlock, unqueued, recycled, block_len, block_round, block_loop}
use unworkable.Scheduler.Requests.{queue_len}

-- With the requests that are added, a peer has no more than a hundred, or than it had; and it has two at least.
pub queue_len-max_requests :
    (rate n : ℕ) → (n + queue_len rate n ≤ 100) ⊎ ((100 < n) × (queue_len rate n ≡ 0))
unfolding queue_len
queue_len-max_requests rate n = elim (Bool-cases (ltb 100 n)) [
  | inl many ↦ inr ((ground arith, ground arith))
  | inr few ↦ inl (ground arith)
]

pub queue_len-min : (rate n : ℕ) → 2 ≤ n + queue_len rate n
unfolding queue_len
queue_len-min rate n = ground arith

-- A block of a piece that no download is for, or a download of a block of it that no peer works on.
abbrev pub Open : {rb : RbTree} → Session rb → ℕ → ℕ → NextBlock → Type 0
Open s idx len (unqueued off) =
    (off < len) × ((off + block_len len off ≤ len) × (queue s idx off ≡ []))
Open s idx len (recycled d) =
    (v : PieceDl) × ((s.dl d ≡ some v)
      × ((v.idx ≡ idx) × ((v.off < len) × ((v.pc ≡ none) × (v.bytes ≢ v.len)))))

abandoned_parts : (v : PieceDl) → abandoned v ≡ true → (v.pc ≡ none) × (v.bytes ≢ v.len)
abandoned_parts v h = elim (Option-cases v.pc) [
  | inl e ↦ (e, λ same. absurd (ground arith))
  | inr (q, e) ↦ absurd (ground arith)
]

module _ {rb : RbTree} (s : Session rb) (linked : Linked s) (idx len : ℕ)
    (fits : len + block_size ≤ 2 ^ 32) where
  abbrev pub Finds : ℕ → ℕ → Type 0
  Finds fuel off =
      (m : NextBlock) × ((block_loop fuel idx len off s ≡ ok (m, s)) × Open s idx len m)

  -- What a round comes to, by the downloads of the block.
  round_lem :
      (off : ℕ) (rest : Proc rb NextBlock) (o : Option (List ℕ))
      → rb.find s.index idx off ≡ o
      → off < len
      → (taken_first s (or_empty o) ≡ true
          → (m : NextBlock) × ((rest s ≡ ok (m, s)) × Open s idx len m))
      → (m : NextBlock) × ((block_round off (first_of_block o) rest s ≡ ok (m, s))
          × Open s idx len m)
  round_lem off rest none e h onward = (unqueued off, (refl, (h, (ground arith, ground arith))))
  round_lem off rest (some []) e h onward = absurd (linked.full idx off e)
  round_lem off rest (some (d ∷ l)) e h onward =
      let (v, there, ei, eo) = linked.indexed idx off d (ground arith) in
      elim (Bool-cases (abandoned v)) [
        | inl a ↦
            let (free, short) = abandoned_parts v a in
            (recycled d, (ground arith, (v, (there, (ei, (ground arith, (free, short)))))))
        | inr b ↦ let (m, (run, loose)) = onward (ground arith) in (m, (ground arith, loose))
      ]

  block_loop_lem :
      (fuel n off : ℕ)
      → n < fuel
      → len ≤ off + n * block_size
      → off + n * block_size < len + block_size
      → all_taken s idx n off ≡ false
      → Finds fuel off
  unfolding block_loop
  block_loop_lem zero n off h lo hi loose = absurd (omega arith)
  block_loop_lem (suc fuel) zero off h lo hi loose = absurd (cc)
  block_loop_lem (suc fuel) (suc n) off h lo hi loose =
      let inside : leb len off ≡ false = ground arith in
      let rest : Proc rb NextBlock = block_loop fuel idx len (u32 (off + block_size)) in
      let (m, (run, found)) = round_lem off rest (rb.find s.index idx off) refl (omega arith) (λ t.
        let same : u32 (off + block_size) ≡ off + block_size = omega arith in
        rw same (
          block_loop_lem fuel n (off + block_size) (omega arith) (omega arith) (omega arith)
            (ground arith))) in
      (
        m,
        (
          rw inside (>>=-ok (piece_dl_find none idx off) _ s (piece_dl_find-none s idx off) ∙ run),
          found,
        ),
      )

  -- On linked queues, where some block of a piece that is a block short of 2 ^ 32 bytes has no download, or has as the
  -- first of its queue one that is not complete and that no peer works on, the scheduler's search for a block of it ends,
  -- changes nothing and never stops the process. It gives a block within the piece that no download is for, or a download of a
  -- block of that piece that is not complete and that no peer works on.
  pub block_loop-Open :
      all_taken s idx (blocks len) 0 ≡ false → Finds (suc (suc (len / block_size))) 0
  block_loop-Open loose =
      block_loop_lem (suc (suc (len / block_size))) (blocks len) 0 (omega arith) (omega arith)
        (omega arith) loose
