-- ===== src/Download/Linked/Create.antt =====
-- network_piece_dl_create of network.c keeps the queues and the downloads together.
use unworkable.Common.{
  ℕ, suc, ◌≡◌, ◌≢◌, refl, ◌∙◌, List, [], ◌∷◌, ◌++◌, true, false, ◌&&◌, ◌||◌, Option, none, some,
  arith, ◌==◌, if◌then◌else◌, ok, Bool-cases, Option-cases, inl, inr,
}
use unworkable.Index.{RbTree}
use unworkable.Session.{PieceDl, Peer, Session}
use unworkable.Session.Store.{has, update}
use unworkable.Download.{queue_with, piece_dl_create}
use unworkable.Download.Linked.{or_empty, queue, own, Once, Linked, has_last, Once-append}

module _ {rb : RbTree} (s : Session rb) (p idx off len : ℕ) (w : Peer) where
  abbrev made : PieceDl
  made = record { pc = some p; idx = idx; off = off; len = len; bytes = 0 }

  -- The session after the creation.
  abbrev pub created : Session rb
  created = record s {
    dl = update s.dl s.fresh_dl (some made);
    fresh_dl = suc s.fresh_dl;
    index = rb.store s.index idx off (queue_with (rb.find s.index idx off) s.fresh_dl);
    peer = update s.peer p (some (record w { piece_dls = w.piece_dls ++ (s.fresh_dl ∷ []) }));
  }

  module _ (linked : Linked s) (there : s.peer p ≡ some w) where
    create-created : piece_dl_create p idx off len s ≡ ok (s.fresh_dl, created)
    unfolding piece_dl_create
    create-created = ground arith

    -- An address that is not allocated stands in no queue.
    unqueued : (i o : ℕ) → has s.fresh_dl (queue s i o) ≡ false
    unqueued i o = elim (Bool-cases (has s.fresh_dl (queue s i o))) [
      | inl there ↦
          let (v, e, _, _) = linked.indexed i o s.fresh_dl there in
          absurd (omega (arith, linked.room s.fresh_dl v e))
      | inr out ↦ out
    ]

    unowned : (q : ℕ) → has s.fresh_dl (own s q) ≡ false
    unowned q = elim (Bool-cases (has s.fresh_dl (own s q))) [
      | inl there ↦
          let (v, e, _) = linked.owned q s.fresh_dl there in
          absurd (omega (arith, linked.room s.fresh_dl v e))
      | inr out ↦ out
    ]

    queue_with_lem : (o : Option (List ℕ)) (d : ℕ) → queue_with o d ≡ or_empty o ++ (d ∷ [])
    queue_with_lem none d = refl
    queue_with_lem (some l) d = refl

    -- The queues after the creation.
    queue-created :
        (i o : ℕ)
        → queue created i o
          ≡ (if idx == i && off == o then queue s idx off ++ (s.fresh_dl ∷ []) else queue s i o)
    queue-created i o = ground (
      arith,
      rb.find-store s.index idx off (queue_with (rb.find s.index idx off) s.fresh_dl) i o,
      queue_with_lem (rb.find s.index idx off) s.fresh_dl,
    )

    own-created :
        (q : ℕ) → own created q ≡ (if q == p then own s p ++ (s.fresh_dl ∷ []) else own s q)
    own-created q = ground arith

    has-queue :
        (d i o : ℕ)
        → has d (queue created i o)
          ≡ (has d (queue s i o) || ((idx == i && off == o) && d == s.fresh_dl))
    has-queue d i o = ground (arith, queue-created i o, has_last (queue s idx off) s.fresh_dl d)

    has-own : (d q : ℕ) → has d (own created q) ≡ (has d (own s q) || (q == p && d == s.fresh_dl))
    has-own d q = ground (arith, own-created q, has_last (own s p) s.fresh_dl d)

    nonempty : (q : Option (List ℕ)) (d : ℕ) → some (queue_with q d) ≢ some []
    nonempty none d e = cc
    nonempty (some []) d e = cc
    nonempty (some (x ∷ l)) d e = cc

    find-created : (i o : ℕ) → rb.find created.index i o ≢ some []
    find-created i o = ground (
      arith,
      rb.find-store s.index idx off (queue_with (rb.find s.index idx off) s.fresh_dl) i o,
      nonempty (rb.find s.index idx off) s.fresh_dl,
      linked.full i o,
    )

    indexed-created :
        (i o d : ℕ)
        → has d (queue created i o) ≡ true
        → (v : PieceDl) × (created.dl d ≡ some v) × (v.idx ≡ i) × (v.off ≡ o)
    indexed-created i o d h = elim (Bool-cases (d == s.fresh_dl)) [
      | inl new ↦ (
        made,
        ground arith,
        ground (arith, has-queue d i o, unqueued i o),
        ground (arith, has-queue d i o, unqueued i o),
      )
      | inr old ↦
          let (v, e, ei, eo) = linked.indexed i o d (ground (arith, has-queue d i o)) in
          (v, ground arith, ei, eo)
    ]

    owned-created :
        (q d : ℕ)
        → has d (own created q) ≡ true
        → (v : PieceDl) × (created.dl d ≡ some v) × (v.pc ≡ some q)
    owned-created q d h = elim (Bool-cases (d == s.fresh_dl)) [
      | inl new ↦ (made, ground arith, ground (arith, has-own d q, unowned q))
      | inr old ↦
          let (v, e, c) = linked.owned q d (ground (arith, has-own d q)) in (v, ground arith, c)
    ]

    Once-created : (i o : ℕ) → Once (queue created i o)
    Once-created i o = elim (Bool-cases (idx == i && off == o)) [
      | inl here ↦
          rw (queue-created i o, here)
            (Once-append (queue s idx off) s.fresh_dl (linked.once idx off) (unqueued idx off))
      | inr apart ↦ rw (queue-created i o, apart) (linked.once i o)
    ]

    own-Once-created : (q : ℕ) → Once (own created q)
    own-Once-created q = elim (Bool-cases (q == p)) [
      | inl here ↦
          rw (own-created q, here)
            (Once-append (own s p) s.fresh_dl (linked.own_once p) (unowned p))
      | inr apart ↦ rw (own-created q, apart) (linked.own_once q)
    ]

    pub created-Linked : Linked created
    created-Linked = record {
      live = λ d v e. ground (arith, has-queue d v.idx v.off, linked.live d v);
      indexed = indexed-created;
      once = Once-created;
      full = find-created;
      assigned = λ d q v e c. ground (arith, has-own d q, linked.assigned d q v);
      owned = owned-created;
      own_once = own-Once-created;
      room = λ d v e. ground (arith, linked.room d v);
    }

unallocated : {rb : RbTree} (s : Session rb) → Linked s → s.dl s.fresh_dl ≡ none
unallocated s linked = elim (Option-cases (s.dl s.fresh_dl)) [
  | inl free ↦ free
  | inr (v, e) ↦ absurd (omega (arith, linked.room s.fresh_dl v e))
]

-- On linked queues the creation of a download for a peer that is there is defined, takes a fresh address,
-- puts it last in the queue of the block and in that of the peer, and keeps the queues linked.
pub piece_dl_create-Linked :
    {rb : RbTree} (s : Session rb) (p idx off len : ℕ) {w : Peer}
    → Linked s
    → s.peer p ≡ some w
    → (s' : Session rb) × (piece_dl_create p idx off len s ≡ ok (s.fresh_dl, s'))
      × Linked s'
      × (s.dl s.fresh_dl ≡ none)
      × (queue s' idx off ≡ queue s idx off ++ (s.fresh_dl ∷ []))
      × (own s' p ≡ own s p ++ (s.fresh_dl ∷ []))
piece_dl_create-Linked s p idx off len {w} linked there = (
  created s p idx off len w,
  create-created s p idx off len w linked there,
  created-Linked s p idx off len w linked there,
  unallocated s linked,
  queue-created s p idx off len w linked there idx off ∙ ground arith,
  own-created s p idx off len w linked there p ∙ ground arith,
)
