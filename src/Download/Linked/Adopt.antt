-- ===== src/Download/Linked/Adopt.antt =====
-- scheduler_piece_gimme of scheduler.c gives a download that no peer works on to a peer; and network.c
-- counts the bytes of a download, and takes all of a peer that has choked us away.
use unworkable.Common.{
  ℕ, ◌≡◌, refl, ap, sym, ◌∙◌, true, false, ◌==◌, ◌||◌, ◌&&◌, if◌then◌else◌, sub32, List, [], ◌∷◌,
  ◌++◌, none, some, ok, arith, Bool-cases, inl, inr,
}
use mathlib.Core.Path.{subst}
use unworkable.Index.{RbTree}
use unworkable.Session.{PieceDl, Peer, Session}
use unworkable.Session.Store.{put_dl, update, has}
use unworkable.Session.Keeps.{From, Held, ended}
use unworkable.Download.{choke_loop}
use unworkable.Download.Linked.{Linked, Once, own, own_of, queue, has_last, Once-append}
use unworkable.Download.Linked.Choke.{after, after-Linked, choke_round}

-- A download with other bytes.
module _ {rb : RbTree} (s : Session rb) (d : ℕ) (v w : PieceDl) (linked : Linked s)
    (there : s.dl d ≡ some v) (same_pc : w.pc ≡ v.pc) (same_idx : w.idx ≡ v.idx)
    (same_off : w.off ≡ v.off) where
  abbrev refilled : Session rb
  refilled = record s { dl = update s.dl d (some w) }

  indexed-refilled :
      (i o a : ℕ)
      → has a (queue s i o) ≡ true
      → (v' : PieceDl) × (refilled.dl a ≡ some v') × (v'.idx ≡ i) × (v'.off ≡ o)
  indexed-refilled i o a h =
      let (v', e, ei, eo) = linked.indexed i o a h in
      elim (Bool-cases (a == d)) [
        | inl same ↦ (w, ground arith, ground arith, ground arith)
        | inr other ↦ (v', ground arith, ei, eo)
      ]

  owned-refilled :
      (q a : ℕ)
      → has a (own s q) ≡ true
      → (v' : PieceDl) × (refilled.dl a ≡ some v') × (v'.pc ≡ some q)
  owned-refilled q a h =
      let (v', e, c) = linked.owned q a h in
      elim (Bool-cases (a == d)) [
        | inl same ↦ (w, ground arith, ground arith)
        | inr other ↦ (v', ground arith, c)
      ]

  refilled-Linked : Linked refilled
  refilled-Linked = record {
    live = λ a v' e. ground (arith, linked.live a v', linked.live d v);
    indexed = indexed-refilled;
    once = linked.once;
    full = linked.full;
    assigned = λ a q v' e c. ground (arith, linked.assigned a q v', linked.assigned d q v);
    owned = owned-refilled;
    own_once = linked.own_once;
    room = λ a v' e. ground (arith, linked.room a v', linked.room d v);
  }

-- A download without a peer is given to one.
module _ {rb : RbTree} (s : Session rb) (p d : ℕ) (v : PieceDl) (w : Peer) (linked : Linked s)
    (there : s.dl d ≡ some v) (free : v.pc ≡ none) (peer : s.peer p ≡ some w) where
  abbrev pub given : PieceDl
  given = record v { pc = some p }

  abbrev pub adopted : Session rb
  adopted = record s {
    dl = update s.dl d (some given);
    peer = update s.peer p (some (record w { piece_dls = w.piece_dls ++ (d ∷ []) }));
  }

  -- It stands in no peer's queue before.
  loose : (q : ℕ) → has d (own s q) ≡ false
  loose q = elim (Bool-cases (has d (own s q))) [
    | inl found ↦ let (v', e, c) = linked.owned q d found in absurd (ground arith)
    | inr out ↦ out
  ]

  own-adopted : (q : ℕ) → own adopted q ≡ (if q == p then own s p ++ (d ∷ []) else own s q)
  own-adopted q = elim (Bool-cases (q == p)) [ inl here ↦ ground arith | inr apart ↦ ground arith ]

  has-adopted : (q a : ℕ) → has a (own adopted q) ≡ ((q == p && a == d) || has a (own s q))
  has-adopted q a = elim (Bool-cases (q == p)) [
    | inl here ↦ ground (arith, own-adopted q, has_last (own s p) d a)
    | inr apart ↦ ground (arith, own-adopted q)
  ]

  indexed-adopted :
      (i o a : ℕ)
      → has a (queue s i o) ≡ true
      → (v' : PieceDl) × (adopted.dl a ≡ some v') × (v'.idx ≡ i) × (v'.off ≡ o)
  indexed-adopted i o a h =
      let (v', e, ei, eo) = linked.indexed i o a h in
      elim (Bool-cases (a == d)) [
        | inl same ↦ (given, ground arith, ground arith, ground arith)
        | inr other ↦ (v', ground arith, ei, eo)
      ]

  owned-adopted :
      (q a : ℕ)
      → has a (own adopted q) ≡ true
      → (v' : PieceDl) × (adopted.dl a ≡ some v') × (v'.pc ≡ some q)
  owned-adopted q a h = elim (Bool-cases (a == d)) [
    | inl same ↦ (given, ground arith, ground (arith, has-adopted q a, loose q))
    | inr other ↦
        let (v', e, c) = linked.owned q a (ground (arith, has-adopted q a)) in (v', ground arith, c)
  ]

  own-Once-adopted : (q : ℕ) → Once (own adopted q)
  own-Once-adopted q = elim (Bool-cases (q == p)) [
    | inl here ↦ rw (own-adopted q, here) (Once-append (own s p) d (linked.own_once p) (loose p))
    | inr apart ↦ rw (own-adopted q, apart) (linked.own_once q)
  ]

  pub adopted-Linked : Linked adopted
  adopted-Linked = record {
    live = λ a v' e. ground (arith, linked.live a v', linked.live d v);
    indexed = indexed-adopted;
    once = linked.once;
    full = linked.full;
    assigned = λ a q v' e c. ground (arith, has-adopted q a, linked.assigned a q v');
    owned = owned-adopted;
    own_once = own-Once-adopted;
    room = λ a v' e. ground (arith, linked.room a v', linked.room d v);
  }

module _ {rb : RbTree} where
  pub put_dl-Keeps :
      {d : ℕ} {v : PieceDl} {H : Session rb → Type 0} (w : PieceDl)
      → w.pc ≡ v.pc
      → w.idx ≡ v.idx
      → w.off ≡ v.off
      → From (λ s. Linked {rb = rb} s) (λ s. (s.dl d ≡ some v) × H s) (put_dl d w)
  put_dl-Keeps {d} {v} w a b c = record {
    ends =
        λ s i h u t run. subst (λ t'. Linked t') (ended run) (refilled-Linked s d v w i h.0 a b c);
  }

  -- The downloads of a peer are taken away, one after the other.
  choke_loop_keeps :
      (p : ℕ) (ds : List ℕ) (s : Session rb) (w : Peer) (t : Session rb)
      → Linked s
      → s.peer p ≡ some w
      → w.piece_dls ≡ ds
      → choke_loop p ds s ≡ ok (tt, t)
      → Linked t
  unfolding choke_loop
  choke_loop_keeps p [] s w t linked peer list run = subst (λ u. Linked u) (ended run) linked
  choke_loop_keeps p (pd ∷ ds) s w t linked peer list run =
      let own_list : own s p ≡ pd ∷ ds = ap own_of peer ∙ list in
      let (v, there, c) = linked.owned p pd (rw own_list (ground arith)) in
      choke_loop_keeps p ds (after s p pd ds w v)
        (record w { piece_dls = ds; dl_queue_len = sub32 w.dl_queue_len 1 }) t
        (after-Linked s p pd ds w v linked there peer list
          (subst Once own_list (linked.own_once p)))
        (ground arith) refl (sym (choke_round s p pd ds w v there peer list) ∙ run)

  pub choke_loop-Keeps :
      {p : ℕ} {w : Peer} (ds : List ℕ)
      → w.piece_dls ≡ ds
      → From (λ s. Linked {rb = rb} s) (Held p w) (choke_loop p ds)
  choke_loop-Keeps {p} {w} ds list = record {
    ends = λ s i h u t run. choke_loop_keeps p ds s w t i h list run;
  }
