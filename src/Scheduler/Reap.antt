-- ===== src/Scheduler/Reap.antt =====
-- scheduler_threshold_kill and scheduler_reap_dead of scheduler.c.
use unworkable.Common.{
  ℕ, ◌≡◌, ◌≢◌, refl, sym, ◌∙◌, List, true, not, ◌&&◌, ◌==◌, none, some, ok, sub32, arith,
}
use mathlib.Core.Path.{subst}
use unworkable.Index.{RbTree}
use unworkable.Session.{PieceDl, Peer, Session}
use unworkable.Session.Store.{>>=-ok, get_peer, has, unlink}
use unworkable.Download.{peer_free}
use unworkable.Download.Linked.{Linked, Once, unlink_lem}
use unworkable.Download.Linked.Orphan.{peer_free-Linked}
use unworkable.Download.Listed.{peer_free-HasPeers}
use unworkable.Scheduler.{reap_dead}

-- The list of the peers and their number are not part of what is linked.
relisted-Linked :
    {rb : RbTree} (s : Session rb) (ps : List ℕ) (n : ℕ)
    → Linked s
    → Linked (record s { peers = ps; num_peers = n })
relisted-Linked s ps n linked = record {
  live = linked.live;
  indexed = linked.indexed;
  once = linked.once;
  full = linked.full;
  assigned = linked.assigned;
  owned = linked.owned;
  own_once = linked.own_once;
  room = linked.room;
}

module _ {rb : RbTree} (s : Session rb) (p : ℕ) where
  -- The session without the peer in its list.
  abbrev unlisted : List ℕ → Session rb
  unlisted ps = record s { peers = ps }

  reap_run :
      (w : Peer) (ps : List ℕ) (t : Session rb)
      → s.peer p ≡ some w
      → w.state.dead ≡ true
      → unlink p s.peers ≡ some ps
      → peer_free p (unlisted ps) ≡ ok (tt, t)
      → reap_dead p s ≡ ok (true, record t { num_peers = sub32 t.num_peers 1 })
  unfolding reap_dead
  reap_run w ps t peer dead out freed =
      >>=-ok (get_peer p) _ s {a = w} {s' = s} (ground arith)
      ∙ rw (dead, out) (>>=-ok (peer_free p) _ (unlisted ps) {a = tt} {s' = t} freed)

  -- On linked queues, a peer that is marked dead and stands in the session's list, in which none stands twice, is reaped:
  -- the call is defined and says so. The peer is gone, also from the list, which has just the others, each once,
  -- and the number of peers is one less, modulo 2 ^ 32; no download points to it, and the queues are still linked.
  pub reap_dead-Linked :
      {w : Peer}
      → Linked s
      → s.peer p ≡ some w
      → w.state.dead ≡ true
      → has p s.peers ≡ true
      → Once s.peers
      → (s' : Session rb) × (reap_dead p s ≡ ok (true, s'))
        × Linked s'
        × (s'.peer p ≡ none)
        × Once s'.peers
        × ((q : ℕ) → has q s'.peers ≡ (has q s.peers && not (q == p)))
        × (s'.num_peers ≡ sub32 s.num_peers 1)
        × ((d : ℕ) (v : PieceDl) → s'.dl d ≡ some v → v.pc ≢ some p)
  reap_dead-Linked {w} linked peer dead listed once =
      let (ps, out, single, others) = unlink_lem p s.peers listed once in
      let (t, freed, linked', gone, unowned) =
        peer_free-Linked (unlisted ps) p (relisted-Linked s ps s.num_peers linked) peer in
      let (same, number) =
        (peer_free-HasPeers ps s.num_peers p).ends (unlisted ps) (refl, refl) tt tt t freed in
      (
        record t { num_peers = sub32 t.num_peers 1 },
        reap_run w ps t peer dead out freed,
        relisted-Linked t t.peers (sub32 t.num_peers 1) linked',
        gone,
        subst Once (sym same) single,
        λ q. rw same (others q),
        rw number refl,
        unowned,
      )
