-- ===== src/Scheduler/Linked/Tick.antt =====
-- The scheduler of scheduler.c as a whole leaves the queues of piece downloads linked.
use unworkable.Common.{
  ℕ, zero, suc, ◌≡◌, refl, sub32, ◌||◌, ◌-◌, ◌%◌, length, take, min, not, ◌&&◌, List, [], ◌∷◌,
  Option, none, ok, die, fault, must, get_elem?, ◌==◌, leb, ltb, if◌then◌else◌,
}
use mathlib.Core.Path.{subst}
use unworkable.Index.{RbTree}
use unworkable.Platform.{Platform}
use unworkable.Session.{PeerCounter, Session, Proc}
use unworkable.Session.Store.{◌>>=◌, pure, lift, unlink}
use unworkable.Session.Keeps.{
  >>=-Reads, Reads, ended, From-Reads, From-get, From-lift, From-get_peer, From->>, From->>=,
  From-if, From-read, pure-Reads, get_peer-Reads, if-Reads, lift-Reads, get-Reads,
}
use unworkable.Download.Linked.{Linked}
use unworkable.Download.Linked.Keeps.{others-Linked, put_peer-Keeps, peer_free-Keeps}
use unworkable.Send.Linked.{KeepsLinked, peer_write_unchoke-Linked, peer_write_choke-Linked}
use unworkable.Scheduler.{comms_threshold, threshold_kill, reap_dead}
use unworkable.Scheduler.Rarity.{peer_speedrank, filled}
use unworkable.Scheduler.Choking.{
  unchoke_loop, interested_loop, walk, unchoke_first, spared, choke_others, opportunistic,
  choke_algorithm,
}
use unworkable.Scheduler.Tick.{
  tick_peer, tick_peers, peers_wanted, min_announce_interval, scheduler,
}
use unworkable.Scheduler.Reads.{is_endgame-Reads, speed_loop-Reads}
use unworkable.Scheduler.Linked.Gimme.{random_below-Linked}
use unworkable.Scheduler.Linked.Requests.{
  dequeue_uploads-Linked, fill_requests-Linked, endgame_algorithm-Linked,
}

module _ {rb : RbTree} where
  unchoke_loop-Linked : (cs : List PeerCounter) → KeepsLinked {rb = rb} (unchoke_loop cs)
  unfolding unchoke_loop
  unchoke_loop-Linked [] = From-Reads pure-Reads
  unchoke_loop-Linked (c ∷ cs) = From-read get_peer-Reads (λ v.
      From->>
        (From-if (v.state.amchoking && v.state.interested) (peer_write_unchoke-Linked c.peer)
          (From-Reads pure-Reads))
        (unchoke_loop-Linked cs))

  interested_loop-Reads : (ps : List ℕ) → Reads {rb = rb} (interested_loop ps)
  unfolding interested_loop
  interested_loop-Reads [] = pure-Reads
  interested_loop-Reads (p ∷ ps) =
      >>=-Reads get_peer-Reads (λ v. >>=-Reads (interested_loop-Reads ps) (λ rest. pure-Reads))

  walk-Reads : (k first : ℕ) (ps : List ℕ) → Reads {rb = rb} (walk k first ps)
  unfolding walk
  walk-Reads zero first ps = pure-Reads
  walk-Reads (suc k) first [] = lift-Reads die
  walk-Reads (suc k) first (p ∷ ps) =
      >>=-Reads get_peer-Reads
        (λ v. if-Reads v.state.interested (walk-Reads k first (p ∷ ps)) (walk-Reads k first ps))

  unchoke_first-Linked : (ps : List ℕ) → KeepsLinked {rb = rb} (unchoke_first ps)
  unchoke_first-Linked [] = From-Reads (lift-Reads fault)
  unchoke_first-Linked (p ∷ ps) = From->> (peer_write_unchoke-Linked p) (From-Reads pure-Reads)

  choke_others-Linked :
      (fastest : List PeerCounter) (picked : Option ℕ) (ps : List ℕ)
      → KeepsLinked {rb = rb} (choke_others fastest picked ps)
  unfolding choke_others
  choke_others-Linked fastest picked [] = From-Reads pure-Reads
  choke_others-Linked fastest picked (p ∷ ps) = From-read get_peer-Reads (λ v.
      From->>
        (From-if (spared fastest picked p || v.state.amchoking) (From-Reads pure-Reads)
          (peer_write_choke-Linked p))
        (choke_others-Linked fastest picked ps))

  kill-Linked : (p : ℕ) → KeepsLinked {rb = rb} (threshold_kill p)
  unfolding threshold_kill
  kill-Linked p = From-get_peer (λ v. From-get (λ s.
      From-if
        ((v.state.bitfield || v.state.established) && leb comms_threshold (s.now - v.lastrecv))
        (From->> (put_peer-Keeps _ refl) (From-Reads pure-Reads)) (From-Reads pure-Reads)))

  listed-Linked : (ps : List ℕ) → KeepsLinked {rb = rb} (λ t. ok (tt {0}, record t { peers = ps }))
  listed-Linked ps = record {
    ends = λ t i h a t' run.
        subst (λ x. Linked x) (ended run)
          (others-Linked t t.tp ps t.num_peers t.sent t.rarity_array t.last_rarity t.draws t.resume
            i);
  }

  counted-Linked :
      KeepsLinked {rb = rb} (λ t. ok (tt {0}, record t { num_peers = sub32 t.num_peers 1 }))
  counted-Linked = record {
    ends = λ t i h a t' run.
        subst (λ x. Linked x) (ended run)
          (others-Linked t t.tp t.peers (sub32 t.num_peers 1) t.sent t.rarity_array t.last_rarity
            t.draws t.resume i);
  }

  reaped-Linked : (p : ℕ) → KeepsLinked {rb = rb} (reap_dead p)
  unfolding reap_dead
  reaped-Linked p = From-read get_peer-Reads (λ v.
      From-if v.state.dead
        (From-get (λ s. From-lift (must (unlink p s.peers)) (λ ps.
          From->> (listed-Linked ps)
            (From->> (peer_free-Keeps p) (From->> counted-Linked (From-Reads pure-Reads))))))
        (From-Reads pure-Reads))

module _ {rb : RbTree} (platform : Platform) where
  speedrank-Reads : Reads {rb = rb} (peer_speedrank platform)
  unfolding peer_speedrank
  speedrank-Reads = >>=-Reads get-Reads (λ s.
      >>=-Reads (speed_loop-Reads s.peers)
        (λ peers. >>=-Reads (lift-Reads (filled (length peers) s.num_peers)) (λ u. pure-Reads)))

  opportunistic-Linked : (pc : List PeerCounter) → KeepsLinked {rb = rb} (opportunistic platform pc)
  opportunistic-Linked pc = From-get (λ s. From-read (interested_loop-Reads s.peers) (λ n.
      From-if (n == 0) (From-Reads (pure-Reads {a = none})) (
        From->>= (random_below-Linked platform n) (λ j.
          From-read (first-Reads j)
            (λ first. From-read (walk-Reads j first s.peers) (λ ps. unchoke_first-Linked ps))))))
    where
      first-Reads :
          (j : ℕ)
          → Reads {rb = rb}
              (if j == 0 then pure 0 else lift (must (get_elem? pc 0)) >>= (λ c. pure c.peer))
      first-Reads j =
          if-Reads (j == 0) pure-Reads
            (>>=-Reads (lift-Reads (must (get_elem? pc 0))) (λ c. pure-Reads))

  choke_algorithm-Linked : (now : ℕ) → KeepsLinked {rb = rb} (choke_algorithm platform now)
  unfolding choke_algorithm
  choke_algorithm-Linked now = From-if (not (now % 10 == 0)) (From-Reads pure-Reads) (
      From-read speedrank-Reads (λ pc. From-get (λ s.
        From->> (unchoke_loop-Linked (take (min 3 s.num_peers) pc)) (
          From->>=
            (From-if (now % 30 == 0) (opportunistic-Linked pc) (From-Reads (pure-Reads {a = none})))
            (λ picked.
              From-get
                (λ s'. choke_others-Linked (take (min 3 s'.num_peers) pc) picked s'.peers))))))

  tick_peer-Linked : (p : ℕ) → KeepsLinked {rb = rb} (tick_peer platform p)
  unfolding tick_peer
  tick_peer-Linked p = From->>= (reaped-Linked p) (λ reaped.
      From->>= (From-if reaped (From-Reads (pure-Reads {a = reaped})) (kill-Linked p)) (λ killed.
        From-if killed (From-Reads pure-Reads)
          (From->> (dequeue_uploads-Linked p) (fill_requests-Linked platform p))))

  tick_peers-Linked : (ps : List ℕ) → KeepsLinked {rb = rb} (tick_peers platform ps)
  unfolding tick_peers
  tick_peers-Linked [] = From-Reads pure-Reads
  tick_peers-Linked (p ∷ ps) = From->> (tick_peer-Linked p) (tick_peers-Linked ps)

module _ {rb : RbTree} (platform : Platform) (announce : Proc rb (Unit {0})) where
  scheduler_keeps : KeepsLinked announce → KeepsLinked {rb = rb} (scheduler platform announce)
  unfolding scheduler
  scheduler_keeps k = From-get (λ s. From->> (tick_peers-Linked platform s.peers) (
      From->> (choke_algorithm-Linked platform s.now) (
        From-read is_endgame-Reads (λ endgame.
          From->> (From-if endgame endgame_algorithm-Linked (From-Reads pure-Reads)) (
            From-get (λ t.
              From-if
                (ltb t.num_peers peers_wanted
                  && ltb 0 (sub32 s.tp.num_pieces s.tp.good_pieces)
                  && not t.announce_underway
                  && ltb min_announce_interval (t.now - t.last_announce))
                k (From-Reads pure-Reads)))))))

  -- Where the announcement keeps queues linked, a run of the scheduler that starts with linked queues and comes to an end leaves them linked:
  -- dead and silent peers, uploads, requests, choking and the end game included.
  pub scheduler-Linked :
      (s t : Session rb)
      → ((u v : Session rb) → Linked u → announce u ≡ ok (tt, v) → Linked v)
      → Linked s
      → scheduler platform announce s ≡ ok (tt, t)
      → Linked t
  scheduler-Linked s t k linked run =
      (scheduler_keeps (record { ends = λ u i h a v r. k u v i r })).ends s linked tt tt t run
