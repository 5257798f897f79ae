-- ===== src/Scheduler/Tick.antt =====
-- scheduler of scheduler.c: what is done every second. The timer that calls it again and the trace are
-- left out, and the announcement to the tracker is a parameter.
use unworkable.Common.{ℕ, ◌-◌, List, [], ◌∷◌, not, ◌&&◌, ltb, if◌then◌else◌, sub32}
use unworkable.Index.{RbTree}
use unworkable.Platform.{Platform}
use unworkable.Session.{Proc}
use unworkable.Session.Store.{◌>>=◌, ◌>>◌, pure, get}
use unworkable.Scheduler.{is_endgame, threshold_kill, reap_dead}
use unworkable.Scheduler.Choking.{choke_algorithm}
use unworkable.Scheduler.Requests.{dequeue_uploads, fill_requests, endgame_algorithm}

-- PEERS_WANTED and MIN_ANNOUNCE_INTERVAL
abbrev pub peers_wanted : ℕ
peers_wanted = 10

abbrev pub min_announce_interval : ℕ
min_announce_interval = 60

module _ {rb : RbTree} (platform : Platform) where
  -- One round of the loop over the peers; a peer that is reaped or killed is done with.
  unfoldable pub tick_peer : ℕ → Proc rb (Unit {0})
  tick_peer p = do
    reaped ← reap_dead p
    killed ← if reaped then pure reaped else threshold_kill p
    if killed then pure tt else dequeue_uploads p >> fill_requests platform p

  -- The next peer is looked up before a round, so that the round may take its own out of the list.
  unfoldable pub tick_peers : List ℕ → Proc rb (Unit {0})
  tick_peers [] = pure tt
  tick_peers (p ∷ ps) = tick_peer p >> tick_peers ps

module _ {rb : RbTree} (platform : Platform) (announce : Proc rb (Unit {0})) where
  abbrev pub announce_if : ℕ → Proc rb (Unit {0})
  announce_if pieces_left = do
    s ← get
    if ltb s.num_peers peers_wanted
          && ltb 0 pieces_left
          && not s.announce_underway
          && ltb min_announce_interval (s.now - s.last_announce)
        then announce
        else pure tt

  unfoldable pub scheduler : Proc rb (Unit {0})
  scheduler = do
    s ← get
    tick_peers platform s.peers
    choke_algorithm platform s.now
    endgame ← is_endgame
    if endgame then endgame_algorithm else pure tt
    announce_if (sub32 s.tp.num_pieces s.tp.good_pieces)
