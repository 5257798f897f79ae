-- ===== src/Scheduler/Choking.antt =====
-- scheduler_choke_algorithm of scheduler.c: whom we let download.
use unworkable.Common.{
  ℕ, zero, suc, ◌%◌, List, [], ◌∷◌, Bool, false, not, ◌&&◌, ◌||◌, Option, none, some, die, fault,
  must, ◌==◌, if◌then◌else◌, min, take, get_elem?,
}
use unworkable.Index.{RbTree}
use unworkable.Platform.{Platform}
use unworkable.Session.{PeerCounter, Proc}
use unworkable.Session.Store.{◌>>=◌, ◌>>◌, pure, lift, get, get_peer}
use unworkable.Send.{peer_write_choke, peer_write_unchoke}
use unworkable.Scheduler.Rarity.{peer_speedrank}
use unworkable.Scheduler.Gimme.{random_below}

-- The peer is one of the fastest, or the one that was picked.
abbrev pub is_picked : Option ℕ → ℕ → Bool
is_picked none p = false
is_picked (some q) p = p == q

unfoldable pub spared : List PeerCounter → Option ℕ → ℕ → Bool
spared [] picked p = false
spared (c ∷ cs) picked p = (p == c.peer || is_picked picked p) || spared cs picked p

module _ {rb : RbTree} where
  unfoldable pub unchoke_loop : List PeerCounter → Proc rb (Unit {0})
  unchoke_loop [] = pure tt
  unchoke_loop (c ∷ cs) = do
    v ← get_peer c.peer
    if v.state.amchoking && v.state.interested then peer_write_unchoke c.peer else pure tt
    unchoke_loop cs

  unfoldable pub interested_loop : List ℕ → Proc rb ℕ
  interested_loop [] = pure 0
  interested_loop (p ∷ ps) = do
    v ← get_peer p
    rest ← interested_loop ps
    pure (if v.state.interested then suc rest else rest)

  -- `k` rounds of the walk along the list of peers; it is the first of the fastest that is looked at.
  unfoldable pub walk : ℕ → ℕ → List ℕ → Proc rb (List ℕ)
  walk zero first ps = pure ps
  walk (suc k) first [] = lift die
  walk (suc k) first (p ∷ ps) = do
    v ← get_peer first
    if v.state.interested then walk k first (p ∷ ps) else walk k first ps

  -- Where the walk has come to the end, the pointer is NULL.
  abbrev pub unchoke_first : List ℕ → Proc rb (Option ℕ)
  unchoke_first [] = lift fault
  unchoke_first (p ∷ ps) = peer_write_unchoke p >> pure (some p)

  unfoldable pub choke_others : List PeerCounter → Option ℕ → List ℕ → Proc rb (Unit {0})
  choke_others fastest picked [] = pure tt
  choke_others fastest picked (p ∷ ps) = do
    v ← get_peer p
    if spared fastest picked p || v.state.amchoking then pure tt else peer_write_choke p
    choke_others fastest picked ps

module _ {rb : RbTree} (platform : Platform) where
  abbrev pub opportunistic : List PeerCounter → Proc rb (Option ℕ)
  opportunistic pc = do
    s ← get
    num_interested ← interested_loop s.peers
    if num_interested == 0 then pure none else do
      j ← random_below platform num_interested
      first ← if j == 0 then pure 0 else lift (must (get_elem? pc 0)) >>= (λ c. pure c.peer)
      ps ← walk j first s.peers
      unchoke_first ps

  unfoldable pub choke_algorithm : ℕ → Proc rb (Unit {0})
  choke_algorithm now = if not (now % 10 == 0) then pure tt else do
    pc ← peer_speedrank platform
    s ← get
    unchoke_loop (take (min 3 s.num_peers) pc)
    picked ← if now % 30 == 0 then opportunistic pc else pure none
    s' ← get
    choke_others (take (min 3 s'.num_peers) pc) picked s'.peers
