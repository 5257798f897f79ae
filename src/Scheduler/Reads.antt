-- ===== src/Scheduler/Reads.antt =====
-- The procedures of network.c and scheduler.c that only look at the session.
use unworkable.Common.{ℕ, zero, suc, Bool, List, [], ◌∷◌, Option, none, some, die, fault, u32, ◌+◌}
use unworkable.Index.{RbTree}
use unworkable.Torrent.{Piece}
use unworkable.Session.{PieceCounter, Proc}
use unworkable.Session.Keeps.{
  Reads, reading, >>=-Reads, if-Reads, get-Reads, get_dl-Reads, get_peer-Reads, pure-Reads,
  lift-Reads,
}
use unworkable.Download.{find_own, find_block, own_queue, or_block, piece_dl_find}
use unworkable.Transfer.{peer_rxrate}
use unworkable.Scheduler.{
  block_size, assigned_round, assigned_loop, piece_assigned, endgame_loop, is_endgame,
}
use unworkable.Scheduler.Rarity.{speed_loop, count_loop, rarity_loop, rarest_loop}
use unworkable.Scheduler.Gimme.{
  NextBlock, begun_loop, useful, useful_count, useful_pieces, block_round, block_loop,
}

module _ {rb : RbTree} where
  pub find_own-Reads : (ds : List ℕ) (idx off : ℕ) → Reads {rb = rb} (find_own ds idx off)
  unfolding find_own
  find_own-Reads [] idx off = pure-Reads
  find_own-Reads (d ∷ ds) idx off =
      >>=-Reads get_dl-Reads (λ v. if-Reads _ pure-Reads (find_own-Reads ds idx off))

  find_block-Reads : (idx off : ℕ) → Reads {rb = rb} (find_block idx off)
  unfolding find_block
  find_block-Reads idx off = search reading

  own_queue-Reads : (p : Option ℕ) → Reads {rb = rb} (own_queue p)
  own_queue-Reads none = search reading
  own_queue-Reads (some p) = search reading

  or_block-Reads : (d : Option ℕ) (idx off : ℕ) → Reads {rb = rb} (or_block d idx off)
  or_block-Reads none idx off = find_block-Reads idx off
  or_block-Reads (some d) idx off = search reading

  pub piece_dl_find-Reads : (p : Option ℕ) (idx off : ℕ) → Reads {rb = rb} (piece_dl_find p idx off)
  unfolding piece_dl_find
  piece_dl_find-Reads p idx off =
      >>=-Reads (own_queue-Reads p)
        (λ ds. >>=-Reads (find_own-Reads ds idx off) (λ d. or_block-Reads d idx off))

  assigned_round-Reads :
      (d : Option ℕ) {rest : Proc rb Bool} → Reads rest → Reads (assigned_round d rest)
  assigned_round-Reads none r = pure-Reads
  assigned_round-Reads (some d) r = >>=-Reads get_dl-Reads (λ v. if-Reads _ pure-Reads r)

  assigned_loop-Reads :
      (fuel : ℕ) (tpp : Piece) (off : ℕ) → Reads {rb = rb} (assigned_loop fuel tpp off)
  unfolding assigned_loop
  assigned_loop-Reads zero tpp off = lift-Reads fault
  assigned_loop-Reads (suc fuel) tpp off = if-Reads _ pure-Reads (
      >>=-Reads (piece_dl_find-Reads none tpp.index off)
        (λ d. assigned_round-Reads d (assigned_loop-Reads fuel tpp (u32 (off + block_size)))))

  pub piece_assigned-Reads : (tpp : Piece) → Reads {rb = rb} (piece_assigned tpp)
  unfolding piece_assigned
  piece_assigned-Reads tpp = assigned_loop-Reads _ tpp 0

  endgame_loop-Reads : (left i : ℕ) → Reads {rb = rb} (endgame_loop left i)
  unfolding endgame_loop
  endgame_loop-Reads zero i = pure-Reads
  endgame_loop-Reads (suc left) i =
      search (reading, piece_assigned-Reads, endgame_loop-Reads left) depth 12

  pub is_endgame-Reads : Reads {rb = rb} is_endgame
  unfolding is_endgame
  is_endgame-Reads = >>=-Reads get-Reads (λ s. endgame_loop-Reads _ 0)

  pub peer_rxrate-Reads : (p : ℕ) → Reads {rb = rb} (peer_rxrate p)
  unfolding peer_rxrate
  peer_rxrate-Reads p = search reading

  pub speed_loop-Reads : (ps : List ℕ) → Reads {rb = rb} (speed_loop ps)
  unfolding speed_loop
  speed_loop-Reads [] = pure-Reads
  speed_loop-Reads (p ∷ ps) =
      >>=-Reads (>>=-Reads get_peer-Reads (λ v. >>=-Reads (peer_rxrate-Reads p) (λ r. pure-Reads)))
        (λ r. >>=-Reads (speed_loop-Reads ps) (λ rest. pure-Reads))

  count_loop-Reads : (ps : List ℕ) (i : ℕ) → Reads {rb = rb} (count_loop ps i)
  unfolding count_loop
  count_loop-Reads [] i = pure-Reads
  count_loop-Reads (p ∷ ps) i = search (reading, count_loop-Reads ps) depth 12

  pub rarity_loop-Reads : (left i : ℕ) → Reads {rb = rb} (rarity_loop left i)
  unfolding rarity_loop
  rarity_loop-Reads zero i = pure-Reads
  rarity_loop-Reads (suc left) i =
      search (reading, count_loop-Reads, rarity_loop-Reads left) depth 12

  pub rarest_loop-Reads :
      (left i : ℕ) (ignore_assigned : Bool) (bitfield : Option (List ℕ))
      (pieces : List PieceCounter) (tpp : Option Piece)
      → Reads {rb = rb} (rarest_loop left i ignore_assigned bitfield pieces tpp)
  unfolding rarest_loop
  rarest_loop-Reads zero i ignore_assigned bitfield pieces tpp = pure-Reads
  rarest_loop-Reads (suc left) i ignore_assigned bitfield pieces tpp =
      search (reading, piece_assigned-Reads, rarest_loop-Reads left) depth 16

  pub begun_loop-Reads :
      (nodes : List (ℕ × ℕ × List ℕ)) (bitfield : Option (List ℕ))
      → Reads {rb = rb} (begun_loop bitfield nodes)
  unfolding begun_loop
  begun_loop-Reads [] bitfield = pure-Reads
  begun_loop-Reads ((idx, off, l) ∷ nodes) bitfield =
      search (reading, piece_assigned-Reads, begun_loop-Reads nodes) depth 16

  useful-Reads : (bitfield : Option (List ℕ)) (i : ℕ) → Reads {rb = rb} (useful bitfield i)
  useful-Reads bitfield i = search (reading, piece_assigned-Reads) depth 12

  pub useful_count-Reads :
      (bitfield : Option (List ℕ)) (left i : ℕ) → Reads {rb = rb} (useful_count bitfield left i)
  unfolding useful_count
  useful_count-Reads bitfield zero i = pure-Reads
  useful_count-Reads bitfield (suc left) i =
      >>=-Reads (useful-Reads bitfield i)
        (λ u. >>=-Reads (useful_count-Reads bitfield left (i + 1)) (λ r. pure-Reads))

  pub useful_pieces-Reads :
      (bitfield : Option (List ℕ)) (left i : ℕ) → Reads {rb = rb} (useful_pieces bitfield left i)
  unfolding useful_pieces
  useful_pieces-Reads bitfield zero i = pure-Reads
  useful_pieces-Reads bitfield (suc left) i =
      >>=-Reads (useful-Reads bitfield i)
        (λ u. >>=-Reads (useful_pieces-Reads bitfield left (i + 1)) (λ r. pure-Reads))

  block_round-Reads :
      (off : ℕ) (d : Option ℕ) {rest : Proc rb NextBlock}
      → Reads rest
      → Reads (block_round off d rest)
  block_round-Reads off none r = pure-Reads
  block_round-Reads off (some d) r = >>=-Reads get_dl-Reads (λ v. if-Reads _ pure-Reads r)

  pub block_loop-Reads : (fuel idx len off : ℕ) → Reads {rb = rb} (block_loop fuel idx len off)
  unfolding block_loop
  block_loop-Reads zero idx len off = lift-Reads fault
  block_loop-Reads (suc fuel) idx len off = if-Reads _ (lift-Reads die) (
      >>=-Reads (piece_dl_find-Reads none idx off)
        (λ d. block_round-Reads off d (block_loop-Reads fuel idx len (u32 (off + block_size)))))
