-- ===== src/Scheduler/Rarity.antt =====
-- scheduler.c: the peers by their speed, the pieces by how rare they are, and the rarest that a peer has.
use unworkable.Common.{
  ℕ, zero, suc, ◌+◌, ◌-◌, ◌^◌, List, [], ◌∷◌, Bool, true, false, not, ◌&&◌, Option, none, some,
  Outcome, ok, die, fault, must, ◌==◌, ltb, if◌then◌else◌, length, get_elem?, u32, sub32,
}
use unworkable.Common
use unworkable.Index.{RbTree, Sign, sign_of}
use unworkable.Platform.{Platform}
use unworkable.Torrent.{Piece}
use unworkable.Torrent.Pieces.{piece_find}
use unworkable.Util.{getbit}
use unworkable.Session.{PieceCounter, PeerCounter, Proc}
use unworkable.Session.Store.{◌>>=◌, ◌>>◌, pure, lift, get, get_peer}
use unworkable.Transfer.{peer_rxrate}
use unworkable.Scheduler.{piece_assigned}

-- RARITY_AGE
abbrev pub rarity_age : ℕ
rarity_age = 5

-- A difference of two `u_int32_t`, returned as an `int`.
pub piece_cmp : PieceCounter → PieceCounter → Sign
piece_cmp x y = sign_of (sub32 x.count y.count)

-- A difference of two `u_int64_t`, cut down to an `int`.
pub peer_cmp : PeerCounter → PeerCounter → Sign
peer_cmp x y = sign_of (u32 (y.rate + 2 ^ 64 - x.rate))

-- `bitfield != NULL && util_getbit(bitfield, i)`
abbrev pub has_piece : Option (List ℕ) → ℕ → Outcome Bool
has_piece none i = ok false
has_piece (some bitfield) i = getbit bitfield i

-- `bitfield != NULL && !util_getbit(bitfield, i)`
abbrev pub lacks_piece : Option (List ℕ) → ℕ → Outcome Bool
lacks_piece none i = ok false
lacks_piece (some bitfield) i = Common.◌>>=◌ (getbit bitfield i) λ bit. ok (not bit)

-- The test that the loop has filled the array; one element too many is written out of bounds.
abbrev pub filled : ℕ → ℕ → Outcome (Unit {0})
filled i num_peers = if ltb num_peers i then fault else if i == num_peers then ok tt else die

-- What the function returns and what it stores in `res`; `tpp` is the piece that was looked at last.
abbrev pub rarest_result : Option Piece → Bool → ℕ × Bool
rarest_result none found = (0, found)
rarest_result (some tpp) found = (tpp.index, found)

module _ {rb : RbTree} where
  abbrev pub rate_of : ℕ → Proc rb ℕ
  rate_of p = do
    v ← get_peer p
    rate ← peer_rxrate p
    pure (if v.state.interested then (if rate == 0 then 1 else rate) else 0)

  unfoldable pub speed_loop : List ℕ → Proc rb (List PeerCounter)
  speed_loop [] = pure []
  speed_loop (p ∷ ps) = do
    rate ← rate_of p
    rest ← speed_loop ps
    pure (record { rate = rate; peer = p } ∷ rest)

  -- The peers that have the piece at an index.
  unfoldable pub count_loop : List ℕ → ℕ → Proc rb ℕ
  count_loop [] i = pure 0
  count_loop (p ∷ ps) i = do
    v ← get_peer p
    bit ← if v.state.established then lift (has_piece v.bitfield i) else pure false
    rest ← count_loop ps i
    pure (if bit then suc rest else rest)

  -- `left` rounds from index `i`, which `pos` is too.
  unfoldable pub rarity_loop : ℕ → ℕ → Proc rb (List PieceCounter)
  rarity_loop zero i = pure []
  rarity_loop (suc left) i = do
    s ← get
    count ← count_loop s.peers i
    rest ← rarity_loop left (i + 1)
    pure (record { count = count; idx = i } ∷ rest)

  -- With `ignore_assigned`, a piece whose blocks are all with a peer is passed over.
  abbrev pub rarest_round : Bool → Piece → Proc rb (ℕ × Bool) → Proc rb (ℕ × Bool)
  rarest_round ignore_assigned tpp rest =
      if tpp.cksumok
      then rest
      else if ignore_assigned
      then (piece_assigned tpp >>= λ assigned.
          if assigned then rest else pure (rarest_result (some tpp) true))
      else pure (rarest_result (some tpp) true)

  unfoldable pub rarest_loop :
      ℕ → ℕ → Bool → Option (List ℕ) → List PieceCounter → Option Piece → Proc rb (ℕ × Bool)
  rarest_loop zero i ignore_assigned bitfield pieces tpp = pure (rarest_result tpp false)
  rarest_loop (suc left) i ignore_assigned bitfield pieces tpp = do
    lacks ← lift (lacks_piece bitfield i)
    if lacks then rarest_loop left (i + 1) ignore_assigned bitfield pieces tpp else do
      s ← get
      c ← lift (must (get_elem? pieces i))
      next ← lift (piece_find s.tp c.idx)
      rarest_round ignore_assigned next
          (rarest_loop left (i + 1) ignore_assigned bitfield pieces (some next))

module _ {rb : RbTree} (platform : Platform) where
  unfoldable pub peer_speedrank : Proc rb (List PeerCounter)
  peer_speedrank = do
    s ← get
    peers ← speed_loop s.peers
    lift (filled (length peers) s.num_peers)
    pure (platform.qsort peer_cmp peers)

  unfoldable pub piece_rarityarray : Proc rb (Unit {0})
  piece_rarityarray = do
    s ← get
    pieces ← rarity_loop s.tp.num_pieces 0
    λ s'. ok (
      tt,
      record s' { rarity_array = some (platform.qsort piece_cmp pieces); last_rarity = s'.now },
    )

  unfoldable pub find_rarest : ℕ → Bool → Proc rb (ℕ × Bool)
  find_rarest p ignore_assigned = do
    s ← get
    if ltb rarity_age (s.now - s.last_rarity) then piece_rarityarray else pure tt
    s' ← get
    v ← get_peer p
    pieces ← if s'.tp.num_pieces == 0 then pure [] else lift (must s'.rarity_array)
    rarest_loop s'.tp.num_pieces 0 ignore_assigned v.bitfield pieces none
