-- ===== src/Scheduler/Gimme.antt =====
-- scheduler_piece_gimme of scheduler.c: what is to be downloaded next.
use unworkable.Common.{
  ℕ, zero, suc, ◌+◌, ◌-◌, ◌/◌, ◌%◌, List, [], ◌∷◌, Bool, true, false, not, ◌&&◌, Option, none, some,
  ok, die, fault, must, ◌==◌, ltb, leb, if◌then◌else◌, get_elem?, u32,
}
use unworkable.Index.{RbTree}
use unworkable.Platform.{Platform}
use unworkable.Torrent.{Piece}
use unworkable.Torrent.Pieces.{piece_find}
use unworkable.Session.{Peer, Proc}
use unworkable.Session.Store.{◌>>=◌, ◌>>◌, pure, lift, get, get_peer, get_dl, put_dl}
use unworkable.Download.{append_dl, piece_dl_create, piece_dl_find}
use unworkable.Scheduler.{block_size, abandoned, piece_assigned}
use unworkable.Scheduler.Rarity.{has_piece, find_rarest}

-- A block that no download is for, from an offset on, or a download that a peer has given up.
pub data NextBlock : Type 0 where
  unqueued : ℕ → NextBlock
  recycled : ℕ → NextBlock

-- The length of the block at an offset.
abbrev pub block_len : ℕ → ℕ → ℕ
block_len len off = if ltb (len - off) block_size then len - off else block_size

module _ {rb : RbTree} where
  -- A piece that has downloads is gone on with if some block of it is not with a peer, and this one has it.
  abbrev pub begun_round :
      Option (List ℕ) → ℕ → Piece → Proc rb (Option (ℕ × Piece)) → Proc rb (Option (ℕ × Piece))
  begun_round bitfield idx tpp rest = if tpp.cksumok then rest else do
    assigned ← piece_assigned tpp
    bit ← if assigned then pure false else lift (has_piece bitfield idx)
    if bit then pure (some (idx, tpp)) else rest

  unfoldable pub begun_loop : Option (List ℕ) → List (ℕ × ℕ × List ℕ) → Proc rb (Option (ℕ × Piece))
  begun_loop bitfield [] = pure none
  begun_loop bitfield ((idx, off, l) ∷ nodes) = do
    let rest = begun_loop bitfield nodes
    s ← get
    tpp ← lift (piece_find s.tp idx)
    begun_round bitfield idx tpp rest

  -- The piece is not here yet, and not all with peers.
  abbrev pub wanted : Piece → Proc rb Bool
  wanted tpp =
      if tpp.cksumok then pure false else piece_assigned tpp >>= λ assigned. pure (not assigned)

  -- The peer has the piece at an index, and it is wanted.
  abbrev pub useful : Option (List ℕ) → ℕ → Proc rb Bool
  useful bitfield i = do
    bit ← lift (has_piece bitfield i)
    s ← get
    if bit then lift (piece_find s.tp i) >>= wanted else pure false

  -- The two loops over the pieces: how many are useful, and which.
  unfoldable pub useful_count : Option (List ℕ) → ℕ → ℕ → Proc rb ℕ
  useful_count bitfield zero i = pure 0
  useful_count bitfield (suc left) i = do
    u ← useful bitfield i
    rest ← useful_count bitfield left (i + 1)
    pure (if u then suc rest else rest)

  unfoldable pub useful_pieces : Option (List ℕ) → ℕ → ℕ → Proc rb (List ℕ)
  useful_pieces bitfield zero i = pure []
  useful_pieces bitfield (suc left) i = do
    u ← useful bitfield i
    rest ← useful_pieces bitfield left (i + 1)
    pure (if u then i ∷ rest else rest)

  -- The loop over the offsets of the piece's blocks; out of fuel it is a fault.
  abbrev pub block_round : ℕ → Option ℕ → Proc rb NextBlock → Proc rb NextBlock
  block_round off none rest = pure (unqueued off)
  block_round off (some d) rest = do v ← get_dl d; if abandoned v then pure (recycled d) else rest

  unfoldable pub block_loop : ℕ → ℕ → ℕ → ℕ → Proc rb NextBlock
  block_loop zero idx len off = lift fault
  block_loop (suc fuel) idx len off =
      let rest = block_loop fuel idx len (u32 (off + block_size)) in
      if leb len off then lift die else piece_dl_find none idx off >>= λ pd. block_round off pd rest

  -- What is made of the block: a new download, or the old one under the peer's name.
  abbrev pub take_block : ℕ → ℕ → ℕ → NextBlock → Proc rb ℕ
  take_block p idx len (unqueued off) = piece_dl_create p idx off (block_len len off)
  take_block p idx len (recycled d) = do
    v ← get_dl d
    put_dl d (record v { pc = some p })
    append_dl p d
    pure d

  -- The part from `get_block` on, with the hint that the call leaves.
  abbrev pub get_block : ℕ → Bool → ℕ → Piece → Proc rb (Option ℕ × Bool)
  get_block p nocreate idx tpp = if nocreate then pure (none, true) else do
    next ← block_loop (suc (suc (tpp.len / block_size))) idx tpp.len 0
    d ← take_block p idx tpp.len next
    pure (some d, false)

module _ {rb : RbTree} (platform : Platform) where
  -- `random() % n`
  abbrev pub random_below : ℕ → Proc rb ℕ
  random_below n s = ok (platform.random s.draws % n, record s { draws = suc s.draws })

  -- One of the first pieces, at random; `none` if the peer has nothing of use.
  unfoldable pub random_piece : Option (List ℕ) → Proc rb (Option (ℕ × Piece))
  random_piece bitfield = do
    s ← get
    peerpieces ← useful_count bitfield s.tp.num_pieces 0
    if peerpieces == 0 then pure none else do
      pieces ← useful_pieces bitfield s.tp.num_pieces 0
      r ← random_below peerpieces
      idx ← lift (must (get_elem? pieces r))
      tpp ← lift (piece_find s.tp idx)
      pure (some (idx, tpp))

  unfoldable pub rare_piece : ℕ → Proc rb (Option (ℕ × Piece))
  rare_piece p = do
    (idx, res) ← find_rarest platform p true
    s ← get
    if res then lift (piece_find s.tp idx) >>= (λ tpp. pure (some (idx, tpp))) else pure none

  -- The piece to take a block of.
  abbrev pub fresh_piece : ℕ → Peer → Proc rb (Option (ℕ × Piece))
  fresh_piece p v = do
    s ← get
    if ltb s.tp.good_pieces 4 && ltb 4 s.tp.num_pieces
        then random_piece v.bitfield
        else rare_piece p

  abbrev pub or_fresh : ℕ → Peer → Option (ℕ × Piece) → Proc rb (Option (ℕ × Piece))
  or_fresh p v (some found) = pure (some found)
  or_fresh p v none = fresh_piece p v

  abbrev pub from_piece : ℕ → Bool → Option (ℕ × Piece) → Proc rb (Option ℕ × Bool)
  from_piece p nocreate none = pure (none, false)
  from_piece p nocreate (some (idx, tpp)) = get_block p nocreate idx tpp

  -- The download, if there is one, and whether the hint is set; `nocreate` is the flag.
  unfoldable pub piece_gimme : ℕ → Bool → Proc rb (Option ℕ × Bool)
  piece_gimme p nocreate = do
    v ← get_peer p
    s ← get
    begun ← begun_loop v.bitfield (rb.foreach s.index)
    found ← or_fresh p v begun
    from_piece p nocreate found
