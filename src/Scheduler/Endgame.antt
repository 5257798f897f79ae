-- ===== src/Scheduler/Endgame.antt =====
-- scheduler_piece_assigned and scheduler_is_endgame of scheduler.c against the blocks of the pieces.
use unworkable.Common.{
  ℕ, zero, suc, ◌+◌, ◌*◌, ◌/◌, ◌^◌, ◌≤◌, ◌<◌, ◌≡◌, refl, ◌∙◌, List, [], ◌∷◌, Bool, true, false, not,
  ◌&&◌, ◌||◌, Option, none, some, Outcome, ok, leb, if◌then◌else◌, u32, arith, ◌==◌, Option-cases,
  Bool-cases, inl, inr, All, All-get_elem?, drop,
}
use unworkable.Common.Slices.{drop_all, drop_step}
use unworkable.Index.{RbTree}
use unworkable.Torrent.{Piece}
use unworkable.Torrent.Pieces.Find.{Arrayed, piece_find_lem}
use unworkable.Session.{PieceDl, Session, Proc}
use unworkable.Session.Store.{◌>>=◌, >>=-ok, get_dl}
use unworkable.Download.{first_of_block, piece_dl_find}
use unworkable.Download.Linked.Find.{piece_dl_find-none}
use unworkable.Download.Linked.{Linked, queue, or_empty}
use unworkable.Scheduler.{
  block_size, abandoned, assigned_round, assigned_loop, piece_assigned, endgame_round, endgame_loop,
  is_endgame,
}

-- Whether a peer works on a download.
abbrev pub has_peer : Option ℕ → Bool
has_peer none = false
has_peer (some q) = true

-- A block is taken if it has a download, and the first one is complete or a peer works on it. Downloads behind the
-- first do not count.
abbrev pub taken_by : Option PieceDl → Bool
taken_by none = false
taken_by (some v) = has_peer v.pc || (v.bytes == v.len)

pub taken_by-abandoned : (v : PieceDl) → taken_by (some v) ≡ not (abandoned v)
taken_by-abandoned v = elim (Option-cases v.pc) [
  | inl e ↦ rw e (elim (Bool-cases (v.bytes == v.len)) [ inl b ↦ rw b refl | inr b ↦ rw b refl ])
  | inr (q, e) ↦ rw e refl
]

abbrev pub taken_first : {rb : RbTree} → Session rb → List ℕ → Bool
taken_first s [] = false
taken_first s (d ∷ l) = taken_by (s.dl d)

abbrev pub taken : {rb : RbTree} → Session rb → ℕ → ℕ → Bool
taken s idx off = taken_first s (queue s idx off)

-- The `n` blocks of a piece from offset `off` on.
abbrev pub all_taken : {rb : RbTree} → Session rb → ℕ → ℕ → ℕ → Bool
all_taken s idx zero off = true
all_taken s idx (suc n) off = taken s idx off && all_taken s idx n (off + block_size)

-- The blocks of a piece, the last of them perhaps short.
abbrev pub blocks : ℕ → ℕ
blocks len = (len + 16383) / block_size

abbrev pub settled : {rb : RbTree} → Session rb → Piece → Bool
settled s p = p.cksumok || all_taken s p.index (blocks p.len) 0

abbrev pub all_settled : {rb : RbTree} → Session rb → List Piece → Bool
all_settled s [] = true
all_settled s (p ∷ ps) = settled s p && all_settled s ps

module _ {rb : RbTree} (s : Session rb) (linked : Linked s) where
  if_and :
      (b c : Bool)
      → ◌≡◌ {A = Outcome (Bool × Session rb)}
          (if b then ok (c, s) else ok (false, s))
          (ok (b && c, s))
  if_and true c = refl
  if_and false c = refl

  -- What a round does with what it finds.
  found_round :
      (idx off : ℕ) (o : Option (List ℕ)) (rest : Proc rb Bool)
      → o ≡ rb.find s.index idx off
      → assigned_round (first_of_block o) rest s
        ≡ (if taken_first s (or_empty o) then rest s else ok (false, s))
  found_round idx off none rest h = refl
  found_round idx off (some []) rest h = refl
  found_round idx off (some (d ∷ l)) rest h =
      let (v, e, _, _) = linked.indexed idx off d (ground arith) in
      >>=-ok (get_dl d) _ s {a = v} {s' = s} (ground arith)
      ∙ rw (e, taken_by-abandoned v)
          (elim (Bool-cases (abandoned v)) [ inl a ↦ rw a refl | inr b ↦ rw b refl ])

  round_lem :
      (idx off : ℕ) (rest : Proc rb Bool)
      → (piece_dl_find none idx off >>= λ pd. assigned_round pd rest) s
        ≡ (if taken s idx off then rest s else ok (false, s))
  round_lem idx off rest =
      >>=-ok (piece_dl_find none idx off) _ s (piece_dl_find-none s idx off)
      ∙ found_round idx off (rb.find s.index idx off) rest refl

  assigned_loop_lem :
      (fuel : ℕ) (tpp : Piece) (n off : ℕ)
      → n < fuel
      → tpp.len ≤ off + n * block_size
      → (off + n * block_size < tpp.len + block_size)
      → tpp.len + block_size ≤ 2 ^ 32
      → assigned_loop fuel tpp off s ≡ ok (all_taken s tpp.index n off, s)
  unfolding assigned_loop
  assigned_loop_lem zero tpp n off h lo hi fits = absurd (omega arith)
  assigned_loop_lem (suc fuel) tpp zero off h lo hi fits =
      let past : leb tpp.len off ≡ true = ground arith in rw past refl
  assigned_loop_lem (suc fuel) tpp (suc n) off h lo hi fits =
      let inside : leb tpp.len off ≡ false = ground arith in
      let same : u32 (off + block_size) ≡ off + block_size = omega arith in
      rw (inside, same)
        (round_lem tpp.index off (assigned_loop fuel tpp (off + block_size))
          ∙ rw
              (assigned_loop_lem fuel tpp n (off + block_size) (omega arith) (omega arith)
                (omega arith) fits)
              (if_and (taken s tpp.index off) (all_taken s tpp.index n (off + block_size))))

  -- scheduler_piece_assigned looks at every block of the piece.
  piece_assigned_lem :
      (tpp : Piece)
      → tpp.len + block_size ≤ 2 ^ 32
      → piece_assigned tpp s ≡ ok (all_taken s tpp.index (blocks tpp.len) 0, s)
  unfolding piece_assigned
  piece_assigned_lem tpp fits =
      assigned_loop_lem (suc (suc (tpp.len / block_size))) tpp (blocks tpp.len) 0 (omega arith)
        (omega arith) (omega arith) fits

  endgame_round_lem :
      (tpp : Piece) (rest : Proc rb Bool) (b : Bool)
      → tpp.len + block_size ≤ 2 ^ 32
      → rest s ≡ ok (b, s)
      → endgame_round tpp rest s ≡ ok (settled s tpp && b, s)
  unfolding piece_assigned assigned_loop
  endgame_round_lem tpp rest b fits run = elim (Bool-cases tpp.cksumok) [
    | inl good ↦ rw good run
    | inr bad ↦
        rw (bad, piece_assigned_lem tpp fits, ◌>>=◌)
          (elim (Bool-cases (all_taken s tpp.index (blocks tpp.len) 0)) [
            | inl t ↦ rw t run
            | inr f ↦ rw f refl
          ])
  ]

  endgame_loop_lem :
      (left i : ℕ)
      → Arrayed s.tp
      → All (λ p. p.len + block_size ≤ 2 ^ 32) s.tp.piece_array
      → i + left ≡ s.tp.num_pieces
      → endgame_loop left i s ≡ ok (all_settled s (drop i s.tp.piece_array), s)
  unfolding endgame_loop
  endgame_loop_lem zero i v fits h = rw (drop_all i s.tp.piece_array (omega arith)) refl
  endgame_loop_lem (suc left) i v fits h =
      let (p, e, found) = piece_find_lem s.tp v i (omega arith) in
      rw (found, drop_step s.tp.piece_array i e)
        (endgame_round_lem p (endgame_loop left (i + 1))
          (all_settled s (drop (i + 1) s.tp.piece_array))
          (All-get_elem? _ s.tp.piece_array i fits e)
          (endgame_loop_lem left (i + 1) v fits (omega arith)))

  -- On linked queues, with a descriptor for each piece and pieces a block short of 2 ^ 32 bytes, the scheduler's test for
  -- the end game ends, changes nothing, and is true exactly when each piece is good, or each of its blocks has a
  -- download, of which the first in the block's queue is complete or has a peer that works on it.
  pub is_endgame-all_settled :
      Arrayed s.tp
      → All (λ p. p.len + block_size ≤ 2 ^ 32) s.tp.piece_array
      → is_endgame s ≡ ok (all_settled s s.tp.piece_array, s)
  unfolding is_endgame
  is_endgame-all_settled v fits = endgame_loop_lem s.tp.num_pieces 0 v fits (omega arith)
