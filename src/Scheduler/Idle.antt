-- ===== src/Scheduler/Idle.antt =====
-- scheduler_endgame_algorithm of scheduler.c: which peers it asks.
use unworkable.Common.{
  ℕ, zero, suc, ◌+◌, ◌<◌, ◌≡◌, ◌⊎◌, refl, ◌∙◌, true, List, [], ◌∷◌, none, some, ok, arith,
  Bool-cases, inl, inr,
}
use unworkable.Index.{RbTree}
use unworkable.Torrent.Pieces.Find.{Arrayed, piece_find_lem}
use unworkable.Util.{getbit}
use unworkable.Session.{Peer, Session}
use unworkable.Session.Store.{◌>>=◌, >>=-ok, get_peer, has}
use unworkable.Scheduler.Requests.{passed_over, ask_peers, endgame_pieces, endgame_algorithm}

-- A peer that is there and has the piece, or has told us nothing of what it has.
abbrev pub Has : Peer → ℕ → Type 0
Has v i = (v.bitfield ≡ none) ⊎ ((b : List ℕ) × ((v.bitfield ≡ some b) × (getbit b i ≡ ok true)))

abbrev pub AllHave : {rb : RbTree} → Session rb → List ℕ → ℕ → Type 0
AllHave s ps i = (p : ℕ) → has p ps ≡ true → (v : Peer) × ((s.peer p ≡ some v) × Has v i)

pub over_lem : (v : Peer) (i : ℕ) → Has v i → passed_over v.bitfield i ≡ ok true
over_lem v i (inl e) = rw e refl
over_lem v i (inr (b, (e, bit))) = rw e bit

module _ {rb : RbTree} (s : Session rb) where
  ask_peers_idle : (ps : List ℕ) (i len : ℕ) → AllHave s ps i → ask_peers ps i len s ≡ ok (tt, s)
  unfolding ask_peers
  ask_peers_idle [] i len h = refl
  ask_peers_idle (p ∷ ps) i len h =
      let (v, (there, known)) = h p (ground arith) in
      >>=-ok (get_peer p) _ s {a = v} {s' = s} (ground arith)
      ∙ rw (over_lem v i known) (ask_peers_idle ps i len (λ q m. h q (ground arith)))

  pieces_idle :
      (left i : ℕ)
      → Arrayed s.tp
      → i + left ≡ s.tp.num_pieces
      → ((j : ℕ) → j < s.tp.num_pieces → AllHave s s.peers j)
      → endgame_pieces left i s ≡ ok (tt, s)
  unfolding endgame_pieces
  pieces_idle zero i v e h = refl
  pieces_idle (suc left) i v e h =
      let (p, there, found) = piece_find_lem s.tp v i (omega arith) in
      let rest : endgame_pieces left (i + 1) s ≡ ok (tt, s) =
        pieces_idle left (i + 1) v (omega arith) h in
      rw found (elim (Bool-cases p.cksumok) [
        | inl good ↦ rw good rest
        | inr bad ↦ rw (bad, ask_peers_idle s.peers i p.len (h i (omega arith)), ◌>>=◌) rest
      ])

  -- With a descriptor for each piece, where every peer that has sent a bitfield has every piece, the algorithm of the end game asks no one for anything: it ends
  -- with the session that it began with.
  pub endgame_algorithm_idle :
      Arrayed s.tp
      → ((j : ℕ) → j < s.tp.num_pieces → AllHave s s.peers j)
      → endgame_algorithm s ≡ ok (tt, s)
  unfolding endgame_algorithm
  endgame_algorithm_idle v h = pieces_idle s.tp.num_pieces 0 v (omega arith) h
