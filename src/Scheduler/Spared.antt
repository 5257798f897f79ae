-- ===== src/Scheduler/Spared.antt =====
-- scheduler_endgame_algorithm of scheduler.c: a peer that it does not ask, whatever the others have.
use unworkable.Common.{
  ℕ, zero, suc, ◌+◌, ◌*◌, ◌/◌, ◌^◌, ◌≤◌, ◌<◌, ◌≡◌, ◌⊎◌, refl, ap, ◌∙◌, Bool, true, false, ◌||◌,
  List, [], ◌∷◌, ◌++◌, Option, none, some, ok, ◌==◌, leb, if◌then◌else◌, arith, Bool-cases, inl,
  inr, u32, ==_self, All, All-get_elem?,
}
use native.Mathlib.Decide.{ℕ_discrete}
use unworkable.Index.{RbTree}
use unworkable.Torrent.Pieces.{piece_find}
use unworkable.Torrent.Pieces.Find.{Arrayed, piece_find_lem}
use unworkable.Session.{PieceDl, Peer, Session}
use unworkable.Session.Store.{◌>>=◌, has, update}
use unworkable.Download.{queue_with, piece_dl_create, find_own}
use unworkable.Download.Linked.{Linked}
use unworkable.Download.Linked.Find.{find_own_step}
use unworkable.Send.{peer_write, peer_request_block}
use unworkable.Wire.{request_message}
use unworkable.Scheduler.{block_size}
use unworkable.Scheduler.Endgame.{blocks}
use unworkable.Scheduler.Gimme.{block_len}
use unworkable.Scheduler.Idle.{Has, over_lem}
use unworkable.Scheduler.Requests.{
  passed_over, ask, ask_unless, ask_loop, ask_peers, endgame_pieces, endgame_algorithm,
}

-- What has been sent to a peer.
abbrev pub to : ℕ → List (ℕ × List ℕ) → List (List ℕ)
to p [] = []
to p ((q, msg) ∷ sent) = if p == q then msg ∷ to p sent else to p sent

to-other :
    (p q : ℕ) (msg : List ℕ) (sent : List (ℕ × List ℕ))
    → (p == q) ≡ false
    → to p (sent ++ ((q, msg) ∷ [])) ≡ to p sent
to-other p q msg [] h = rw h refl
to-other p q msg ((r, m) ∷ sent) h = rw (to-other p q msg sent h) refl

has-append : (a : ℕ) (xs ys : List ℕ) → has a (xs ++ ys) ≡ (has a xs || has a ys)
has-append a [] ys = refl
has-append a (x ∷ xs) ys = ground (arith, has-append a xs ys)

-- A peer that is there, whose queue has downloads that are there, and of which it can be told what it has.
abbrev pub Known : Peer → ℕ → Type 0
Known w n = (i : ℕ) → i < n → (b : Bool) × (passed_over w.bitfield i ≡ ok b)

abbrev Queued : {rb : RbTree} → Session rb → Peer → Type 0
Queued s w = (d : ℕ) → has d w.piece_dls ≡ true → (u : PieceDl) × (s.dl d ≡ some u)

abbrev Member : {rb : RbTree} → ℕ → Session rb → ℕ → Type 0
Member n s q = (w : Peer) × (s.peer q ≡ some w) × Queued s w × Known w n

module _ {rb : RbTree} (p : ℕ) (v : Peer) (start : Session rb) where
  -- What the algorithm keeps.
  record Spares (s : Session rb) : Type 0 where
    listed : s.peers ≡ start.peers
    same : s.tp ≡ start.tp
    mine : s.peer p ≡ some v
    unsent : to p s.sent ≡ to p start.sent
    members : (q : ℕ) → has q start.peers ≡ true → Member start.tp.num_pieces s q

module _ {rb : RbTree} (s : Session rb) (q : ℕ) (w : Peer) (i off len : ℕ) where
  abbrev wanted : PieceDl
  wanted = record { pc = some q; idx = i; off = off; len = len; bytes = 0 }

  abbrev asked_peer : Peer
  asked_peer = record w {
    piece_dls = w.piece_dls ++ (s.fresh_dl ∷ []);
    lastsend = s.now;
    dl_queue_len = u32 (w.dl_queue_len + 1);
  }

  abbrev asked : Session rb
  asked =
      let queued : Peer = record w { piece_dls = w.piece_dls ++ (s.fresh_dl ∷ []) } in
      record s {
        dl = update s.dl s.fresh_dl (some wanted);
        fresh_dl = suc s.fresh_dl;
        index = rb.store s.index i off (queue_with (rb.find s.index i off) s.fresh_dl);
        peer =
            update
              (update (update s.peer q (some queued)) q (some (record queued { lastsend = s.now })))
              q (some asked_peer);
        sent = s.sent ++ ((q, request_message i off len) ∷ []);
      }

  live :
      (d : ℕ)
      → (d == s.fresh_dl) ≡ true ⊎ ((u : PieceDl) × (s.dl d ≡ some u))
      → (u : PieceDl) × (asked.dl d ≡ some u)
  live d (inl e) = (wanted, rw e refl)
  live d (inr (u, e)) = elim (Bool-cases (d == s.fresh_dl)) [
    | inl new ↦ (wanted, rw new refl)
    | inr old ↦ (u, rw old e)
  ]

ask_run :
    {rb : RbTree} (s : Session rb) (q : ℕ) (w : Peer) (i off len : ℕ)
    → s.peer q ≡ some w
    → ask q i len off s ≡ ok (tt, asked s q w i off (block_len len off))
unfolding piece_dl_create peer_request_block peer_write
ask_run s q w i off len e =
    rw (e, ◌>>=◌)
      (rw (==_self s.fresh_dl, ◌>>=◌) (rw (==_self q, ◌>>=◌) (rw (==_self q, ◌>>=◌) refl)))

module _ {rb : RbTree} (p : ℕ) (v : Peer) (start : Session rb) where
  -- Asking another peer keeps what is to be kept.
  ask_lem :
      (s : Session rb) (q : ℕ) (w : Peer) (i off len : ℕ)
      → Spares p v start s
      → (p == q) ≡ false
      → s.peer q ≡ some w
      → Queued s w
      → Known w start.tp.num_pieces
      → Spares p v start (asked s q w i off (block_len len off))
  ask_lem s q w i off len h other e queued known =
      let live' = live s q w i off (block_len len off) in
      record {
        listed = h.listed;
        same = h.same;
        mine = rw other h.mine;
        unsent = to-other p q (request_message i off (block_len len off)) s.sent other ∙ h.unsent;
        members = λ r m. elim (Bool-cases (r == q)) [
          | inl here ↦ (
            asked_peer s q w i off (block_len len off),
            rw here refl,
            (λ d l. live' d (elim (Bool-cases (d == s.fresh_dl)) [
              | inl new ↦ inl new
              | inr old ↦
                  inr (queued d (ground (arith, has-append d w.piece_dls (s.fresh_dl ∷ []))))
            ])),
            known,
          )
          | inr away ↦
              let (w', e', queued', known') = h.members r m in
              (w', rw away e', (λ d l. live' d (inr (queued' d l))), known')
        ];
      }

  find_own_total :
      (s : Session rb) (idx off : ℕ) (ds : List ℕ)
      → ((d : ℕ) → has d ds ≡ true → (u : PieceDl) × (s.dl d ≡ some u))
      → (r : Option ℕ) × (find_own ds idx off s ≡ ok (r, s))
  unfolding find_own
  find_own_total s idx off [] h = (none, refl)
  find_own_total s idx off (d ∷ ds) h =
      let (u, e) = h d (ground arith) in
      let (r, run) = find_own_total s idx off ds (λ a m. h a (ground arith)) in
      (_, find_own_step s idx off d ds e run)

  -- One block: it is asked for, or has been.
  ask_unless_lem :
      (s : Session rb) (q : ℕ) (w : Peer) (i off len : ℕ) (r : Option ℕ)
      → Spares p v start s
      → (p == q) ≡ false
      → s.peer q ≡ some w
      → Queued s w
      → Known w start.tp.num_pieces
      → (s' : Session rb) × (ask_unless r (ask q i len off) s ≡ ok (tt, s')) × Spares p v start s'
  ask_unless_lem s q w i off len (some d) h other e queued known = (s, refl, h)
  ask_unless_lem s q w i off len none h other e queued known = (
    asked s q w i off (block_len len off),
    ask_run s q w i off len e,
    ask_lem s q w i off len h other e queued known,
  )

  ask_step :
      (fuel : ℕ) (s : Session rb) (q i len off : ℕ) (off' : ℕ) (w : Peer) (r : Option ℕ)
      {s₁ s' : Session rb}
      → leb len off ≡ false
      → u32 (off + block_size) ≡ off'
      → s.peer q ≡ some w
      → find_own w.piece_dls i off s ≡ ok (r, s)
      → ask_unless r (ask q i len off) s ≡ ok (tt, s₁)
      → ask_loop fuel q i len off' s₁ ≡ ok (tt, s')
      → ask_loop (suc fuel) q i len off s ≡ ok (tt, s')
  unfolding ask_loop
  ask_step fuel s q i len off off' w r inside onward e found run rest =
      rw (inside, onward) (rw (e, ◌>>=◌) (rw (found, ◌>>=◌) (rw (run, ◌>>=◌) rest)))

  ask_loop_lem :
      (fuel n off : ℕ) (s : Session rb) (q i len : ℕ)
      → n < fuel
      → len ≤ off + n * block_size
      → off + n * block_size < len + block_size
      → len + block_size ≤ 2 ^ 32
      → Spares p v start s
      → (p == q) ≡ false
      → has q start.peers ≡ true
      → (s' : Session rb) × (ask_loop fuel q i len off s ≡ ok (tt, s')) × Spares p v start s'
  unfolding ask_loop
  ask_loop_lem zero n off s q i len f lo hi fits h other m = absurd (omega arith)
  ask_loop_lem (suc fuel) zero off s q i len f lo hi fits h other m =
      let past : leb len off ≡ true = ground arith in (s, rw past refl, h)
  ask_loop_lem (suc fuel) (suc n) off s q i len f lo hi fits h other m =
      let inside : leb len off ≡ false = ground arith in
      let onward : u32 (off + block_size) ≡ off + block_size = omega arith in
      let (w, e, queued, known) = h.members q m in
      let (r, found) = find_own_total s i off w.piece_dls queued in
      let (s₁, run, h₁) = ask_unless_lem s q w i off len r h other e queued known in
      let (s', rest, h') =
        ask_loop_lem fuel n (off + block_size) s₁ q i len (omega arith) (omega arith) (omega arith)
          fits h₁ other m in
      (s', ask_step fuel s q i len off (off + block_size) w r inside onward e found run rest, h')

  ask_peers_lem :
      (qs : List ℕ) (s : Session rb) (i len : ℕ)
      → ((q : ℕ) → has q qs ≡ true → has q start.peers ≡ true)
      → i < start.tp.num_pieces
      → len + block_size ≤ 2 ^ 32
      → Has v i
      → Spares p v start s
      → (s' : Session rb) × (ask_peers qs i len s ≡ ok (tt, s')) × Spares p v start s'
  unfolding ask_peers
  ask_peers_lem [] s i len sub lt fits own h = (s, refl, h)
  ask_peers_lem (q ∷ qs) s i len sub lt fits own h =
      let onward = λ (t : Session rb) (k : Spares p v start t).
        ask_peers_lem qs t i len (λ r m. sub r (ground arith)) lt fits own k in
      elim (ℕ_discrete p q) [
        | yes same ↦
            let (s', rest, h') = onward s h in
            (s', rw (← same, h.mine, ◌>>=◌) (rw (over_lem v i own, ◌>>=◌) rest), h')
        | no other ↦
            let (w, e, queued, known) = h.members q (sub q (ground arith)) in
            let (b, over) = known i lt in
            elim (Bool-cases b) [
              | inl yes_over ↦
                  let (s', rest, h') = onward s h in
                  (s', rw (e, ◌>>=◌) (rw (over, yes_over, ◌>>=◌) rest), h')
              | inr not_over ↦ elim (Bool-cases w.state.choked) [
                | inl choked ↦
                    let (s', rest, h') = onward s h in
                    (s', rw (e, ◌>>=◌) (rw (over, not_over, choked, ◌>>=◌) rest), h')
                | inr unchoked ↦
                    let (s₁, run, h₁) =
                      ask_loop_lem (suc (suc (len / block_size))) (blocks len) 0 s q i len
                        (omega arith) (omega arith) (omega arith) fits h (ground arith)
                        (sub q (ground arith)) in
                    let (s', rest, h') = onward s₁ h₁ in
                    (s', rw (e, ◌>>=◌) (rw (over, not_over, unchoked, run, ◌>>=◌) rest), h')
              ]
            ]
      ]

  pieces_lem :
      (left i : ℕ) (s : Session rb)
      → Arrayed start.tp
      → All (λ t. t.len + block_size ≤ 2 ^ 32) start.tp.piece_array
      → i + left ≡ start.tp.num_pieces
      → ((j : ℕ) → j < start.tp.num_pieces → Has v j)
      → Spares p v start s
      → (s' : Session rb) × (endgame_pieces left i s ≡ ok (tt, s')) × Spares p v start s'
  unfolding endgame_pieces
  pieces_lem zero i s arrayed fits e own h = (s, refl, h)
  pieces_lem (suc left) i s arrayed fits e own h =
      let (tpp, there, found) = piece_find_lem start.tp arrayed i (omega arith) in
      let onward = λ (t : Session rb) (k : Spares p v start t).
        pieces_lem left (i + 1) t arrayed fits (omega arith) own k in
      let found' : piece_find s.tp i ≡ ok tpp = rw h.same found in
      elim (Bool-cases tpp.cksumok) [
        | inl good ↦ let (s', rest, h') = onward s h in (s', rw found' (rw (good, ◌>>=◌) rest), h')
        | inr bad ↦
            let (s₁, run, h₁) =
              ask_peers_lem start.peers s i tpp.len (λ q m. m) (omega arith)
                (All-get_elem? _ start.tp.piece_array i fits there) (own i (omega arith)) h in
            let (s', rest, h') = onward s₁ h₁ in
            let run' : ask_peers s.peers i tpp.len s ≡ ok (tt, s₁) =
              ap (λ qs. ask_peers qs i tpp.len s) h.listed ∙ run in
            (s', rw found' (rw (bad, run', ◌>>=◌) rest), h')
      ]

-- On linked queues, with a descriptor for each piece, pieces a block short of 2 ^ 32 bytes, and peers of the session that
-- are there and whose bitfields have a bit for each piece, the algorithm of the end game ends, whatever the peers have;
-- and a peer that has every piece, or has told nothing of what it has, is as it was and has been sent nothing.
pub endgame_algorithm-Has :
    {rb : RbTree} (s : Session rb) (p : ℕ) (v : Peer)
    → Linked s
    → Arrayed s.tp
    → All (λ t. t.len + block_size ≤ 2 ^ 32) s.tp.piece_array
    → ((q : ℕ) → has q s.peers ≡ true → (w : Peer) × (s.peer q ≡ some w) × Known w s.tp.num_pieces)
    → s.peer p ≡ some v
    → ((i : ℕ) → i < s.tp.num_pieces → Has v i)
    → (s' : Session rb) × (endgame_algorithm s ≡ ok (tt, s'))
      × (s'.peer p ≡ some v)
      × (to p s'.sent ≡ to p s.sent)
unfolding endgame_algorithm
endgame_algorithm-Has s p v linked arrayed fits members mine own =
    let (s', run, h) = pieces_lem p v s s.tp.num_pieces 0 s arrayed fits (omega arith) own (record {
      listed = refl;
      same = refl;
      mine = mine;
      unsent = refl;
      members = λ q m.
          let (w, e, known) = members q m in
          (w, e, (λ d l. let (u, at, _) = linked.owned q d (ground arith) in (u, at)), known);
    }) in
    (s', run, h.mine, h.unsent)
