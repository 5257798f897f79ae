-- ===== src/Scheduler/Unchoked.antt =====
-- scheduler_choke_algorithm of scheduler.c: who is left unchoked.
use unworkable.Common.{
  ℕ, ◌%◌, ◌++◌, ◌≤◌, ◌≡◌, refl, ap, sym, ◌∙◌, true, false, not, ◌||◌, List, [], ◌∷◌, Option, none,
  some, ok, ◌==◌, if◌then◌else◌, arith, Bool-cases, Option-cases, inl, inr, length, take, min,
  length-take,
}
use mathlib.Core.Path.{subst}
use unworkable.Session.Keeps.{ended}
use unworkable.Index.{RbTree}
use unworkable.Platform.{Platform}
use unworkable.Session.{PeerCounter, Peer, Session, Proc}
use unworkable.Session.Store.{◌>>=◌, ◌>>◌, >>=-last, >>=-ok, pure, get, get_peer, update, has}
use unworkable.Send.{peer_write, peer_write_choke}
use unworkable.Scheduler.Choking.{
  spared, choke_others, opportunistic, choke_algorithm, unchoke_loop,
}
use unworkable.Scheduler.Rarity.{peer_speedrank}
use unworkable.Wire.{choke_message}

-- We choke the peer at an address.
abbrev pub Choked : {rb : RbTree} → Session rb → ℕ → Type 0
Choked s q = (v : Peer) × ((s.peer q ≡ some v) × (v.state.amchoking ≡ true))

module _ {rb : RbTree} (s : Session rb) (p : ℕ) (v : Peer) where
  abbrev choked_peer : Peer
  choked_peer = record v { state = record (v.state) { amchoking = true } }

  -- The session after a CHOKE message to the peer.
  abbrev after_choke : Session rb
  after_choke = record s {
    peer =
        update (update s.peer p (some choked_peer)) p
          (some (record choked_peer { lastsend = s.now }));
    sent = s.sent ++ ((p, choke_message) ∷ []);
  }

  choke_run : s.peer p ≡ some v → peer_write_choke p s ≡ ok (tt, after_choke)
  unfolding peer_write_choke peer_write
  choke_run there = ground arith

  Choked-after : (q : ℕ) → s.peer p ≡ some v → Choked s q → Choked after_choke q
  Choked-after q there (w, (e, c)) = elim (Bool-cases (q == p)) [
    | inl same ↦ (record choked_peer { lastsend = s.now }, (ground arith, refl))
    | inr other ↦ (w, (ground arith, c))
  ]

module _ {rb : RbTree} (fastest : List PeerCounter) (picked : Option ℕ) where
  -- What the last loop leaves: the list of peers as it was, whom we have choked, and in `ps` all that are not spared.
  abbrev Chokes : List ℕ → Session rb → Session rb → Type 0
  Chokes ps s t =
      (t.peers ≡ s.peers)
      × (((q : ℕ) → Choked s q → Choked t q)
          × ((q : ℕ) → has q ps ≡ true → spared fastest picked q ≡ false → Choked t q))

  choke_others_lem :
      (ps : List ℕ) (s t : Session rb)
      → choke_others fastest picked ps s ≡ ok (tt, t)
      → Chokes ps s t
  unfolding choke_others
  choke_others_lem [] s t run =
      let same : s ≡ t = ended run in
      (
        ap (λ u. u.peers) (sym same),
        ((λ q c. subst (λ u. Choked u q) same c), (λ q h. absurd (cc))),
      )
  choke_others_lem (p ∷ ps) s t run = elim (Option-cases (s.peer p)) [
    | inl gone ↦ absurd (ground arith)
    | inr (v, e) ↦ elim (Bool-cases (spared fastest picked p || v.state.amchoking)) [
      | inl left_alone ↦
          let (same, (kept, others)) = choke_others_lem ps s t (ground arith) in
          (
            same,
            (
              kept,
              λ q h out. elim (Bool-cases (q == p)) [
                | inl here ↦ let at : q ≡ p = ground arith in kept q ((v, (rw at e, ground arith)))
                | inr apart ↦ others q (ground arith) out
              ],
            ),
          )
      | inr choked ↦
          let (same, (kept, others)) =
            choke_others_lem ps (after_choke s p v) t (sym (choke_step v e choked) ∙ run) in
          (
            same,
            (
              (λ q c. kept q (Choked-after s p v q e c)),
              λ q h out. elim (Bool-cases (q == p)) [
                | inl here ↦
                    kept q ((record (choked_peer s p v) { lastsend = s.now }, (ground arith, refl)))
                | inr apart ↦ others q (ground arith) out
              ],
            ),
          )
    ]
  ]
    where
      choke_step :
          (v : Peer)
          → s.peer p ≡ some v
          → (spared fastest picked p || v.state.amchoking) ≡ false
          → choke_others fastest picked (p ∷ ps) s
            ≡ choke_others fastest picked ps (after_choke s p v)
      choke_step v e n =
          >>=-ok (get_peer p) _ s {a = v} {s' = s} (ground arith)
          ∙ rw n (
              >>=-ok (peer_write_choke p) _ s {a = tt} {s' = after_choke s p v} (choke_run s p v e))

-- The peers that are spared: the fastest, and the one that was picked.
abbrev pub peers_of : List PeerCounter → List ℕ
peers_of [] = []
peers_of (c ∷ cs) = c.peer ∷ peers_of cs

abbrev pub opt : Option ℕ → List ℕ
opt none = []
opt (some q) = q ∷ []

spared-has :
    (fastest : List PeerCounter) (picked : Option ℕ) (q : ℕ)
    → has q (opt picked ++ peers_of fastest) ≡ false
    → spared fastest picked q ≡ false
unfolding spared
spared-has [] picked q h = refl
spared-has (c ∷ cs) none q h = ground (arith, spared-has cs none q)
spared-has (c ∷ cs) (some p) q h = ground (arith, spared-has cs (some p) q)

length-peers_of : (cs : List PeerCounter) → length (peers_of cs) ≡ length cs
length-peers_of [] = refl
length-peers_of (c ∷ cs) = ground (arith, length-peers_of cs)

few :
    (picked : Option ℕ) (n : ℕ) (cs : List PeerCounter)
    → length (opt picked ++ peers_of (take (min 3 n) cs)) ≤ 4
few none n cs = rw (length-peers_of (take (min 3 n) cs), length-take (min 3 n) cs) (omega arith)
few (some q) n cs = rw (length-peers_of (take (min 3 n) cs), length-take (min 3 n) cs) (omega arith)

-- All peers but a few are choked by us.
abbrev pub AllButFour : {rb : RbTree} → Session rb → Type 0
AllButFour t =
    (ks : List ℕ) × ((length ks ≤ 4)
      × ((q : ℕ) → has q t.peers ≡ true → has q ks ≡ false → Choked t q))

module _ {rb : RbTree} (platform : Platform) (now : ℕ) where
  others_last :
      (pc : List PeerCounter) (picked : Option ℕ) (s t : Session rb)
      → choke_others (take (min 3 s.num_peers) pc) picked s.peers s ≡ ok (tt, t)
      → AllButFour t
  others_last pc picked s t run =
      let (same, (kept, others)) =
        choke_others_lem (take (min 3 s.num_peers) pc) picked s.peers s t run in
      (
        opt picked ++ peers_of (take (min 3 s.num_peers) pc),
        (
          few picked s.num_peers pc,
          λ q h out.
              others q (rw (sym same) h) (spared-has (take (min 3 s.num_peers) pc) picked q out),
        ),
      )

  abbrev last_part : List PeerCounter → Option ℕ → Proc rb (Unit {0})
  last_part pc picked = get >>= λ s. choke_others (take (min 3 s.num_peers) pc) picked s.peers

  abbrev picked_part : List PeerCounter → Proc rb (Option ℕ)
  picked_part pc = if now % 30 == 0 then opportunistic platform pc else pure none

  abbrev second_part : List PeerCounter → Proc rb (Unit {0})
  second_part pc = get >>= λ s.
      unchoke_loop (take (min 3 s.num_peers) pc)
      >> (picked_part pc >>= λ picked. last_part pc picked)

  -- When the choking algorithm comes to its end in one of the seconds in which it acts, there are at most four peers in the list that we do not choke.
  pub choke_algorithm-AllButFour :
      (s t : Session rb) → now % 10 ≡ 0 → choke_algorithm platform now s ≡ ok (tt, t) → AllButFour t
  unfolding choke_algorithm
  choke_algorithm-AllButFour s t due run =
      let acts : not (now % 10 == 0) ≡ false = ground arith in
      >>=-last (peer_speedrank platform) second_part s
        (λ pc u e r.
          >>=-last (unchoke_loop (take (min 3 u.num_peers) pc))
            (λ x. picked_part pc >>= λ picked. last_part pc picked) u
            (λ x v e' r'.
              >>=-last (picked_part pc) (last_part pc) v
                (λ picked w e'' r''. others_last pc picked w t r'') r')
            r)
        (rw acts at run)
