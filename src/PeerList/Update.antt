-- ===== src/PeerList/Update.antt =====
-- A tracker's answer in the compact form makes the list of peers the set of addresses that it is to be.
use unworkable.Common.{
  ℕ, suc, ◌+◌, ◌*◌, ◌%◌, ◌^◌, ◌≤◌, ◌<◌, ◌≡◌, refl, ap, sym, ◌∙◌, true, false, List, [], ◌∷◌, ◌++◌,
  none, some, ok, ◌==◌, ltb, if◌then◌else◌, length, drop, arith, Bool-cases, inl, inr, u32,
  replicate, ◌-◌, length-append, ==_self,
}
use mathlib.Core.List.{append_assoc}
use unworkable.Common.Slices.{drop-append_self, drop-drop}
use unworkable.Index.{RbTree}
use unworkable.Session.{Peer, Session}
use unworkable.Session.Store.{update, ◌>>=◌}
use unworkable.Download.{zero_peer, peer_create, peer_free, orphan_or_free_all}
use unworkable.PeerList.{
  memory_of, lexer_room, peerlist_add_peer, add_address, bytes_at, add_at, string_loop,
}
use unworkable.PeerList.Names.{
  Address, member, insert, insert_all, Names, Listed, Names-length, Names-update, Names-append,
  All-le, All-append, is_listed_lem,
}

module _ {rb : RbTree} (s : Session rb) (ks : List Address) (addr port : List ℕ) where
  abbrev new_peer : Peer
  new_peer = record zero_peer { addr = addr; port = port }

  -- The session with the peer, before it is put into the list.
  abbrev with_peer : Session rb
  with_peer = record s {
    peer = update (update s.peer s.fresh_peer (some zero_peer)) s.fresh_peer (some new_peer);
    fresh_peer = suc s.fresh_peer;
  }

  abbrev freed : Session rb
  freed = record with_peer { peer = update with_peer.peer s.fresh_peer none }

  abbrev listed : Session rb
  listed = record with_peer {
    peers = s.peers ++ s.fresh_peer ∷ [];
    num_peers = u32 (s.num_peers + 1);
  }

  with_peer-Names : Listed s ks → Names with_peer.peer s.peers ks
  with_peer-Names h =
      let f = s.fresh_peer in
      Names-update (update s.peer f (some zero_peer)) s.peers ks f (some new_peer) h.old
        (Names-update s.peer s.peers ks f (some zero_peer) h.old h.names)

  abbrev added : Session rb
  added = if member (addr, port) ks then freed else listed

  peerlist_add_peer_lem : Listed s ks → peerlist_add_peer s.fresh_peer with_peer ≡ ok (tt, added)
  unfolding peerlist_add_peer peer_free orphan_or_free_all
  peerlist_add_peer_lem h =
      let here = ==_self s.fresh_peer in
      let test = is_listed_lem s.peers ks new_peer with_peer (with_peer-Names h) in
      elim (Bool-cases (member (addr, port) ks)) [
        | inl e ↦ rw (here, ◌>>=◌) (rw (test, ◌>>=◌, e) (rw (here, ◌>>=◌) refl))
        | inr n ↦ rw (here, ◌>>=◌) (rw (test, ◌>>=◌, n) refl)
      ]

  add_address_lem : Listed s ks → add_address addr port s ≡ ok (tt, added)
  unfolding peer_create
  add_address_lem h = rw (==_self s.fresh_peer, ◌>>=◌) (peerlist_add_peer_lem h)

  added-Listed : length ks + 1 < 2 ^ 32 → Listed s ks → Listed added (insert ks (addr, port))
  added-Listed room h =
      let f = s.fresh_peer in
      let count = Names-length s.peer s.peers ks h.names in
      elim (Bool-cases (member (addr, port) ks)) [
        | inl e ↦ rw e (record {
          names = Names-update with_peer.peer s.peers ks f none h.old (with_peer-Names h);
          counted = h.counted;
          old = All-le s.peers f (suc f) (omega arith) h.old;
        })
        | inr n ↦ rw n (record {
          names =
              Names-append with_peer.peer s.peers ks f (addr, port) new_peer (with_peer-Names h)
                (rw (==_self f) refl) refl refl;
          counted = omega (arith, h.counted, length-append s.peers (f ∷ []));
          old =
              All-append s.peers (suc f) f (All-le s.peers f (suc f) (omega arith) h.old)
                (omega arith);
        })
      ]

-- Six bytes for each peer.
abbrev pub Compact : Type 0
Compact = ℕ × ℕ × ℕ × ℕ × ℕ × ℕ

abbrev pub name_of : Compact → Address
name_of (a, b, c, d, e, f) = (a ∷ b ∷ c ∷ d ∷ [], e ∷ f ∷ [])

abbrev pub names_of : List Compact → List Address
names_of [] = []
names_of (x ∷ xs) = name_of x ∷ names_of xs

abbrev bytes_of : Compact → List ℕ
bytes_of (a, b, c, d, e, f) = a ∷ b ∷ c ∷ d ∷ e ∷ f ∷ []

abbrev pub text_of : List Compact → List ℕ
text_of [] = []
text_of ((a, b, c, d, e, f) ∷ xs) = a ∷ b ∷ c ∷ d ∷ e ∷ f ∷ text_of xs

-- The bytes of a peer are where they are looked for.
bytes_lem :
    (pre rest : List ℕ) (x : Compact)
    → (bytes_at 4 (length pre) (pre ++ (bytes_of x ++ rest)) ≡ ok ((name_of x).0))
      × (bytes_at 2 (length pre + 4) (pre ++ (bytes_of x ++ rest)) ≡ ok ((name_of x).1))
bytes_lem pre rest (a, b, c, d, e, f) =
    let tail = a ∷ b ∷ c ∷ d ∷ e ∷ f ∷ rest in
    let total = length-append pre tail in
    let at : drop (length pre) (pre ++ tail) ≡ tail = drop-append_self (length pre) pre tail refl in
    let behind : drop (length pre + 4) (pre ++ tail) ≡ e ∷ f ∷ rest =
      sym (drop-drop 4 (length pre) (pre ++ tail)) ∙ ap (λ l. drop 4 l) at in
    let inside : ltb (length (pre ++ tail)) (length pre + 4) ≡ false = ground (arith, total) in
    let inside' : ltb (length (pre ++ tail)) (length pre + 4 + 2) ≡ false = ground (arith, total) in
    (rw (inside, at) refl, rw (inside', behind) refl)

length-insert : (ks : List Address) (k : Address) → length (insert ks k) ≤ length ks + 1
length-insert ks k = elim (Bool-cases (member k ks)) [
  | inl e ↦ rw e (omega arith)
  | inr n ↦ rw n (omega (arith, length-append ks (k ∷ [])))
]

module _ {rb : RbTree} where
  skip_round :
      (left i : ℕ) (memory : List ℕ) (s : Session rb)
      → (i % 6 == 0) ≡ false
      → string_loop (suc left) i memory s ≡ string_loop left (i + 1) memory s
  unfolding string_loop
  skip_round left i memory s h = rw h refl

  begin_round :
      (left i : ℕ) (memory : List ℕ) (s : Session rb) {s' : Session rb}
      → (i % 6 == 0) ≡ true
      → add_at memory i s ≡ ok (tt, s')
      → string_loop (suc left) i memory s ≡ string_loop left (i + 1) memory s'
  unfolding string_loop
  begin_round left i memory s h run = rw (h, run, ◌>>=◌) refl

  six_rounds :
      (left i n : ℕ) (memory : List ℕ) (s : Session rb) {s' : Session rb}
      → i ≡ 6 * n
      → add_at memory i s ≡ ok (tt, s')
      → string_loop (suc (suc (suc (suc (suc (suc left)))))) i memory s
        ≡ string_loop left (i + 6) memory s'
  six_rounds left i n memory s {s'} e run =
      begin_round (suc (suc (suc (suc (suc left))))) i memory s (ground arith) run
      ∙ skip_round (suc (suc (suc (suc left)))) (i + 1) memory s' (ground arith)
      ∙ skip_round (suc (suc (suc left))) (i + 1 + 1) memory s' (ground arith)
      ∙ skip_round (suc (suc left)) (i + 1 + 1 + 1) memory s' (ground arith)
      ∙ skip_round (suc left) (i + 1 + 1 + 1 + 1) memory s' (ground arith)
      ∙ skip_round left (i + 1 + 1 + 1 + 1 + 1) memory s' (ground arith)
      ∙ ap (λ k. string_loop left k memory s') (omega arith)

  string_loop_lem :
      (xs : List Compact) (pre pad : List ℕ) (n : ℕ) (s : Session rb) (ks : List Address)
      → length pre ≡ 6 * n
      → length ks + length xs < 2 ^ 32
      → Listed s ks
      → (s' : Session rb) × (string_loop
            (length (text_of xs))
            (length pre)
            (pre ++ (text_of xs ++ pad))
            s
          ≡ ok (tt, s'))
        × Listed s' (insert_all ks (names_of xs))
  unfolding string_loop
  string_loop_lem [] pre pad n s ks e room h = (s, refl, h)
  string_loop_lem (x ∷ xs) pre pad n s ks e room h =
      let (addr, port) = name_of x in
      let (four, two) = bytes_lem pre (text_of xs ++ pad) x in
      let s₁ = added s ks addr port in
      let run = add_address_lem s ks addr port h in
      let (s', loop, h') =
        string_loop_lem xs (pre ++ bytes_of x) pad (n + 1) s₁ (insert ks (addr, port))
          (omega (arith, length-append pre (bytes_of x)))
          (omega (arith, length-insert ks (addr, port)))
          (added-Listed s ks addr port (omega arith) h) in
      let memory = pre ++ (bytes_of x ++ (text_of xs ++ pad)) in
      let begun : add_at memory (length pre) s ≡ ok (tt, s₁) = rw (four, two) run in
      let moved =
        rw (append_assoc pre (bytes_of x) (text_of xs ++ pad), length-append pre (bytes_of x)) at
          loop in
      (s', six_rounds (length (text_of xs)) (length pre) n memory s e begun ∙ moved, h')

-- For a string of six bytes to a peer, and a list of peers in which no address stands twice, with room for those of
-- the string in 32 bits: the loop over the string ends, and leaves a list of peers whose addresses are those of before,
-- in their order, and behind them each new one of the string once, in the order of the string. The peers are all
-- there, and their number is counted.
pub string_loop-insert_all :
    {rb : RbTree} (xs : List Compact) (s : Session rb) (ks : List Address)
    → length ks + length xs < 2 ^ 32
    → Listed s ks
    → (s' : Session rb) × (string_loop (length (text_of xs)) 0 (memory_of (text_of xs)) s
        ≡ ok (tt, s'))
      × Listed s' (insert_all ks (names_of xs))
string_loop-insert_all xs s ks room h =
    string_loop_lem xs [] (replicate (lexer_room (length (text_of xs)) - length (text_of xs)) 0) 0 s
      ks (omega arith) room h
