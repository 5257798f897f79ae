-- ===== src/Receive/Handshake.antt =====
-- network_handle_peer_response of network.c reads the handshake that network_peer_handshake writes.
use unworkable.Common.{
  bytes_eq_self, ℕ, zero, suc, ◌+◌, ◌/◌, ◌%◌, ◌<◌, ◌≡◌, refl, ap, ◌∙◌, true, false, not, ◌||◌, List,
  [], ◌∷◌, ◌++◌, none, some, ok, ◌==◌, length, take, drop, get_elem?, arith, length-append,
  get_elem?_of_lt,
}
use unworkable.Common.Slices.{take_all, take-append_self, drop-append_self}
use unworkable.Session.{Peer}
use unworkable.Wire.{handshake_message}
use unworkable.Receive.{set_up, read, out, on_handshake1, on_handshake2, on_complete}

get_elem?-front :
    (r rest : List ℕ) (i : ℕ) → get_elem? (r ++ rest) (length r + i) ≡ get_elem? rest i
get_elem?-front [] rest i = ap (get_elem? rest) (omega arith)
get_elem?-front (x ∷ r) rest i =
    let n : suc (length r) + i ≡ suc (length r + i) = omega arith in
    ap (get_elem? (x ∷ (r ++ rest))) n ∙ get_elem?-front r rest i

drop_front : (r rest : List ℕ) (i : ℕ) → drop (length r + i) (r ++ rest) ≡ drop i rest
drop_front [] rest i = ap (λ n. drop n rest) (omega arith)
drop_front (x ∷ r) rest i =
    let n : suc (length r) + i ≡ suc (length r + i) = omega arith in
    ap (λ k. drop k (x ∷ (r ++ rest))) n ∙ drop_front r rest i

byte_after :
    (r rest : List ℕ) (i : ℕ) → length r ≡ 8 → get_elem? (r ++ rest) (8 + i) ≡ get_elem? rest i
byte_after r rest i h = ap (get_elem? (r ++ rest)) (omega arith) ∙ get_elem?-front r rest i

drop_after : (r rest : List ℕ) (i : ℕ) → length r ≡ 8 → drop (8 + i) (r ++ rest) ≡ drop i rest
drop_after r rest i h = ap (λ n. drop n (r ++ rest)) (omega arith) ∙ drop_front r rest i

-- The eight reserved bytes of a handshake, where a peer says that it has the fast extension, change
-- nothing: what the second part of a handshake does depends on the hash and the identifier alone.
pub on_handshake2_reserved :
    (our_hash : List ℕ) (v : Peer) (r r' rest : List ℕ)
    → length r ≡ 8
    → length r' ≡ 8
    → on_handshake2 our_hash v (r ++ rest) ≡ on_handshake2 our_hash v (r' ++ rest)
unfolding on_handshake2
on_handshake2_reserved our_hash v r r' rest h h' =
    rw
      (
        byte_after r rest 19 h,
        byte_after r' rest 19 h',
        drop_after r rest 0 h,
        drop_after r' rest 0 h',
        drop_after r rest 20 h,
        drop_after r' rest 20 h',
      )
      refl

-- The peer after the first part, and after the second.
abbrev half : ℕ → Peer → List ℕ → Peer
half now v msg = record (read (set_up now v) msg) {
  rxmsg = some [];
  rxpending = 48;
  rxmsglen = 48;
  state = record (v.state) { handshake1 = false; handshake2 = true };
}

first_part :
    (now : ℕ) (v : Peer) (our_hash info_hash peerid : List ℕ)
    → v.state.handshake1 ≡ true
    → v.rxpending ≡ 0
    → on_complete our_hash (read (set_up now v) (handshake_message info_hash peerid))
      ≡ ok (out, half now v (handshake_message info_hash peerid))
unfolding on_complete on_handshake1 set_up read handshake_message
first_part now v our_hash info_hash peerid h e = rw (h, e) refl

-- The peer after the second part, for the last byte of the hash.
abbrev whole : ℕ → Peer → List ℕ → List ℕ → ℕ → Peer
whole now w info_hash peerid b =
    record (read (set_up now w) (drop 20 (handshake_message info_hash peerid))) {
      info_hash = info_hash;
      id = peerid;
      rxmsg = none;
      rxpending = 0;
      state = record (w.state) {
        fast = not (b / 4 % 2 == 0) || w.state.fast;
        bitfield = true;
        sendbitfield = true;
        handshake2 = false;
      };
    }

byte-append : (xs ys : List ℕ) (i : ℕ) → i < length xs → get_elem? (xs ++ ys) i ≡ get_elem? xs i
byte-append [] ys i h = absurd (omega arith)
byte-append (x ∷ xs) ys zero h = refl
byte-append (x ∷ xs) ys (suc i) h = byte-append xs ys i (omega arith)

second_part :
    (now : ℕ) (w : Peer) (info_hash peerid : List ℕ) (b : ℕ)
    → w.state.handshake1 ≡ false
    → w.state.handshake2 ≡ true
    → w.rxpending ≡ 48
    → w.rxmsg ≡ some []
    → length info_hash ≡ 20
    → length peerid ≡ 20
    → get_elem? info_hash 19 ≡ some b
    → on_complete info_hash (read (set_up now w) (drop 20 (handshake_message info_hash peerid)))
      ≡ ok (out, whole now w info_hash peerid b)
unfolding on_complete on_handshake2 set_up read handshake_message
second_part now w info_hash peerid b h h2 e m hl pl byte =
    let all : take 40 (info_hash ++ peerid) ≡ info_hash ++ peerid =
      take_all 40 (info_hash ++ peerid) (omega (arith, length-append info_hash peerid)) in
    rw (h, h2, e, m)
      (rw (take_all 20 info_hash (omega arith), take_all 20 peerid (omega arith))
        (rw
          (
            all,
            byte-append info_hash peerid 19 (omega arith),
            byte,
            take-append_self 20 info_hash peerid hl,
            drop-append_self 20 info_hash peerid hl,
            take_all 20 peerid (omega arith),
            bytes_eq_self info_hash,
          )
          refl))

-- A peer that awaits a handshake, with nothing pending, and reads the one that we write, in the two parts
-- in which it is read, for the same torrent and with a hash and an identifier of 20 bytes, has our hash and our identifier, and waits for messages with its bitfield to send.
pub handshake-understood :
    (now now' : ℕ) (v : Peer) (info_hash peerid : List ℕ)
    → v.state.handshake1 ≡ true
    → v.rxpending ≡ 0
    → length info_hash ≡ 20
    → length peerid ≡ 20
    → (w : Peer) × (w' : Peer) × (on_complete info_hash
          (read (set_up now v) (handshake_message info_hash peerid))
        ≡ ok (out, w))
      × (on_complete info_hash (read (set_up now' w) (drop 20 (handshake_message info_hash peerid)))
          ≡ ok (out, w'))
      × (w'.info_hash ≡ info_hash)
      × (w'.id ≡ peerid)
      × ((w'.state.handshake1 || w'.state.handshake2) ≡ false)
      × (w'.state.sendbitfield ≡ true)
      × (w'.rxpending ≡ 0)
handshake-understood now now' v info_hash peerid h e hl pl =
    let (b, byte) = get_elem?_of_lt info_hash 19 (omega arith) in
    let w : Peer = half now v (handshake_message info_hash peerid) in
    (
      w,
      whole now' w info_hash peerid b,
      first_part now v info_hash info_hash peerid h e,
      second_part now' w info_hash peerid b refl refl refl refl hl pl byte,
      refl,
      refl,
      refl,
      refl,
      refl,
    )
