-- ===== src/Receive/Chunks.antt =====
-- network_handle_peer_response of network.c does not depend on how the bytes of a peer are cut up.
use unworkable.Common.{
  ℕ, ◌-◌, ◌<◌, ◌≡◌, ap, sym, ◌∙◌, true, false, List, [], ◌++◌, Option, some, Outcome, ok, min, ltb,
  length, take, drop, arith, length-append,
}
use mathlib.Core.Path.{fun_ext}
use mathlib.Core.List.{append_assoc}
use unworkable.Common.Slices.{take-append, drop-append, drop_all}
use unworkable.Index.{RbTree}
use unworkable.Session.{Peer, Session, Proc}
use unworkable.Session.Store.{◌>>=◌, ◌>>◌, update, >>=-ok, pure, get_peer}
use unworkable.Receive.{received, set_up, read, send_bitfield, after_read, handle_peer_response}

-- Something is pending after the set-up.
pub pending : (now : ℕ) (v : Peer) → 0 < (set_up now v).rxpending
unfolding set_up
pending now v = ground arith

-- What `read` changes, field by field.
read_path :
    (v : Peer) {m m' : Option (List ℕ)} {t t' n n' : ℕ}
    → m ≡ m'
    → t ≡ t'
    → n ≡ n'
    → record v { rxmsg = m; totalrx = t; rxpending = n }
      ≡ record v { rxmsg = m'; totalrx = t'; rxpending = n' }
read_path v e₁ e₂ e₃ i = record v { rxmsg = e₁ i; totalrx = e₂ i; rxpending = e₃ i }

take_part :
    (n : ℕ) (xs ys : List ℕ)
    → length xs < n
    → take n xs ++ take (n - min n (length xs)) ys ≡ take n (xs ++ ys)
take_part n xs ys h = ground (arith, take-append n xs ys)

drop_part :
    (n : ℕ) (xs ys : List ℕ) → length xs < n → drop (n - min n (length xs)) ys ≡ drop n (xs ++ ys)
drop_part n xs ys h = ground (arith, drop-append n xs ys, drop_all n xs)

-- Two reads in a row are one, if the first does not fill the buffer.
read-read :
    (v : Peer) (xs ys : List ℕ) → length xs < v.rxpending → read (read v xs) ys ≡ read v (xs ++ ys)
unfolding read
read-read v xs ys h =
    read_path v
      (ap some (
        append_assoc (received v.rxmsg) (take v.rxpending xs)
          (take (v.rxpending - min v.rxpending (length xs)) ys)
        ∙ ap (λ l. received v.rxmsg ++ l) (take_part v.rxpending xs ys h)))
      (omega (arith, length-append xs ys)) (omega (arith, length-append xs ys))

-- Nor is the buffer set up again between them.
set_up-read :
    (now : ℕ) (v : Peer) (xs : List ℕ)
    → length xs < v.rxpending
    → set_up now (read v xs) ≡ read v xs
unfolding set_up read
set_up-read now v xs h = ground arith

read-keeps :
    (now : ℕ) (v : Peer) (xs : List ℕ)
    → (read (set_up now v) xs).state.sendbitfield ≡ v.state.sendbitfield
unfolding set_up read
read-keeps now v xs = ground arith

-- A read that does not fill the buffer leaves something pending.
waits :
    (now : ℕ) (v : Peer) (xs : List ℕ)
    → length xs < (set_up now v).rxpending
    → ltb 0 (read (set_up now v) xs).rxpending ≡ true
unfolding read
waits now v xs h = ground arith

drop_rest :
    (v : Peer) (xs ys : List ℕ)
    → length xs < v.rxpending
    → drop (read v xs).rxpending ys ≡ drop v.rxpending (xs ++ ys)
unfolding read
drop_rest v xs ys h = drop_part v.rxpending xs ys h

-- Of two changes at one address the last one counts.
update_twice :
    (f : ℕ → Option Peer) (p : ℕ) (v w : Peer)
    → update (update f p (some v)) p (some w) ≡ update f p (some w)
update_twice f p v w = fun_ext (λ q. ground arith)

module _ {rb : RbTree} where
  idle :
      (p : ℕ) (s : Session rb) {v : Peer}
      → s.peer p ≡ some v
      → v.state.sendbitfield ≡ false
      → send_bitfield p s ≡ ok (tt, s)
  unfolding send_bitfield
  idle p s e b = ground arith

  -- The session after bytes that do not fill the buffer.
  abbrev stored : ℕ → Session rb → Peer → List ℕ → Session rb
  stored p s v xs = record s { peer = update s.peer p (some (read (set_up s.now v) xs)) }

module _ {rb : RbTree} (process_message : ℕ → ℕ → Proc rb (Unit {0})) where
  -- What a call does once the bytes are read.
  abbrev pub finish :
      ℕ → Session rb → Peer → List ℕ → (ℕ → Option Peer) → Outcome (List ℕ × Session rb)
  finish p s w rest f =
      (after_read process_message p w >> (send_bitfield p >> pure rest)) (record s { peer = f })

  pub handle-finish :
      (p : ℕ) (s : Session rb) {v : Peer} (input : List ℕ)
      → s.peer p ≡ some v
      → handle_peer_response process_message p input s
        ≡ finish p s
            (read (set_up s.now v) input)
            (drop (set_up s.now v).rxpending input)
            (update s.peer p (some (read (set_up s.now v) input)))
  unfolding handle_peer_response
  handle-finish p s {v} input e = >>=-ok (get_peer p) _ s {a = v} {s' = s} (ground arith)

  -- An input that does not fill the buffer is stored.
  handle-part :
      (p : ℕ) (s : Session rb) {v : Peer} (xs : List ℕ)
      → s.peer p ≡ some v
      → v.state.sendbitfield ≡ false
      → length xs < (set_up s.now v).rxpending
      → handle_peer_response process_message p xs s ≡ ok ([], stored p s v xs)
  unfolding handle_peer_response after_read
  handle-part p s {v} xs e b h =
      >>=-ok (get_peer p) _ s {a = v} {s' = s} (ground arith)
      ∙ rw (waits s.now v xs h) (
          >>=-ok (send_bitfield p) _ (stored p s v xs) {a = tt} {s' = stored p s v xs} (
            idle p (stored p s v xs) {v = read (set_up s.now v) xs} (ground arith)
              (read-keeps s.now v xs ∙ b))
          ∙ ap (λ l. ok (l, stored p s v xs))
              (drop_all ((set_up s.now v).rxpending) xs (omega arith)))

  -- For a peer that is there and has no bitfield to be sent: once bytes that do not fill the buffer have
  -- been taken in, a call does with more bytes what one call would have done with all of them, whatever
  -- the processing of messages does. The session and what is left of the input are the same.
  pub handle_peer_response-append :
      (p : ℕ) (s : Session rb) {v : Peer} (xs ys : List ℕ)
      → s.peer p ≡ some v
      → v.state.sendbitfield ≡ false
      → length xs < (set_up s.now v).rxpending
      → (handle_peer_response process_message p xs >>= λ rest.
            handle_peer_response process_message p (rest ++ ys))
          s
        ≡ handle_peer_response process_message p (xs ++ ys) s
  handle_peer_response-append p s {v} xs ys e b h =
      let ready : Peer = set_up s.now v in
      >>=-ok (handle_peer_response process_message p xs) _ s (handle-part p s xs e b h)
      ∙ handle-finish p (stored p s v xs) {v = read ready xs} ys (ground arith)
      ∙ rw (set_up-read s.now ready xs h) (
          rw
            (read-read ready xs ys h, update_twice s.peer p (read ready xs) (read ready (xs ++ ys)))
            (ap
                (λ rest.
                  finish p s (read ready (xs ++ ys)) rest
                    (update s.peer p (some (read ready (xs ++ ys)))))
                (drop_rest ready xs ys h)
              ∙ sym (handle-finish p s (xs ++ ys) e)))
