-- ===== src/Receive/Loop.antt =====
-- network_handle_peer_response of network.c calls itself until the buffer of the connection is empty.
use unworkable.Common.{
  ℕ, zero, suc, ◌≤◌, ◌<◌, ◌≡◌, refl, sym, ◌∙◌, List, [], ◌∷◌, some, ok, length, drop, arith,
  Option-cases, inl, inr, length-drop,
}
use unworkable.Index.{RbTree}
use unworkable.Session.{Peer, Session, Proc}
use unworkable.Session.Store.{>>=-congr, >>-pure, >>=-last}
use unworkable.Receive.Chunks.{pending, handle-finish}
use unworkable.Receive.{
  set_up, read, send_bitfield, after_read, handle_peer_response, receive_loop, receive,
}

module _ {rb : RbTree} (process_message : ℕ → ℕ → Proc rb (Unit {0})) where
  rest_lem :
      (p : ℕ) (input : List ℕ) (s : Session rb) {rest : List ℕ} {s' : Session rb} {v : Peer}
      → s.peer p ≡ some v
      → handle_peer_response process_message p input s ≡ ok (rest, s')
      → drop (set_up s.now v).rxpending input ≡ rest
  rest_lem p input s {v = v} e run =
      >>=-last (after_read process_message p (read (set_up s.now v) input)) _ _
        (λ _ t _. >>-pure (send_bitfield p) (drop (set_up s.now v).rxpending input) t)
        (sym (handle-finish process_message p s input e) ∙ run)

  -- What a call leaves is a proper end of the input.
  shorter :
      (p : ℕ) (input : List ℕ) (s : Session rb) {rest : List ℕ} {s' : Session rb}
      → 0 < length input
      → handle_peer_response process_message p input s ≡ ok (rest, s')
      → length rest < length input
  unfolding handle_peer_response
  shorter p input s h run = elim (Option-cases (s.peer p)) [
    | inl none_there ↦ absurd (ground arith)
    | inr (v, e) ↦
        rw (sym (rest_lem p input s e run))
          (omega (arith, pending s.now v, length-drop (set_up s.now v).rxpending input))
  ]

  enough :
      (f g p : ℕ) (input : List ℕ) (s : Session rb)
      → length input ≤ f
      → length input ≤ g
      → receive_loop process_message f p input s ≡ receive_loop process_message g p input s
  unfolding receive_loop
  enough f g p [] s hf hg = refl
  enough zero g p (b ∷ input) s hf hg = absurd (omega arith)
  enough (suc f) zero p (b ∷ input) s hf hg = absurd (omega arith)
  enough (suc f) (suc g) p (b ∷ input) s hf hg =
      >>=-congr (handle_peer_response process_message p (b ∷ input))
        (receive_loop process_message f p) (receive_loop process_message g p) s
        (λ rest s' run.
          let less = shorter p (b ∷ input) s (omega arith) run in
          enough f g p rest s' (omega arith) (omega arith))

  -- As many calls as there are bytes are enough: with any more the outcome is the same.
  pub receive-enough :
      (f p : ℕ) (input : List ℕ) (s : Session rb)
      → length input ≤ f
      → receive_loop process_message f p input s ≡ receive process_message p input s
  unfolding receive
  receive-enough f p input s h = enough f (length input) p input s h (omega arith)
