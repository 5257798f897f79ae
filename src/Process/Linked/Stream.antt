-- ===== src/Process/Linked/Stream.antt =====
-- network_handle_peer_response and network_peer_process_message of network.c together: the bytes of a peer,
-- from the buffer to what its messages do.
use unworkable.Common.{ℕ, ◌≡◌, List, ok}
use unworkable.Index.{RbTree}
use unworkable.Platform.{Platform}
use unworkable.Session.{Session, Proc}
use unworkable.Download.Linked.{Linked}
use unworkable.Receive.{receive}
use unworkable.Receive.Linked.{receive-Linked}
use unworkable.Process.Blocks.{process_message}
use unworkable.Process.Linked.Blocks.{process_message_keeps}

-- Where the announcement keeps queues linked, any bytes of a peer, cut into handshakes and messages and processed to the end with linked
-- queues, leave them linked.
pub receive-process_message-Linked :
    {rb : RbTree} (platform : Platform) (announce : Proc rb (Unit {0})) (p : ℕ)
    (input rest : List ℕ) (s t : Session rb)
    → ((u v : Session rb) → Linked u → announce u ≡ ok (tt, v) → Linked v)
    → Linked s
    → receive (process_message platform announce) p input s ≡ ok (rest, t)
    → Linked t
receive-process_message-Linked platform announce p input rest s t k linked run =
    (receive-Linked (process_message platform announce)
        (λ id q.
          process_message_keeps platform announce (record { ends = λ u i h a v r. k u v i r }) id q)
        p input).ends
      s linked tt rest t run
