-- ===== src/Tests/Rounds.antt =====
-- Runs of the scheduler and of the processing of messages, and their theorems at concrete arguments.
use unworkable.Common.{
  List, ℕ, zero, suc, ◌<◌, refl, [], ◌∷◌, some, Outcome, ok, die, fault, arith, inr, true, false,
  none, sym, ◌≡◌,
}
use mathlib.Core.Path.{subst}
use unworkable.Index.Sorted.{sorted_tree}
use unworkable.Platform.{Platform}
use unworkable.Session.{no_state, Peer, Session, Proc}
use unworkable.Session.Keeps.{ended}
use unworkable.Util.{getbit}
use unworkable.Download.{
  zero_peer, choke_loop, find_own, find_block, piece_dl_find, piece_dl_create, piece_ul_dequeue,
}
use unworkable.Session.Store.{has}
use unworkable.Download.Linked.{Linked, Once, own}
use unworkable.Receive.{
  receive, receive_loop, handle_peer_response, after_read, read, set_up, on_complete, on_length,
  deliver, send_bitfield,
}
use unworkable.Wire.{read_u32}
use unworkable.Transfer.{peer_rxrate}
use unworkable.Torrent.Pieces.{piece_find}
use unworkable.Send.{peer_write, peer_request_block}
use unworkable.Process.{on_choke}
use unworkable.Scheduler.{
  assigned_loop, piece_assigned, endgame_loop, is_endgame, threshold_kill, reap_dead,
}
use unworkable.Scheduler.Rarity.{
  speed_loop, peer_speedrank, count_loop, rarity_loop, rarest_loop, piece_rarityarray, find_rarest,
}
use unworkable.Scheduler.Gimme.{NextBlock, begun_loop, block_loop, rare_piece, piece_gimme}
use unworkable.Scheduler.Requests.{
  queue_len, dequeue_uploads, fill_loop, fill_requests, endgame_algorithm,
}
use unworkable.Scheduler.Choking.{spared, unchoke_loop, choke_others, choke_algorithm}
use unworkable.Scheduler.Tick.{tick_peer, tick_peers, scheduler}
use unworkable.Scheduler.Bounds.{Open, block_loop-Open}
use unworkable.Scheduler.Idle.{Has}
use unworkable.Scheduler.Spared.{to, Known, endgame_algorithm-Has}
use unworkable.Scheduler.Unchoked.{AllButFour, choke_algorithm-AllButFour}
use unworkable.Scheduler.Linked.Tick.{scheduler-Linked}
use unworkable.Process.Blocks.{process_message, on_piece}
use unworkable.Process.Unasked.{Unasked, Harmless, on_piece-Unasked}
use unworkable.Process.Linked.Stream.{receive-process_message-Linked}
use unworkable.Tests.Data.{quiet, quiet-Linked, busy, busy-Linked, two_pieces-Arrayed}

-- A platform whose `qsort` is called on arrays of one element.
abbrev plain : Platform
plain = record { sha1 = λ bytes. bytes; random = λ k. k; page_size = 4096; qsort = λ cmp xs. xs }

abbrev silence : Proc sorted_tree (Unit {0})
silence s = ok (tt, s)

silence-Linked : (u v : Session sorted_tree) → Linked u → silence u ≡ ok (tt, v) → Linked v
silence-Linked u v linked run = subst (λ s. Linked s) (ended run) linked

-- Where a run ends.
abbrev after :
    {A : Type 0} → Outcome (A × Session sorted_tree) → Session sorted_tree → Session sorted_tree
after (ok r) s = r.1
after die s = s
after fault s = s

block_loop-Open_example :
    (m : NextBlock) × ((block_loop 2 0 10 0 (quiet zero_peer) ≡ ok (m, quiet zero_peer))
      × Open (quiet zero_peer) 0 10 m)
block_loop-Open_example =
    block_loop-Open (quiet zero_peer) (quiet-Linked zero_peer refl) 0 10 (omega arith) refl

-- A peer that has both pieces.
abbrev seeder : Peer
seeder = record zero_peer {
  state = record no_state { established = true };
  bitfield = some (0xC0 ∷ []);
}

-- A peer that has none, and that does not choke us.
abbrev leecher : Peer
leecher = record zero_peer {
  state = record no_state { established = true };
  bitfield = some (0x00 ∷ []);
}

abbrev swarm : Session sorted_tree
swarm = record (quiet seeder) {
  peers = 0 ∷ 1 ∷ [];
  num_peers = 2;
  peer =
      λ q. elim q [ zero ↦ some seeder | suc q' ↦ elim q' [ zero ↦ some leecher | suc r ↦ none ] ];
  fresh_peer = 2;
}

own-swarm : (q : ℕ) → own swarm q ≡ []
own-swarm zero = refl
own-swarm (suc zero) = refl
own-swarm (suc (suc q)) = refl

swarm-Linked : Linked swarm
swarm-Linked = record {
  live = λ d v' e. absurd (cc);
  indexed = λ i o d e. absurd (cc);
  once = λ i o. tt;
  full = λ i o e. cc;
  assigned = λ d q v' e c. absurd (cc);
  owned = λ q d e. absurd (ground (arith, own-swarm q));
  own_once = λ q. subst Once (sym (own-swarm q)) tt;
  room = λ d v' e. absurd (cc);
}

seeder-Has : (i : ℕ) → i < 2 → Has seeder i
unfolding getbit
seeder-Has zero h = inr (0xC0 ∷ [], (refl, refl))
seeder-Has (suc zero) h = inr (0xC0 ∷ [], (refl, refl))
seeder-Has (suc (suc i)) h = absurd (omega arith)

leecher-Known : Known leecher 2
unfolding getbit
leecher-Known zero h = (false, refl)
leecher-Known (suc zero) h = (false, refl)
leecher-Known (suc (suc i)) h = absurd (omega arith)

seeder-Known : Known seeder 2
unfolding getbit
seeder-Known zero h = (true, refl)
seeder-Known (suc zero) h = (true, refl)
seeder-Known (suc (suc i)) h = absurd (omega arith)

swarm_members :
    (q : ℕ) → has q (0 ∷ 1 ∷ []) ≡ true → (w : Peer) × (swarm.peer q ≡ some w) × Known w 2
swarm_members zero m = (seeder, refl, seeder-Known)
swarm_members (suc zero) m = (leecher, refl, leecher-Known)
swarm_members (suc (suc q)) m = absurd (ground arith)

endgame_algorithm-Has_example :
    (s' : Session sorted_tree) × (endgame_algorithm swarm ≡ ok (tt, s'))
    × (s'.peer 0 ≡ some seeder)
    × (to 0 s'.sent ≡ [])
endgame_algorithm-Has_example =
    endgame_algorithm-Has swarm 0 seeder swarm-Linked two_pieces-Arrayed
      (omega arith, (omega arith, tt)) swarm_members refl seeder-Has

choke_algorithm-AllButFour_example : AllButFour (quiet zero_peer)
unfolding choke_algorithm peer_speedrank speed_loop peer_rxrate unchoke_loop choke_others spared
choke_algorithm-AllButFour_example =
    choke_algorithm-AllButFour plain 1000 (quiet zero_peer) (quiet zero_peer) (omega arith) refl

scheduler-Linked_example : Linked (after (scheduler plain silence (quiet seeder)) (quiet seeder))
unfolding scheduler tick_peers tick_peer reap_dead threshold_kill dequeue_uploads piece_ul_dequeue
    fill_requests fill_loop queue_len peer_rxrate piece_gimme begun_loop rare_piece find_rarest
    piece_rarityarray rarity_loop count_loop rarest_loop piece_assigned assigned_loop piece_dl_find
    find_own find_block getbit piece_find block_loop piece_dl_create peer_request_block peer_write
    choke_algorithm peer_speedrank speed_loop unchoke_loop choke_others spared is_endgame
    endgame_loop
scheduler-Linked_example =
    scheduler-Linked plain silence (quiet seeder)
      (after (scheduler plain silence (quiet seeder)) (quiet seeder)) silence-Linked
      (quiet-Linked seeder refl) refl

receive-process_message-Linked_example : Linked (
    after
      (receive (process_message plain silence) 0 (0 ∷ 0 ∷ 0 ∷ 1 ∷ 0 ∷ []) (busy seeder))
      (busy seeder))
unfolding process_message receive receive_loop handle_peer_response after_read read set_up
    on_complete on_length read_u32 deliver send_bitfield on_choke choke_loop
receive-process_message-Linked_example =
    receive-process_message-Linked plain silence 0 (0 ∷ 0 ∷ 0 ∷ 1 ∷ 0 ∷ []) [] (busy seeder)
      (after (receive (process_message plain silence) 0 (0 ∷ 0 ∷ 0 ∷ 1 ∷ 0 ∷ []) (busy seeder))
        (busy seeder))
      silence-Linked (busy-Linked seeder refl) refl

-- A PIECE message for the first piece, and a peer that has sent it.
abbrev unasked_bytes : List ℕ
unasked_bytes = 7 ∷ 0 ∷ 0 ∷ 0 ∷ 0 ∷ 0 ∷ 0 ∷ 0 ∷ 0 ∷ 0xAA ∷ 0xBB ∷ []

abbrev sender : Peer
sender = record zero_peer { rxmsg = some unasked_bytes; rxmsglen = 11 }

-- The same with the download of the second piece that it is to send.
abbrev asked : Peer
asked = record sender { piece_dls = 0 ∷ [] }

nothing_asked :
    Unasked plain silence (busy sender) 0 0 0 asked unasked_bytes (busy-Linked sender refl) refl
nothing_asked zero w e ei eo = absurd (ground arith)
nothing_asked (suc d) w e ei eo = absurd (ground arith)

on_piece-Unasked_example :
    Harmless plain silence
      (busy sender)
      0
      0
      0
      asked
      unasked_bytes
      (busy-Linked sender refl)
      refl
      (on_piece plain silence 0)
unfolding read_u32
on_piece-Unasked_example =
    on_piece-Unasked plain silence (busy sender) 0 0 0 asked unasked_bytes (busy-Linked sender refl)
      refl two_pieces-Arrayed (omega arith) refl refl refl nothing_asked
