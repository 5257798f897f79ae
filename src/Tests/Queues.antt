-- ===== src/Tests/Queues.antt =====
-- Runs of the model of the download queues and of the scheduler, and its theorems at concrete arguments.
use unworkable.Common.{
  ℕ, ◌+◌, ◌^◌, ◌<◌, ◌≡◌, ◌≢◌, refl, [], ◌∷◌, true, not, ◌&&◌, ◌==◌, Option, none, some, ok, arith,
  u32, get_elem?,
}
use unworkable.Common.Slices.{flatten, put}
use unworkable.Index.{negative, cmp}
use unworkable.Index.Order.{cmp-lexicographic}
use unworkable.Index.Sorted.{sorted_tree}
use unworkable.Torrent.{Piece}
use unworkable.Session.{PieceDl, Peer, Session}
use unworkable.Session.Store.{has}
use unworkable.Download.{
  zero_peer, piece_dl_create, piece_dl_free, piece_dl_find, peer_free, choke_loop,
}
use unworkable.Download.Linked.{Linked, Once, queue, own}
use unworkable.Download.Linked.Create.{piece_dl_create-Linked}
use unworkable.Download.Linked.Free.{Without, piece_dl_free-Without}
use unworkable.Download.Linked.Find.{Found, piece_dl_find-queue}
use unworkable.Download.Linked.Orphan.{peer_free-Linked}
use unworkable.Download.Linked.Choke.{choke_loop-Linked}
use unworkable.Scheduler.{is_endgame, reap_dead}
use unworkable.Scheduler.Endgame.{is_endgame-all_settled}
use unworkable.Scheduler.Reap.{reap_dead-Linked}
use unworkable.Transfer.{peer_read_piece}
use unworkable.Transfer.Arrive.{peer_read_piece-put}
use unworkable.Tests.Data.{two_pieces-Arrayed, dead_peer, quiet, quiet-Linked, busy, busy-Linked}

piece_dl_create-Linked_example :
    (s' : Session sorted_tree) × (piece_dl_create 0 1 0 4 (quiet zero_peer) ≡ ok (0, s'))
    × Linked s'
    × ((quiet zero_peer).dl 0 ≡ none)
    × (queue s' 1 0 ≡ 0 ∷ [])
    × (own s' 0 ≡ 0 ∷ [])
piece_dl_create-Linked_example =
    piece_dl_create-Linked (quiet zero_peer) 0 1 0 4 (quiet-Linked zero_peer refl) refl

-- The download that the busy session has.
abbrev wanted : PieceDl
wanted = record { pc = some 0; idx = 1; off = 0; len = 4; bytes = 0 }

piece_dl_free-Without_example :
    (s' : Session sorted_tree) × (piece_dl_free 0 (busy zero_peer) ≡ ok (tt, s'))
    × Without 0 (busy zero_peer) s'
piece_dl_free-Without_example =
    piece_dl_free-Without (busy zero_peer) 0 wanted (busy-Linked zero_peer refl) refl

piece_dl_find-queue_example :
    (r : Option ℕ) × (piece_dl_find none 1 0 (busy zero_peer) ≡ ok (r, busy zero_peer))
    × Found (busy zero_peer) 1 0 r
    × (r ≡ none → queue (busy zero_peer) 1 0 ≡ [])
piece_dl_find-queue_example =
    piece_dl_find-queue (busy zero_peer) none 1 0 (busy-Linked zero_peer refl) (λ q e. absurd (cc))

peer_free-Linked_example :
    (s' : Session sorted_tree) × (peer_free 0 (busy zero_peer) ≡ ok (tt, s'))
    × Linked s'
    × (s'.peer 0 ≡ none)
    × ((d : ℕ) (v : PieceDl) → s'.dl d ≡ some v → v.pc ≢ some 0)
peer_free-Linked_example = peer_free-Linked (busy zero_peer) 0 (busy-Linked zero_peer refl) refl

choke_loop-Linked_example :
    (s' : Session sorted_tree) × (w' : Peer) × (choke_loop 0 (0 ∷ []) (busy dead_peer)
      ≡ ok (tt, s'))
    × Linked s'
    × (s'.peer 0 ≡ some w')
    × (w'.piece_dls ≡ [])
    × (w'.dl_queue_len < 2 ^ 32)
    × (u32 (w'.dl_queue_len + 1) ≡ 1)
    × ((q : ℕ) → q ≢ 0 → s'.peer q ≡ (busy dead_peer).peer q)
choke_loop-Linked_example =
    choke_loop-Linked 0 (0 ∷ []) (busy dead_peer) (busy-Linked dead_peer refl) refl refl
      (omega arith)

reap_dead-Linked_example :
    (s' : Session sorted_tree) × (reap_dead 0 (busy dead_peer) ≡ ok (true, s'))
    × Linked s'
    × (s'.peer 0 ≡ none)
    × Once s'.peers
    × ((q : ℕ) → has q s'.peers ≡ (has q (0 ∷ []) && not (q == 0)))
    × (s'.num_peers ≡ 0)
    × ((d : ℕ) (v : PieceDl) → s'.dl d ≡ some v → v.pc ≢ some 0)
reap_dead-Linked_example =
    reap_dead-Linked (busy dead_peer) 0 (busy-Linked dead_peer refl) refl refl refl (refl, tt)

is_endgame-all_settled_example : is_endgame (busy zero_peer) ≡ ok (true, busy zero_peer)
is_endgame-all_settled_example =
    is_endgame-all_settled (busy zero_peer) (busy-Linked zero_peer refl) two_pieces-Arrayed
      (omega arith, (omega arith, tt))

peer_read_piece-put_example :
    (s' : Session sorted_tree) × (tpp : Piece) × (tpp' : Piece) × (peer_read_piece 0 1 0
        (9 ∷ 8 ∷ 7 ∷ 6 ∷ [])
        (busy zero_peer)
      ≡ ok (tt, s'))
    × Linked s'
    × (get_elem? (busy zero_peer).tp.piece_array 1 ≡ some tpp)
    × (get_elem? s'.tp.piece_array 1 ≡ some tpp')
    × (flatten tpp'.mmaps ≡ put 0 (9 ∷ 8 ∷ 7 ∷ 6 ∷ []) (flatten tpp.mmaps))
    × ((i : ℕ)
        → 1 ≢ i
        → get_elem? s'.tp.piece_array i ≡ get_elem? (busy zero_peer).tp.piece_array i)
    × (s'.tp.downloaded ≡ 14)
peer_read_piece-put_example =
    peer_read_piece-put (busy zero_peer) 0 1 0 (9 ∷ 8 ∷ 7 ∷ 6 ∷ []) (busy-Linked zero_peer refl)
      two_pieces-Arrayed (omega arith) refl (λ e. cc)

cmp-lexicographic_example : cmp 1 16384 2 0 ≡ negative
cmp-lexicographic_example =
    cmp-lexicographic 1 16384 2 0 (omega arith) (omega arith) (omega arith) (omega arith)
