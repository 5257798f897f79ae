-- ===== src/Tests/Data.antt =====
-- The torrent, the peer and the sessions of the tests.
use unworkable.Common.{
  ℕ, zero, suc, ◌≡◌, refl, sym, List, [], ◌∷◌, true, false, none, some, arith, replicate,
}
use mathlib.Core.Path.{subst}
use unworkable.Index.Sorted.{sorted_tree}
use unworkable.Torrent.{Mmap, Piece, Torrent, singlefile}
use unworkable.Torrent.Pieces.Find.{Arrayed}
use unworkable.Session.{no_state, Peer, Session}
use unworkable.Download.{zero_peer}
use unworkable.Download.Linked.{Linked, Once, own}
use unworkable.Download.Linked.Create.{created, created-Linked}

-- A piece of ten bytes in two mappings, and one of four bytes.
abbrev pub two_maps : List Mmap
two_maps = (1 ∷ 2 ∷ 3 ∷ 4 ∷ []) ∷ (5 ∷ 6 ∷ 7 ∷ 8 ∷ 9 ∷ 10 ∷ []) ∷ []

abbrev pub first_piece : Piece
first_piece = record {
  cksumok = true;
  mapped = true;
  len = 10;
  index = 0;
  mmaps = two_maps;
  places = (0, 0) ∷ (0, 4) ∷ [];
}

abbrev pub second_piece : Piece
second_piece = record {
  cksumok = false;
  mapped = true;
  len = 4;
  index = 1;
  mmaps = (0 ∷ 0 ∷ 0 ∷ 0 ∷ []) ∷ [];
  places = (0, 10) ∷ [];
}

abbrev pub hash : List ℕ
hash = replicate 20 0xab

abbrev pub two_pieces : Torrent
two_pieces = record {
  type = singlefile;
  file_length = 14;
  total_length = 0;
  piece_hashes = [];
  info_hash = hash;
  num_pieces = 2;
  piece_length = 10;
  good_pieces = 1;
  downloaded = 10;
  left = 4;
  piece_array = first_piece ∷ second_piece ∷ [];
  isnew = false;
  files = [];
  disk = (1 ∷ 2 ∷ 3 ∷ 4 ∷ 5 ∷ 6 ∷ 7 ∷ 8 ∷ 9 ∷ 10 ∷ 0 ∷ 0 ∷ 0 ∷ 0 ∷ []) ∷ [];
}

pub two_pieces-Arrayed : Arrayed two_pieces
two_pieces-Arrayed = record { described = refl; room = omega arith }

-- A peer that is connected, in the state in which its handshake is awaited.
abbrev pub greeting : Peer
greeting = record zero_peer { state = record no_state { handshake1 = true } }

abbrev pub dead_peer : Peer
dead_peer = record zero_peer { state = record no_state { dead = true }; dl_queue_len = 1 }

-- A session with one peer, whose address is 0, and no download.
abbrev pub quiet : Peer → Session sorted_tree
quiet v = record {
  tp = two_pieces;
  peerid = replicate 20 0x2d;
  peers = 0 ∷ [];
  num_peers = 1;
  maxfds = 10;
  index = [];
  peer = λ q. elim q [ zero ↦ some v | suc q' ↦ none ];
  fresh_peer = 1;
  dl = λ d. none;
  fresh_dl = 0;
  now = 1000;
  sent = [];
  rarity_array = none;
  last_rarity = 0;
  announce_underway = false;
  last_announce = 0;
  seed = true;
  draws = 0;
  resume = none;
}

own_lem : (v : Peer) → v.piece_dls ≡ [] → (q : ℕ) → own (quiet v) q ≡ []
own_lem v h zero = h
own_lem v h (suc q) = refl

pub quiet-Linked : (v : Peer) → v.piece_dls ≡ [] → Linked (quiet v)
quiet-Linked v h = record {
  live = λ d v' e. absurd (cc);
  indexed = λ i o d e. absurd (cc);
  once = λ i o. tt;
  full = λ i o e. cc;
  assigned = λ d q v' e c. absurd (cc);
  owned = λ q d e. absurd (ground (arith, own_lem v h q));
  own_once = λ q. subst Once (sym (own_lem v h q)) tt;
  room = λ d v' e. absurd (cc);
}

-- The same with a download of the second piece's only block, at address 0.
abbrev pub busy : Peer → Session sorted_tree
busy v = created (quiet v) 0 1 0 4 v

pub busy-Linked : (v : Peer) → v.piece_dls ≡ [] → Linked (busy v)
busy-Linked v h = created-Linked (quiet v) 0 1 0 4 v (quiet-Linked v h) refl
