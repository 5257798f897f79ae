-- ===== src/Tests/Peers.antt =====
-- What a tracker's answer does to a list of peers, at a concrete string.
use unworkable.Common.{◌≡◌, refl, List, [], ◌∷◌, ok, length, arith}
use unworkable.Index.Sorted.{sorted_tree}
use unworkable.Session.{Session}
use unworkable.Download.{zero_peer}
use unworkable.PeerList.{memory_of, string_loop}
use unworkable.PeerList.Names.{insert_all, Listed}
use unworkable.PeerList.Update.{Compact, names_of, text_of, string_loop-insert_all}
use unworkable.Tests.Data.{quiet}

-- Two peers, one of them twice.
abbrev answer : List Compact
answer = (10, 0, 0, 1, 26, 225) ∷ (10, 0, 0, 2, 26, 225) ∷ (10, 0, 0, 1, 26, 225) ∷ []

quiet-Listed : Listed (quiet zero_peer) (([], []) ∷ [])
quiet-Listed = record {
  names = ((zero_peer, refl, refl, refl), tt);
  counted = refl;
  old = (omega arith, tt);
}

string_loop-insert_all_example :
    (s' : Session sorted_tree) × (string_loop
        (length (text_of answer))
        0
        (memory_of (text_of answer))
        (quiet zero_peer)
      ≡ ok (tt, s'))
    × Listed s' (insert_all (([], []) ∷ []) (names_of answer))
string_loop-insert_all_example =
    string_loop-insert_all answer (quiet zero_peer) (([], []) ∷ []) (omega arith) quiet-Listed
