-- ===== src/PeerList.antt =====
-- The list of peers in network.c: what a tracker's answer adds to it, the connections that are begun, those
-- that are taken, and those that break.
pub mod Names
pub mod Update
use unworkable.Common.{
  ℕ, zero, suc, ◌+◌, ◌-◌, ◌/◌, ◌*◌, ◌%◌, ◌^◌, Bool, true, false, ◌&&◌, List, [], ◌∷◌, ◌++◌, Option,
  none, some, Outcome, ok, die, fault, must, ◌==◌, ltb, leb, if◌then◌else◌, length, take, drop,
  replicate, bytes_eq, u32, u64, sub32,
}
use unworkable.Common.Int.{ℤ, pos, negsuc, to_word}
use unworkable.Common.Text.{codes}
use unworkable.Bencode.{
  Node, Nodes, bstring, bint, blist, bdict_entry, empty, node, c_string, node_find,
}
use unworkable.Index.{RbTree}
use unworkable.Session.{Peer, PeerState, killed, Session, Proc}
use unworkable.Session.Store.{◌>>=◌, ◌>>◌, pure, lift, get, get_peer, put_peer, unlink}
use unworkable.Download.{peer_create, peer_free}
use unworkable.Send.{peer_handshake}
use unworkable.Torrent.Parse.{as_string, as_int, found}

-- The comparison of `sin_addr` and `sin_port`.
abbrev pub same_address : Peer → Peer → Bool
same_address ep p = bytes_eq ep.addr p.addr && bytes_eq ep.port p.port

-- The memory that the lexer has for a string of a length, which is filled with NULs behind it: what is read
-- behind the string, but in that memory, is 0.
abbrev pub lexer_room : ℕ → ℕ
lexer_room n = if leb n 128 then 128 else 128 + 20480 * ((n - 128 + 20479) / 20480)

abbrev pub memory_of : List ℕ → List ℕ
memory_of value = value ++ replicate (lexer_room (length value) - length value) 0

-- `memcpy` of `n` bytes at an offset.
abbrev pub bytes_at : ℕ → ℕ → List ℕ → Outcome (List ℕ)
bytes_at n i memory = if ltb (length memory) (i + n) then fault else ok (take n (drop i memory))

abbrev pub handshake1 : Peer → Peer
handshake1 v = record v { state = record (v.state) { handshake1 = true } }

-- The conversion of a `long long` to an `int`.
abbrev pub to_int : ℤ → ℤ
to_int n = let w = to_word 32 n in if ltb w (2 ^ 31) then pos w else negsuc (2 ^ 32 - 1 - w)

module _ {rb : RbTree} where
  unfoldable pub is_listed : List ℕ → Peer → Proc rb Bool
  is_listed [] p = pure false
  is_listed (ep ∷ eps) p = do
    w ← get_peer ep
    if same_address w p then pure true else is_listed eps p

  -- A peer with an address that is in the list already is freed.
  unfoldable pub peerlist_add_peer : ℕ → Proc rb (Unit {0})
  peerlist_add_peer p = do
    v ← get_peer p
    s ← get
    listed ← is_listed s.peers v
    if listed then peer_free p else λ t.
        ok (tt, record t { peers = t.peers ++ p ∷ []; num_peers = u32 (t.num_peers + 1) })

  abbrev pub add_address : List ℕ → List ℕ → Proc rb (Unit {0})
  add_address addr port = do
    p ← peer_create
    v ← get_peer p
    put_peer p (record v { addr = addr; port = port })
    peerlist_add_peer p

  abbrev pub add_at : List ℕ → ℕ → Proc rb (Unit {0})
  add_at memory i = do
    addr ← lift (bytes_at 4 i memory)
    port ← lift (bytes_at 2 (i + 4) memory)
    add_address addr port

  -- `left` rounds from index `i` on: each sixth of them begins a peer.
  unfoldable pub string_loop : ℕ → ℕ → List ℕ → Proc rb (Unit {0})
  string_loop zero i memory = pure tt
  string_loop (suc left) i memory =
      (if i % 6 == 0 then add_at memory i else pure tt) >> string_loop left (i + 1) memory

  -- TAILQ_REMOVE in the list of the session.
  abbrev pub unlink_peer : ℕ → Proc rb (Unit {0})
  unlink_peer p s = elim (unlink p s.peers) [
    | none ↦ fault
    | some ps ↦ ok (tt, record s { peers = ps; num_peers = sub32 s.num_peers 1 })
  ]

  -- A use of an element, such as the links of the list that stand in it.
  abbrev pub touch : ℕ → Proc rb (Unit {0})
  touch p = get_peer p >>= λ v. pure tt

  -- network_handle_peer_error, which does the same for each error.
  unfoldable pub handle_peer_error : ℕ → Proc rb (Unit {0})
  handle_peer_error p = do v ← get_peer p; put_peer p (record v { state = killed })

  -- network_handle_peer_connect, with what `accept` gives: a descriptor and an address, or nothing. The events
  -- TIMEOUT and EOF of the listening socket end the process.
  abbrev pub accepted : ℕ → Option (ℕ × List ℕ × List ℕ) → Proc rb (Unit {0})
  accepted p none = peer_free p
  accepted p (some (fd, addr, port)) = do
    v ← get_peer p
    put_peer p (handshake1 (record v { connfd = fd; addr = addr; port = port }))
    λ s. ok (tt, record s { peers = s.peers ++ p ∷ []; num_peers = u32 (s.num_peers + 1) })
    peer_handshake p

  unfoldable pub handle_peer_connect : Bool → Option (ℕ × List ℕ × List ℕ) → Proc rb (Unit {0})
  handle_peer_connect is_over accept =
      if is_over then lift die else peer_create >>= λ p. accepted p accept

module _ {rb : RbTree} (connect : Session rb → ℕ → Option ℕ) where
  abbrev pub connected : ℕ → Peer → Option ℕ → Proc rb (Unit {0})
  connected ep v none = do unlink_peer ep; peer_free ep
  connected ep v (some fd) = do
    put_peer ep (record (handshake1 v) { connfd = fd })
    peer_handshake ep

  -- A round for one peer. Past the limit the peer is freed, and then its links are used.
  unfoldable pub connect_round : ℕ → Proc rb (Unit {0})
  connect_round ep = do
    v ← get_peer ep
    s ← get
    if leb (u64 (s.maxfds + 2 ^ 64 - 5)) s.num_peers
        then (peer_free ep >> touch ep >> unlink_peer ep)
        else if v.connfd == 0
        then connected ep v (connect s ep)
        else pure tt

  unfoldable pub connect_loop : List ℕ → Proc rb (Unit {0})
  connect_loop [] = pure tt
  connect_loop (ep ∷ eps) = connect_round ep >> connect_loop eps

  unfoldable pub peerlist_connect : Proc rb (Unit {0})
  peerlist_connect = do s ← get; connect_loop s.peers

  unfoldable pub update_string : List ℕ → ℕ → Proc rb (Unit {0})
  update_string value len = do string_loop len 0 (memory_of value); peerlist_connect

  -- `getaddrinfo` is given the address and the port in decimal, which `snprintf` has put into six bytes at most.
  module _ (decimal : ℤ → List ℕ) (getaddrinfo : List ℕ → List ℕ → Option (List ℕ × List ℕ)) where
    abbrev pub port_text : ℤ → Outcome (List ℕ)
    port_text n = let text = decimal (to_int n) in if leb 6 (length text) then die else ok text

    -- One of the dictionaries; a key `ip` or `port` that is not there is a NULL that is followed.
    unfoldable pub update_one : Node → Proc rb (Unit {0})
    update_one dict = do
      p ← peer_create
      ip_node ← lift (must (node_find dict (codes "ip")))
      (ip_len, ip) ← lift (as_string ip_node)
      port_node ← lift (must (node_find dict (codes "port")))
      n ← lift (as_int port_node)
      text ← lift (port_text n)
      id_node ← lift (found (node_find dict (codes "peer id")))
      (id_len, id) ← lift (as_string id_node)
      peer_id ← lift (bytes_at 20 0 (memory_of id))
      (addr, port) ← lift (found (getaddrinfo (c_string ip) text))
      v ← get_peer p
      put_peer p (record v { id = peer_id; addr = addr; port = port })
      peerlist_add_peer p

    unfoldable pub dict_loop : Nodes → Proc rb (Unit {0})
    dict_loop empty = pure tt
    dict_loop (node n ns) = update_one n >> dict_loop ns

    -- With the flags of an entry, whose body is no string.
    abbrev pub update_other : Node → Proc rb (Unit {0})
    update_other (blist ns) = dict_loop ns >> peerlist_connect
    update_other (bdict_entry key (blist ns)) = peerlist_connect
    update_other other = lift die

    -- The control server is told of the peers after this, which is left out.
    unfoldable pub peerlist_update : Node → Proc rb (Unit {0})
    peerlist_update (bstring len value) = update_string value len
    peerlist_update (bdict_entry key (bstring len value)) = lift fault
    peerlist_update other = update_other other
