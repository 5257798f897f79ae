-- ===== src/Lib.antt =====
-- Verification of unworkable, a BitTorrent client in C.
--
-- The program: `main.c` reads a torrent file and starts a session; `network.c` talks to the peers,
-- `scheduler.c` decides every second what to ask of them, `torrent.c` keeps the data on disk in mappings,
-- and `announce.c` and `ctl_server.c` talk to the tracker and to a front end. The development models the parser
-- of torrent files, and what is between the socket and the mappings:
--
-- Util: the bits of a bitfield (`util.c`: util_setbit, util_getbit).
-- Buf: `struct buf` and its operations (`buf.c`), with what a file gives as an argument.
-- Bencode: the tree of `bencode.c` with benc_node_find. Bencode/Lexer is yylex, and Bencode/Parser the grammar of
--   `parse.y` with its actions and its stack, a function for each rule; the tables that yacc makes are left out, and
--   their order of reductions is written out. Bencode/Syntax has the texts of the grammar as trees, with the bytes
--   and the nodes of each, and Bencode/Tokens, Fields, Rules and RoundTrip lead from the one to the other.
-- Torrent: `struct torrent` and `struct torrent_piece` (`includes.h`). Torrent/Block is torrent_block_read and
--   torrent_block_write, Torrent/Pieces is torrent_pieces_create and torrent_piece_find, Torrent/Resume is
--   torrent_bitfield_get, torrent_empty, torrent_fastresume_dump and torrent_fastresume_load (`torrent.c`).
--   Torrent/Mapping is torrent_piece_map with torrent_mmap_create, torrent_piece_sync and torrent_piece_unmap:
--   the files are lists of bytes in the field `disk`, and a mapping holds its bytes until the pages that it lies on are
--   synchronised; a page that msync is not called for is left as it was.
--   Torrent/Hash is torrent_piece_checkhash. Torrent/Parse is torrent_parse_infohash and torrent_parse_file; a file
--   is what the reads of it give, and strtonum, which is OpenBSD's, is an argument.
-- Index: the index of piece downloads in `network.c`. The red-black tree of `openbsd-compat/sys/tree.h` is a
--   record of operations and laws, RbTree, which each later module takes as a parameter; Index/Sorted has a
--   list that meets the laws. piece_dl_idxnode_cmp is a definition.
-- Session: `struct peer`, `struct piece_dl`, `struct piece_ul` and `struct session` (`includes.h`). What the
--   program allocates lies at addresses in two stores, so that a download that stands in two queues is one
--   object; a use of an address that is not allocated is a fault. Session/Store has the procedures' monad, and
--   Session/Keeps the rules by which an invariant is carried through a procedure.
-- Platform: what is called of the C library and libcrypto, SHA-1, `random`, `qsort` and the size of a page, a
--   parameter.
-- Download: the queues of downloads and uploads (`network.c`: network_piece_dl_create, network_piece_dl_free,
--   network_piece_dl_find, network_peer_create, network_peer_free, network_piece_ul_enqueue and _dequeue, and
--   the loop of a CHOKE message). Download/Linked states how queues and downloads belong together.
-- Wire: the bytes of the messages; Send: the network_peer_write_… procedures, with what is handed to the
--   connection appended to the field `sent`.
-- Process: network_peer_process_message, a handler for each message: Process/Bitfields has those that tell what
--   a peer has, Process/Blocks that of PIECE, with the check of a piece that is complete, and the dispatch.
-- Receive: network_handle_peer_response. What the connection's buffer holds is an argument of a call, and
--   what is left of it the result. Receive/Framing and Receive/Handshake follow a message and a handshake.
-- PeerList: network_peerlist_update with network_peerlist_add_peer and network_peerlist_connect, and the handlers of a
--   connection that comes in or breaks. The results of connect, accept and getaddrinfo are arguments.
--   PeerList/Names says what addresses a list of peers stands for.
-- Announce: `announce.c`. Announce is the request, with split_url for what announce() does with the URL, and
--   Announce/Response the handlers of the connection to the tracker, up to network_peerlist_update and the timers.
--   Announce/Url and Announce/Response/Head have the texts that are read.
-- Transfer: network_peer_read_piece, network_peer_lastcomms, the rates and the keep-alive timer.
-- Scheduler: `scheduler.c`. Scheduler/Rarity ranks peers and pieces, Scheduler/Gimme is scheduler_piece_gimme,
--   Scheduler/Requests is scheduler_fill_requests, scheduler_dequeue_uploads and scheduler_endgame_algorithm,
--   Scheduler/Choking is scheduler_choke_algorithm, and Scheduler/Tick the function that runs every second.
--   The modules called Linked here and elsewhere carry the invariant of Download/Linked through.
-- Common has the shared helpers, Tests the runs at concrete arguments.
--
-- Numbers are natural numbers; where the program's arithmetic is of 32 or 64 bits, the reduction is written
-- out. A computation is `ok`, `die` where the process ends by errx, or `fault` where the behaviour of the C
-- program is undefined (an index out of bounds, a pointer to nothing, TAILQ_REMOVE of what is not there).
-- Some functions run on fuel. network_handle_peer_response calls itself as long as there is input, and each
-- call reads a byte, so that as many calls as there are bytes are enough. The loops over the offsets of the
-- blocks of a piece (in scheduler_piece_assigned, scheduler_piece_gimme, the end game and the processing of
-- PIECE) have a round for each block that is begun and one to end, which is enough for a piece that is a block
-- short of 2 ^ 32 bytes; out of fuel they are a fault. A call of the lexer has a round for each byte that is left,
-- and the parser four calls for each byte.
--
-- Not modelled: sockets, timers and the event loop; the names, descriptors and locks of files; the control
-- server, the printing of trees and torrents; the allocation of memory, which ends the process where it fails.
-- The announcement to the tracker is an argument of the models of network_peer_process_message and scheduler;
-- the loop that reads a tracker's answer has a round for each byte that is left, and one to end.
pub mod Common
pub mod Util
pub mod Buf
pub mod Announce
pub mod Bencode
pub mod Torrent
pub mod Index
pub mod Platform
pub mod Session
pub mod PeerList
pub mod Download
pub mod Wire
pub mod Send
pub mod Receive
pub mod Process
pub mod Scheduler
pub mod Tests
pub mod Transfer
