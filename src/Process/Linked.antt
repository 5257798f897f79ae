-- ===== src/Process/Linked.antt =====
-- network_peer_process_message of network.c leaves the queues of piece downloads linked.
pub mod Messages
pub mod Blocks
pub mod Stream
