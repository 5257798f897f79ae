-- ===== src/Scheduler/Linked.antt =====
-- The procedures of scheduler.c leave the queues of piece downloads linked.
pub mod Gimme
pub mod Requests
pub mod Tick
