-- ===== src/Tests.antt =====
-- Concrete runs of the development, and its theorems applied to concrete arguments.
mod Buffers
mod Data
mod Storage
mod Bencodes
mod Files
mod Peers
mod Announces
mod Rounds
mod Queues
mod Messages
