-- ===== src/Bencode/Total.antt =====
-- Every input is lexed and parsed to the end, within its memory.
pub mod Lexing
pub mod Steps
pub mod Leaves
pub mod Rules
pub mod File
