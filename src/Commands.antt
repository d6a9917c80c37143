-- ===== src/Commands.antt =====
-- miniftpd/command_map.c: the replies, the commands and the table that leads to them.
pub mod Codes
pub mod Reply
pub mod Handlers
pub mod Table
pub mod Framing
pub mod Login
pub mod Renaming
pub mod Dispatch
pub mod Answers
pub mod Sample
pub mod Sound
mod Tests
