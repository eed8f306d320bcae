-- ===== src/Board.antt =====
-- src/machine_identity.c and src/core_filter.c: which machine this is, and which cores are its own.
pub mod Identity
pub mod Filter
pub mod Tokens
pub mod Names
pub mod Matches
mod Tests
