-- ===== src/CoreFile.antt =====
-- core_file.c: the headers of core files, and where their bitstream starts.
pub mod Steps
pub mod Headers
pub mod Wrapper
pub mod Open
pub mod Search
mod Tests
pub mod Bit
