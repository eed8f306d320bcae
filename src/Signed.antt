-- ===== src/Signed.antt =====
-- src/signed_file.c and include/signed_file.h: transfers that end in a 256-byte signature block.
-- Block is the block and its verification, Receive the state machine that takes a transfer in
-- chunks, Stored the verification of a package on the card.
pub mod Block
pub mod Keys
pub mod Verify
pub mod Session
pub mod Receive
pub mod Taking
pub mod Chunks
pub mod Write
pub mod Accept
pub mod Finish
pub mod Whole
pub mod Stored
pub mod Package
pub mod Returns
mod Tests
