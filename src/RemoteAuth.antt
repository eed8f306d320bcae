-- ===== src/RemoteAuth.antt =====
-- src/remote_auth.c and include/remote_auth.h: mega65-jtag.cfg, the card's file of network settings,
-- trusted keys and rules on who may do what from where. A text is a list of bytes without a NUL; a
-- parser that cuts it up in place in C returns the parts here.
pub mod Scan
pub mod Values
pub mod Address
pub mod Rules
pub mod Globals
pub mod Load
pub mod Allowed
pub mod RoundTrip
pub mod Subnet
pub mod Covers
pub mod FailClosed
mod Tests
