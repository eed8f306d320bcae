-- ===== src/Jtag.antt =====
-- src/jtag_gpio.c and include/jtag_gpio.h: the bit-banged JTAG port.
-- Tap is the IEEE 1149.1 controller that a chip on the chain follows, Pins the GPIO pins and the
-- clock edges, Shift the scans, Writer the bitstream writer, Stream its loop over a payload.
pub mod Tap
pub mod Pins
pub mod Ir
pub mod Shift
pub mod Edges
pub mod Scans
pub mod Words
pub mod Config
pub mod Writer
pub mod Begin
pub mod Payload
pub mod Closeout
pub mod Finish
pub mod Stream
pub mod Returns
pub mod Release
mod Tests
