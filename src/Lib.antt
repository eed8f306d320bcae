-- ===== src/Lib.antt =====
-- MEGA65 expansion board firmware: a verification library.
--
-- The firmware runs on a Raspberry Pi Pico. It programs the FPGA of a MEGA65 over a bit-banged JTAG
-- port, takes files over HTTP and UART, and stores them on an SD card, signed or not.
--
-- Base holds the shared names: numbers, lists, bits, and C strings as lists of byte values.
--
-- Jtag is src/jtag_gpio.c. Jtag/Tap is the TAP controller of IEEE 1149.1, the specification. A chip
-- (`Chain`) is a parameter that follows it (`Conforms`); Jtag/Pins is the port, which is a record of
-- pin levels and directions with the chip behind them. Each C function is one function on the state
-- (`Bus`, or `Port` with the file's statics): `tick`, `shift_ir`, `jtag_program_writer_begin` and
-- so on, under the C names. `jtag_program_stream` runs on fuel, one unit for a round of its loop;
-- each round takes a byte at least, so the payload's length and one are enough.
-- The statics stand in Jtag/Config, with the reads of the status. The delay loop and the wall clock are
-- not modelled.
--
-- Storage is include/storage.h: the file operations, which FatFs and the card stand behind, as a
-- parameter, with the laws a caller relies on.
--
-- Signed is src/signed_file.c. Mbed TLS is a parameter (`Crypto`), of which the theorems use only
-- that a digest depends on the bytes absorbed (`IsSha`). Signed/Block is `verify_block`, with
-- `last_err` as a data type; Signed/Session and Signed/Receive are `signed_file_receive_begin`,
-- `_write`, `_finish` and `_abort`; Signed/Stored is `signed_file_verify_stored`, whose loop has the
-- length of the payload and one as its fuel. `sizeof(size_t)` is 4, so lengths wrap at 2 ^ 32. The loop of
-- `_write` runs on fuel too, and the length of the chunk and one are enough.
--
-- RemoteAuth is src/remote_auth.c: the parser of mega65-jtag.cfg and `remote_auth_allowed`. What C cuts
-- out of its buffer is returned here, strtok_r's tokens are a list, and `unsigned long` has 32 bits.
--
-- WriteGate is src/write_gate.c, with the clock and the pin as arguments. Board is
-- src/machine_identity.c and src/core_filter.c.
--
-- Console is the line editor and the file names of src/uart_cmd.c.
--
-- Boot is bootloader/main.c and src/ota_apply.c. The flash chip is a parameter (`Flash`) with the laws of
-- NOR flash (`IsNor`). Boot/Copy is `do_ota_update`, whose loops have the size of a slot as fuel, a round
-- taking a page at least; Boot/Loader is the rest of the bootloader, whose `main` ends in the application
-- or in BOOTSEL. Boot/Staging and Boot/Update are `remote_http_firmware_update`, whose loop has the size
-- of the package and one as fuel. The update's state is the card, the watchdog's scratch register and
-- the chip, and the bootloader starts from the last two.
--
-- Http is a part of src/remote_http.c: Http/Names the tests of paths and file names, Http/Escape the
-- escapes and the URL coding, Http/Script what JavaScript reads of the escaped text, Http/Manifest the lines of a manifest, Http/Auth the header fields, base64 and the
-- Basic credentials, Http/Tar and Http/Theme the theme archive. A buffer's length is an argument, and
-- what C writes into it is returned, with none for false. The loop over the archive runs on fuel, and what
-- is proved of it holds whatever the fuel: it need not end, as its positions wrap at 2 ^ 32. The
-- copy of a member has its size and one as fuel, which is enough, as each round takes a byte at least.
--
-- CoreFile is src/core_file.c. A step on an open file gives a result or one of the messages of `last_err`, and
-- the card. CoreFile/Headers has the parsers of the three headers, CoreFile/Wrapper the search for a .bit wrapper,
-- whose loop has the bytes to search and one as fuel, and CoreFile/Open `core_open`.
--
-- Not modelled: `jtag_program_core`, the routing of requests and the update client of remote_http.c, the AT commands, the SD transport. FatFs, lwIP, Mbed TLS and the Pico SDK are not part of
-- the repository.
pub mod Base
pub mod Jtag
pub mod Storage
pub mod Signed
pub mod RemoteAuth
pub mod WriteGate
pub mod Boot
pub mod Http
pub mod CoreFile
pub mod Board
pub mod Console
