-- ===== src/Http.antt =====
-- remote_http.c: file names, text codings, the manifest and the theme archive.
pub mod Strings
pub mod Names
pub mod Safety
pub mod Escape
pub mod Inert
pub mod RoundTrip
pub mod Script
pub mod Tar
pub mod Theme
pub mod Confined
pub mod Unpack
mod Tests
pub mod Manifest
pub mod Accepted
pub mod Auth
pub mod Base64
pub mod Login
