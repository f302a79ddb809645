-- ===== src/Bytes.antt =====
-- fins/bytes.go: integers in byte slices, and packed booleans.
pub mod Parse
pub mod Write
pub mod Bools
pub mod Expand
pub mod RoundTrip
