-- ===== src/Driver.antt =====
-- fins/driver.go: frames, commands and binary coded decimals.
pub mod Frames
pub mod Commands
pub mod Bcd
