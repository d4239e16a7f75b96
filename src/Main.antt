-- ===== src/Main.antt =====
-- main.c: the mapper, from its configuration to its end.
pub mod Setup
pub mod Devices
pub mod Wait
pub mod Shutdown
