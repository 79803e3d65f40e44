-- ===== src/Tests.antt =====
-- Runs at concrete inputs: each applies a theorem to values that its hypotheses hold for.
mod Ports
mod Session
mod Qemu
mod Guest
mod Versions
pub mod Steps
mod Cloudinit
mod RunTest
mod Qga
mod Stream
mod Build
mod Commands
