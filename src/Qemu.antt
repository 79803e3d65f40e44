-- ===== src/Qemu.antt =====
-- strataqemu/qemu.py: the QEMU command line, the machine and its shutdown, and the reads and writes of its sockets.
pub mod Argv
pub mod Shutdown
pub mod Qga
pub mod Stream
pub mod Machine
pub mod Spawn
