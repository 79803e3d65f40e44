-- ===== src/Ports.antt =====
-- strataqemu/ports.py: allocation of localhost ports, and the retry of a spawn whose port was taken.
pub mod Alloc
pub mod Retry
