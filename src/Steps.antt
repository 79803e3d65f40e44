-- ===== src/Steps.antt =====
-- strataqemu/tests_spec.py: the steps that the host runs in a guest.
pub mod Remote
pub mod Wait
pub mod Screenshot
pub mod SessionOnly
pub mod Version
pub mod About
pub mod Install
pub mod Update
pub mod Omarchy
