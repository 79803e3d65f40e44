-- ===== src/Cloudinit.antt =====
-- strataqemu/cloudinit.py: the checks on the dumps of the Omarchy configurator.
pub mod Json
pub mod Validate
pub mod Aligned
pub mod Accepted
