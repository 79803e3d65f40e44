-- ===== src/Guest.antt =====
-- strataqemu/guest.py: the recipe of a guest, read from its `image.toml`.
pub mod Toml
pub mod Fields
pub mod Recipe
pub mod Load
pub mod Readers
pub mod WellFormed
