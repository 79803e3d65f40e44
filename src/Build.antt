-- ===== src/Build.antt =====
-- strataqemu/image_build.py: a golden image is built from its recipe.
pub mod Facts
pub mod Bench
pub mod Wait
pub mod Spawn
pub mod Live
