-- ===== src/Session.antt =====
-- strataqemu/session.py: the graphical loginctl session of a user, and its environment.
pub mod Parse
pub mod Select
pub mod Env
