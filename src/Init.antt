-- ===== src/Init.antt =====
-- The start of the daemon: daemon/src/init.rs.
pub mod Register
pub mod Start
pub mod Pin
pub mod Termination
pub mod Reboot
pub mod Neutral
pub mod Effects
pub mod Answers
