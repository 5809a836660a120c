-- ===== src/Daemon.antt =====
-- The daemon's loop and the command line: daemon/src/main.rs.
pub mod Round
pub mod Access
pub mod Invariant
pub mod Balance
pub mod Start
pub mod Silence
pub mod CommandLine
pub mod Exit
pub mod Reboots
pub mod Clockless
pub mod Quiet
pub mod Ends
