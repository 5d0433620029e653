-- ===== src/Cli.antt =====
-- cmd/surfacelock: the commands that read the lockfile, fetch and judge.
pub mod Exit
pub mod Flags
pub mod Reflected
pub mod Select
pub mod Compare
pub mod Lock
pub mod Pin
