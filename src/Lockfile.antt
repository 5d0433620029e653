-- ===== src/Lockfile.antt =====
-- lockfile.go: the entries of a lockfile, what a reader checks of them, and how one is made.
pub mod Entry
pub mod Shape
pub mod Validate
