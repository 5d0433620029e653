-- ===== src/Surface.antt =====
-- surface.go: what is admitted, and the rollup over it.
pub mod Keys
pub mod Tool
pub mod Admit
pub mod Rollup
