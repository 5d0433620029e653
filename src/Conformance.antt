-- ===== src/Conformance.antt =====
-- The package conformance: what a capture of a server's answers is graded as.
pub mod Exchange
pub mod View
pub mod Cells
pub mod Tools
pub mod Classic
pub mod Stateless
pub mod Grade
pub mod Probe
