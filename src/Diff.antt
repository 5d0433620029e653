-- ===== src/Diff.antt =====
-- diff.go: severity classes, the classification of one tool's drift, and `Diff`.
pub mod Class
pub mod Classify
pub mod Surfaces
