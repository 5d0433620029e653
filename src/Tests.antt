-- ===== src/Tests.antt =====
-- The theorems at concrete inputs, and runs of the definitions.
mod Fixtures
mod Root
mod Sessions
mod Grading
mod Fetching
mod Commands
