-- ===== src/Go.antt =====
-- What the source uses of Go's standard library: unicode/utf8, strings and encoding/json.
pub mod Utf8
pub mod Text
pub mod Json
