-- ===== src/Go/Json.antt =====
-- encoding/json: string tokens, the scanner, the values it reads, and what `Unmarshal` and
-- `Marshal` do at the types that the source uses.
pub mod Strings
pub mod Value
pub mod Numbers
pub mod Scan
pub mod Unmarshal
pub mod Struct
