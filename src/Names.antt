-- ===== src/Names.antt =====
-- surface.go: `validName` and `CheckEra`, the rules for names and protocol revisions.
pub mod Rules
use surfacelock.Prelude.{
  ℕ, Bool, not, ◌||◌, Option, none, some, [], ltb, ◌==◌, if◌then◌else◌, length, any,
}
use surfacelock.Prelude.Bytes.{Bytes, eq_bytes}
use surfacelock.Go.Utf8.{valid, runes}

pub data NameError : Type 0 where
  is_empty too_long not_utf8 control_character : NameError

-- nameCapBytes, eraCapBytes
abbrev pub name_cap_bytes : ℕ
name_cap_bytes = 128

abbrev pub era_cap_bytes : ℕ
era_cap_bytes = 64

abbrev pub is_control : ℕ → Bool
is_control r = ltb r 0x20 || r == 0x7F

-- validName; `none` is a nil error.
unfoldable pub valid_name : Bytes → ℕ → Option NameError
valid_name s max_bytes =
    if eq_bytes s []
    then some is_empty
    else if ltb max_bytes (length s)
    then some too_long
    else if not (valid s)
    then some not_utf8
    else if any is_control (runes s)
    then some control_character
    else none

-- CheckEra
unfoldable pub check_era : Bytes → Option NameError
unfolding valid_name
check_era era = valid_name era era_cap_bytes
