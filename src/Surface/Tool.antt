-- ===== src/Surface/Tool.antt =====
-- surface.go: one tool, its canonical bytes and its hashes (`hashTool`, `admitTool`).
pub mod Hashes
use surfacelock.Prelude.{
  ℕ, Bool, not, ◌&&◌, ◌||◌, Option, none, some, [], ◌∷◌, ltb, ◌==◌, if◌then◌else◌, length, Map,
  lookup,
}
use surfacelock.Prelude.Bytes.{Bytes, codes, eq_bytes}
use surfacelock.Prelude.Results.{Result, ok, err, refuse_if, ◌>>=◌, ◌>>◌}
use surfacelock.External.{External}
use surfacelock.Canonical.{absent_sentinel, canonicalize, hash_bytes, hash_canonical}
use surfacelock.Decode.{paired_surrogates}
use surfacelock.Names.{NameError, valid_name, name_cap_bytes}
use surfacelock.Go.Utf8.{valid}
use surfacelock.Go.Json.Unmarshal.{unmarshal_map, unmarshal_string}
use surfacelock.Surface.Keys.{KeyError, check_aliased_tool_keys}

-- Tool
pub record Tool : Type 0 where
  pub name : Bytes
  pub canon : Bytes
  pub h_tool : Bytes
  pub h_schema : Bytes
  pub h_desc : Bytes

-- Limits
pub record Limits : Type 0 where
  pub max_page_bytes : ℕ
  pub max_pages : ℕ
  pub max_cursor_bytes : ℕ
  pub max_tool_bytes : ℕ
  pub max_surface_bytes : ℕ
  pub max_tools : ℕ
  pub max_instructions_bytes : ℕ

-- DefaultLimits
abbrev pub default_limits : Limits
default_limits = record {
  max_page_bytes = 4194304;
  max_pages = 100;
  max_cursor_bytes = 4096;
  max_tool_bytes = 1048576;
  max_surface_bytes = 16777216;
  max_tools = 10000;
  max_instructions_bytes = 65536;
}

-- The errors that wrap `ErrInadmissible`, one for each place that makes one.
pub data Inadmissible : Type 0 where
  bad_era bad_tool_name : NameError → Inadmissible
  aliased_keys : KeyError → Inadmissible
  unknown_flow : Inadmissible
  instructions_not_utf8 instructions_not_string instructions_too_long : Inadmissible
  instructions_not_canonical : Inadmissible
  too_many_pages page_too_long page_not_utf8 page_not_canonical page_not_object : Inadmissible
  page_key_variant tools_not_array too_many_tools duplicate_tool surface_too_long : Inadmissible
  tool_not_utf8 tool_not_object tool_without_name tool_name_not_string : Inadmissible
  tool_name_unpaired tool_not_canonical tool_too_long : Inadmissible
  description_not_string description_not_canonical : Inadmissible
  schema_not_object schema_not_canonical : Inadmissible

-- trimJSONSpace, from one end.
unfoldable pub trim_left : Bytes → Bytes
trim_left [] = []
trim_left (c ∷ s) =
    let rest = trim_left s in if c == b' ' || (c == 9 || (c == 10 || c == 13)) then rest else c ∷ s

-- What stands in front of the trailing white space.
unfoldable pub trim_right : Bytes → Bytes
trim_right [] = []
trim_right (c ∷ s) =
    let rest = trim_right s in
    if eq_bytes rest [] && (c == b' ' || (c == 9 || (c == 10 || c == 13))) then [] else c ∷ rest

-- isNull
unfoldable pub is_null : Bytes → Bool
unfolding trim_left trim_right eq_bytes
is_null raw = eq_bytes (trim_right (trim_left raw)) (codes "null")

-- `r, ok := fields[k]; ok && !isNull(r)`
unfoldable pub present : Bytes → Map Bytes → Option Bytes
unfolding is_null lookup
present k fields = elim (lookup k fields) [
  | none ↦ none
  | some r ↦ if is_null r then none else some r
]

abbrev pub from_option {ℓ} : {A : Type ℓ} → Option A → Inadmissible → Result Inadmissible A
from_option none e = err e
from_option (some a) e = ok a

abbrev pub refuse_some {ℓ} :
    {A : Type ℓ} → Option A → (A → Inadmissible) → Result Inadmissible (Unit {0})
refuse_some none e = ok tt
refuse_some (some a) e = err (e a)

module _ ⦃ext : External⦄ where
  -- The hash of an optional description, a string.
  unfoldable pub desc_hash : Option Bytes → Result Inadmissible Bytes
  desc_hash none = ok absent_sentinel
  desc_hash (some r) = do
    desc ← from_option (unmarshal_string r) description_not_string
    from_option (hash_canonical r) description_not_canonical

  -- The hash of an optional input schema, an object.
  unfoldable pub schema_hash : Option Bytes → Result Inadmissible Bytes
  schema_hash none = ok absent_sentinel
  schema_hash (some r) = do
    obj ← from_option (unmarshal_map r) schema_not_object
    from_option (hash_canonical r) schema_not_canonical

  -- hashTool
  unfoldable pub hash_tool : Bytes → Result Inadmissible Tool
  hash_tool raw = do
    refuse_if (not (valid raw)) tool_not_utf8
    refuse_some (check_aliased_tool_keys raw) aliased_keys
    fields ← from_option (unmarshal_map raw) tool_not_object
    name_raw ← from_option (lookup (codes "name") fields) tool_without_name
    name ← from_option (unmarshal_string name_raw) tool_name_not_string
    refuse_if (not (paired_surrogates name_raw)) tool_name_unpaired
    refuse_some (valid_name name name_cap_bytes) bad_tool_name
    canon ← from_option (canonicalize raw) tool_not_canonical
    h_desc ← desc_hash (present (codes "description") fields)
    h_schema ← schema_hash (present (codes "inputSchema") fields)
    ok (record {
      name = name;
      canon = canon;
      h_tool = hash_bytes canon;
      h_schema = h_schema;
      h_desc = h_desc;
    })

  -- admitTool
  unfoldable pub admit_tool : Bytes → Limits → Result Inadmissible Tool
  admit_tool raw lim = do
    t ← hash_tool raw
    refuse_if (ltb lim.max_tool_bytes (length t.canon)) tool_too_long
    ok t
