-- ===== src/Headers.antt =====
-- headers.go: the checks on static HTTP request headers.
pub mod Rules
use surfacelock.Prelude.{
  ℕ, ◌+◌, ◌-◌, ◌*◌, ◌%◌, ◌^◌, Bool, not, ◌&&◌, ◌||◌, Option, none, some, List, [], ◌∷◌, ltb, ◌==◌,
  within, if◌then◌else◌, length, all, any, Map, lookup, insert,
}
use surfacelock.Prelude.Bytes.{Bytes, codes, eq_bytes, lt_bytes, contains}
use surfacelock.Names.{is_control}
use surfacelock.Go.Text.{to_upper, trim_space}

pub data HeaderError : Type 0 where
  empty_name not_field_name same_field reserved_name control_in_value blank_value : HeaderError

-- Headers; no two entries of a Go map have the same key.
abbrev pub Headers : Type 0
Headers = Map Bytes

-- reservedNames
abbrev pub reserved_names : List Bytes
reserved_names =
    codes "CONTENT-TYPE"
    ∷ codes "ACCEPT"
    ∷ codes "ACCEPT-ENCODING"
    ∷ codes "USER-AGENT"
    ∷ codes "MCP-SESSION-ID"
    ∷ codes "MCP-PROTOCOL-VERSION"
    ∷ codes "MCP-METHOD"
    ∷ codes "MCP-NAME"
    ∷ codes "LAST-EVENT-ID"
    ∷ codes "HOST"
    ∷ codes "CONTENT-LENGTH"
    ∷ codes "TRANSFER-ENCODING"
    ∷ codes "TRAILER"
    ∷ codes "CONNECTION"
    ∷ codes "KEEP-ALIVE"
    ∷ codes "PROXY-CONNECTION"
    ∷ codes "TE"
    ∷ codes "UPGRADE"
    ∷ []

-- `tokenExtra`
abbrev token_extra : Bytes
token_extra = codes "!#$%&'*+-.^_`|~"

abbrev pub is_token : ℕ → Bool
is_token c =
    within b'a' b'z' c
    || (within b'A' b'Z' c || (within b'0' b'9' c || any (λ x. x == c) token_extra))

-- validHeaderName
unfoldable pub valid_header_name : Bytes → Bool
valid_header_name s = all is_token s && ltb 0 (length s)

-- The entries by the bytes of their names, the order of `sortedNames`.
unfoldable pub insert_entry : Bytes × Bytes → Headers → Headers
insert_entry e [] = e ∷ []
insert_entry e (f ∷ fs) = if lt_bytes e.0 f.0 then e ∷ f ∷ fs else f ∷ insert_entry e fs

unfoldable pub sorted_entries : Headers → Headers
unfolding insert_entry
sorted_entries [] = []
sorted_entries (e ∷ es) = insert_entry e (sorted_entries es)

-- One turn of the loop, given `seen`.
unfoldable pub check_entry : Map Bytes → Bytes × Bytes → Option HeaderError
unfolding valid_header_name
check_entry seen (name, value) =
    if eq_bytes name []
    then some empty_name
    else if not (valid_header_name name)
    then some not_field_name
    else elim (lookup (to_upper name) seen) [
      | some previous ↦ some same_field
      | none ↦
          if contains reserved_names (to_upper name)
          then some reserved_name
          else if any is_control value
          then some control_in_value
          else if eq_bytes (trim_space value) []
          then some blank_value
          else none
    ]

unfoldable pub check_entries : Map Bytes → Headers → Option HeaderError
unfolding check_entry
check_entries seen [] = none
check_entries seen (e ∷ es) = elim (check_entry seen e) [
  | some problem ↦ some problem
  | none ↦ check_entries (insert (to_upper e.0) e.0 seen) es
]

-- Headers.Validate; `none` is a nil error.
unfoldable pub validate_headers : Headers → Option HeaderError
unfolding sorted_entries check_entries
validate_headers h = check_entries [] (sorted_entries h)
