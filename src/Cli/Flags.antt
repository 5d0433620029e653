-- ===== src/Cli/Flags.antt =====
-- cmd/surfacelock/headers.go: the header flags.
pub mod Kept
use surfacelock.Prelude.{◌+◌, ◌-◌, Option, none, some, List, [], ◌∷◌, ◌++◌, if◌then◌else◌, insert}
use surfacelock.Prelude.Bytes.{Bytes, codes, eq_bytes, contains}
use surfacelock.Prelude.Results.{Result, ok, err, ◌>>=◌, ◌>>◌}
use surfacelock.Go.Text.{cut, trim_space, to_upper}
use surfacelock.Headers.{Headers, HeaderError, validate_headers}

-- parseHeaders's errors.
pub data FlagError : Type 0 where
  no_colon no_variable variable_unset variable_empty set_twice : FlagError
  bad_header : HeaderError → FlagError

-- credentialish
abbrev pub credentialish : List Bytes
credentialish =
    codes "AUTHORIZATION"
    ∷ codes "PROXY-AUTHORIZATION"
    ∷ codes "COOKIE"
    ∷ codes "X-API-KEY"
    ∷ codes "X-AUTH-TOKEN"
    ∷ []

-- canonicalName
abbrev pub canonical_name : Bytes → Bytes
canonical_name = to_upper

-- The variables of parseHeaders: `h`, the keys of `seen`, and the names that are warned about.
pub record Parsing : Type 0 where
  pub headers : Headers
  pub seen : List Bytes
  pub warned : List Bytes

-- The closure `add`.
unfoldable pub add_header : Parsing → Bytes → Bytes → Result FlagError Parsing
add_header p name value =
    let trimmed = trim_space name in
    if contains p.seen (canonical_name trimmed)
    then err set_twice
    else ok (record p {
      headers = insert trimmed value p.headers;
      seen = canonical_name trimmed ∷ p.seen;
    })

-- One --header.
unfoldable pub parse_literal : Parsing → Bytes → Result FlagError Parsing
unfolding add_header
parse_literal p s = elim (cut b':' s) [
  | none ↦ err no_colon
  | some (name, value) ↦ add_header p name (trim_space value) >>= λ q. ok (
      if contains credentialish (canonical_name (trim_space name))
      then record q { warned = q.warned ++ trim_space name ∷ [] }
      else q)
]

-- One --header-env, given os.LookupEnv.
unfoldable pub parse_from_env : (Bytes → Option Bytes) → Parsing → Bytes → Result FlagError Parsing
unfolding add_header
parse_from_env lookup_env p s = elim (cut b':' s) [
  | none ↦ err no_colon
  | some (name, after) ↦
      let variable = trim_space after in
      if eq_bytes variable [] then err no_variable else elim (lookup_env variable) [
        | none ↦ err variable_unset
        | some value ↦ if eq_bytes value [] then err variable_empty else add_header p name value
      ]
]

-- A loop over the flags of one kind.
unfoldable pub parse_each :
    (Parsing → Bytes → Result FlagError Parsing) → Parsing → List Bytes → Result FlagError Parsing
parse_each turn p [] = ok p
parse_each turn p (s ∷ ss) = turn p s >>= λ q. parse_each turn q ss

-- parseHeaders
unfoldable pub parse_headers :
    (Bytes → Option Bytes) → List Bytes → List Bytes → Result FlagError Parsing
unfolding parse_each parse_literal parse_from_env
parse_headers lookup_env literal from_env = do
  p ← parse_each parse_literal (record { headers = []; seen = []; warned = [] }) literal
  q ← parse_each (parse_from_env lookup_env) p from_env
  elim (validate_headers q.headers) [ none ↦ ok q | some e ↦ err (bad_header e) ]
