-- ===== src/Lockfile/Shape.antt =====
-- lockfile.go: `validHash`, `validateShape`, and what `Parse` checks of a decoded document.
use surfacelock.Prelude.{
  ℕ, Bool, true, false, not, ◌&&◌, ◌||◌, Option, none, some, List, [], ◌∷◌, ◌==◌, within,
  if◌then◌else◌, length, all, Map,
}
use surfacelock.Prelude.Bytes.{Bytes, codes, eq_bytes, lt_bytes}
use surfacelock.Canonical.{absent_sentinel}
use surfacelock.Names.{NameError, valid_name, name_cap_bytes, era_cap_bytes}
use surfacelock.Surface.Admit.{flow_stateless, flow_classic}
use surfacelock.Lockfile.Entry.{ServerLock, ToolLock, Lockfile, lockfile_version}

pub data ShapeError : Type 0 where
  null_entry unknown_transport missing_target missing_args args_for_http : ShapeError
  missing_protocol bad_flow bad_h_instructions absence_disagrees bad_surface_hash : ShapeError
  missing_tools not_sorted malformed_hash missing_tool_object : ShapeError
  era_name offered_name tool_name : NameError → ShapeError
  wrong_version missing_servers : ShapeError

abbrev pub is_lower_hex : ℕ → Bool
is_lower_hex c = within b'0' b'9' c || within b'a' b'f' c

-- The text behind a prefix.
unfoldable pub cut_prefix : Bytes → Bytes → Option Bytes
cut_prefix [] s = some s
cut_prefix (p ∷ ps) [] = none
cut_prefix (p ∷ ps) (c ∷ s) = if p == c then cut_prefix ps s else none

-- validHash; `hashRe` is `^sha256:[0-9a-f]{64}$`.
unfoldable pub valid_hash : Bytes → Bool → Bool
unfolding cut_prefix
valid_hash h absent_ok =
    if eq_bytes h absent_sentinel then absent_ok else elim (cut_prefix (codes "sha256:") h) [
      | none ↦ false
      | some digits ↦ length digits == 64 && all is_lower_hex digits
    ]

abbrev is_some {ℓ} : {A : Type ℓ} → Option A → Bool
is_some none = false
is_some (some a) = true

abbrev is_nil {ℓ} : {A : Type ℓ} → List A → Bool
is_nil [] = true
is_nil (x ∷ xs) = false

abbrev same : Bool → Bool → Bool
same true b = b
same false b = not b

-- One turn of the loop over `e.Tools`; `prev` is `none` in the first.
unfoldable pub tool_shape : Option Bytes → ToolLock → Option ShapeError
unfolding valid_hash
tool_shape prev t = elim (valid_name t.name name_cap_bytes) [
  | some e ↦ some (tool_name e)
  | none ↦
      if elim prev [ none ↦ false | some p ↦ not (lt_bytes p t.name) ]
      then some not_sorted
      else if not (valid_hash t.h_desc true)
          || (not (valid_hash t.h_schema true) || not (valid_hash t.h_tool false))
      then some malformed_hash
      else if is_nil t.tool
      then some missing_tool_object
      else none
]

unfoldable pub tools_shape : Option Bytes → List ToolLock → Option ShapeError
unfolding tool_shape
tools_shape prev [] = none
tools_shape prev (t ∷ ts) =
    let rest = tools_shape (some t.name) ts in
    elim (tool_shape prev t) [ some e ↦ some e | none ↦ rest ]

-- The checks of `e.Protocol`.
unfoldable pub protocol_shape : ServerLock → Option ShapeError
protocol_shape e =
    if eq_bytes e.protocol.offered [] || eq_bytes e.protocol.era []
    then some missing_protocol
    else elim (valid_name e.protocol.era era_cap_bytes) [
      | some n ↦ some (era_name n)
      | none ↦
          if not (
            eq_bytes e.protocol.flow []
            || (eq_bytes e.protocol.flow flow_stateless || eq_bytes e.protocol.flow flow_classic))
          then some bad_flow
          else elim (valid_name e.protocol.offered era_cap_bytes) [
            | some n ↦ some (offered_name n)
            | none ↦ none
          ]
    ]

-- The checks of the hashes and the tools.
unfoldable pub content_shape : ServerLock → Option ShapeError
unfolding tools_shape
content_shape e =
    if not (valid_hash e.h_instr true)
    then some bad_h_instructions
    else if same (is_some e.instructions) (not (eq_bytes e.h_instr absent_sentinel))
    then (if not (valid_hash e.surface_hash false)
        then some bad_surface_hash
        else elim e.tools [ none ↦ some missing_tools | some ts ↦ tools_shape none ts ])
    else some absence_disagrees

-- validateShape
unfoldable pub validate_shape : Option ServerLock → Option ShapeError
unfolding protocol_shape content_shape
validate_shape none = some null_entry
validate_shape (some e) =
    if not (eq_bytes e.transport (codes "http") || eq_bytes e.transport (codes "stdio"))
    then some unknown_transport
    else if eq_bytes e.target []
    then some missing_target
    else elim e.args [
      | none ↦ some missing_args
      | some args ↦
          if eq_bytes e.transport (codes "http") && not (is_nil args)
          then some args_for_http
          else elim (protocol_shape e) [ some x ↦ some x | none ↦ content_shape e ]
    ]

unfoldable pub servers_shape : Map (Option ServerLock) → Option ShapeError
unfolding validate_shape
servers_shape [] = none
servers_shape ((name, e) ∷ m) =
    let rest = servers_shape m in elim (validate_shape e) [ some x ↦ some x | none ↦ rest ]

-- Parse, behind the decoder.
unfoldable pub check_document : Lockfile → Option ShapeError
unfolding servers_shape
check_document lf =
    if not (lf.lockfile_version == lockfile_version)
    then some wrong_version
    else elim lf.servers [ none ↦ some missing_servers | some m ↦ servers_shape m ]
