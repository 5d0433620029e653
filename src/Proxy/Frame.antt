-- ===== src/Proxy/Frame.antt =====
-- proxy/frame.go: the envelope of one JSON-RPC message.
pub mod Trusted
pub mod Refused
use surfacelock.Prelude.{
  Bool, false, not, ◌&&◌, Option, none, some, List, [], ◌∷◌, ◌++◌, ◌==◌, if◌then◌else◌, Map, lookup,
}
use surfacelock.Prelude.Bytes.{Bytes, codes, eq_bytes, contains}
use surfacelock.Prelude.Results.{Result, ok, err, ◌>>=◌, ◌>>◌, refuse_if}
use surfacelock.External.{External}
use surfacelock.Canonical.{canonicalize}
use surfacelock.Decode.{aliases}
use surfacelock.Go.Json.Value.{Fields, Value}
use surfacelock.Go.Json.Scan.{scan}
use surfacelock.Go.Json.Unmarshal.{unmarshal_map, unmarshal_string, unmarshal_number}
use surfacelock.Surface.Tool.{trim_left, is_null}

pub data FrameError : Type 0 where
  not_object does_not_parse duplicate_member case_variant bad_id : FrameError
  method_not_string method_empty method_and_result method_and_error : FrameError

-- envelopeKeys
abbrev pub envelope_keys : List Bytes
envelope_keys =
    codes "jsonrpc"
    ∷ codes "id"
    ∷ codes "method"
    ∷ codes "params"
    ∷ codes "result"
    ∷ codes "error"
    ∷ []

-- The first token is not `{`, or there is none.
unfoldable pub opens_object : Bytes → Bool
unfolding trim_left
opens_object raw = elim (trim_left raw) [ [] ↦ false | c ∷ s ↦ c == b'{' ]

module _ ⦃ext : External⦄ where
  -- The walk over the member names at depth 1; `seen` holds those passed.
  unfoldable pub walk_names : List Bytes → List Bytes → Fields → Option FrameError
  walk_names consumed seen Fields.end = none
  walk_names consumed seen (Fields.field k p v fs) =
      let rest = walk_names consumed (k ∷ seen) fs in
      if contains seen k
      then some duplicate_member
      else if aliases consumed k
      then some case_variant
      else rest

  -- checkMembers; a text that stops being JSON half way is `does_not_parse` wherever it stops.
  unfoldable pub check_members : Bytes → List Bytes → Option FrameError
  unfolding opens_object walk_names
  check_members raw consumed = if not (opens_object raw) then some not_object else elim (scan raw) [
    | none ↦ some does_not_parse
    | some v ↦ elim v [ Value.obj fs ↦ walk_names consumed [] fs | _ ↦ some not_object ]
  ]

  -- checkEnvelope
  unfoldable pub check_envelope : Bytes → Option FrameError
  unfolding check_members
  check_envelope raw = check_members raw envelope_keys

  -- canonNumberKey
  unfoldable pub canon_number_key : Bytes → Bytes
  canon_number_key raw = elim (canonicalize raw) [ none ↦ raw | some canon ↦ canon ]

  -- idKey
  unfoldable pub id_key : Bytes → Option Bytes
  unfolding canon_number_key
  id_key raw = elim (unmarshal_number raw) [
    | some num ↦ some (codes "n:" ++ canon_number_key num)
    | none ↦ elim (unmarshal_string raw) [ some s ↦ some (codes "s:" ++ s) | none ↦ none ]
  ]

  -- The part of parseFrame about `id`: the key, "" where there is none, and the raw value.
  unfoldable pub frame_id : Map Bytes → Result FrameError (Bytes × Option Bytes)
  unfolding id_key
  frame_id obj = elim (lookup (codes "id") obj) [
    | none ↦ ok ([], none)
    | some raw ↦
        if is_null raw
        then ok ([], none)
        else elim (id_key raw) [ none ↦ err bad_id | some key ↦ ok (key, some raw) ]
  ]

  -- The part of parseFrame about `method`, "" where there is none.
  unfoldable pub frame_method : Map Bytes → Result FrameError Bytes
  frame_method obj = elim (lookup (codes "method") obj) [
    | none ↦ ok []
    | some raw ↦ elim (unmarshal_string raw) [
      | none ↦ err method_not_string
      | some m ↦ do
        refuse_if (eq_bytes m []) method_empty
        elim (lookup (codes "result") obj) [ some _ ↦ err method_and_result | none ↦ ok tt ]
        elim (lookup (codes "error") obj) [ some _ ↦ err method_and_error | none ↦ ok tt ]
        ok m
    ]
  ]

-- frame; `""` for an absent id or method, `none` for a nil idRaw.
pub record Frame : Type 0 where
  pub raw : Bytes
  pub obj : Map Bytes
  pub id_key : Bytes
  pub id_raw : Option Bytes
  pub method : Bytes

-- isRequest
unfoldable pub is_request : Frame → Bool
is_request f = not (eq_bytes f.method []) && not (eq_bytes f.id_key [])

-- isNotification
unfoldable pub is_notification : Frame → Bool
is_notification f = not (eq_bytes f.method []) && eq_bytes f.id_key []

-- isResponse
unfoldable pub is_response : Frame → Bool
is_response f = eq_bytes f.method [] && not (eq_bytes f.id_key [])

module _ ⦃ext : External⦄ where
  -- parseFrame
  unfoldable pub parse_frame : Bytes → Result FrameError Frame
  unfolding frame_id frame_method
  parse_frame raw = elim (check_envelope raw) [
    | some e ↦ err e
    | none ↦ elim (unmarshal_map raw) [
      | none ↦ err does_not_parse
      | some obj ↦ do
        id ← frame_id obj
        m ← frame_method obj
        ok (record { raw = raw; obj = obj; id_key = id.0; id_raw = id.1; method = m })
    ]
  ]
