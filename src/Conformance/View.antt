-- ===== src/Conformance/View.antt =====
-- conformance/grade.go and conformance/probe.go: how one exchange's response is read.
use surfacelock.Prelude.{
  ℕ, Bool, true, false, not, ◌&&◌, ◌||◌, Option, none, some, List, [], ◌==◌, within, if◌then◌else◌,
  Map, lookup,
}
use surfacelock.Prelude.Bytes.{Bytes, codes, eq_bytes}
use mathlib.Core.Option
use surfacelock.External.{External}
use surfacelock.Decode.{equal_fold}
use surfacelock.Go.Text.{trim_space, has_prefix}
use surfacelock.Go.Json.Value.{Value, null, obj}
use surfacelock.Go.Json.Scan.{scan}
use surfacelock.Go.Json.Unmarshal.{unmarshal_string, unmarshal_strings}
use surfacelock.Go.Json.Struct.{ℤ, pos, set_string, set_int, set_map, set_fields, unmarshal_struct}
use surfacelock.Conformance.Exchange.{Exchange, silence}

-- rpcView, without the texts that only evidence quotes.
pub record View : Type 0 where
  pub transport_error : Bytes
  pub status : ℕ
  pub result : Option (Map Bytes)
  pub error_code : ℤ
  pub is_error : Bool
  pub is_batch : Bool
  pub truncated : Bool

-- The anonymous structs `env` and `env.Error`.
pub record RpcError : Type 0 where
  pub code : ℤ
  pub text : Bytes

pub record Envelope : Type 0 where
  pub result : Option (Map Bytes)
  pub error : Option RpcError

abbrev no_error : RpcError
no_error = record { code = pos 0; text = [] }

abbrev no_envelope : Envelope
no_envelope = record { result = none; error = none }

abbrev error_of : Option RpcError → RpcError
error_of none = no_error
error_of (some e) = e

abbrev pub in_2xx : ℕ → Bool
in_2xx = within 200 299

module _ ⦃ext : External⦄ where
  unfoldable pub assign_error : RpcError → Bytes → Bytes → Value → Option RpcError
  assign_error e k raw v =
      if equal_fold k (codes "code")
      then Option.map (λ (n : ℤ). record e { code = n }) (set_int e.code v)
      else if equal_fold k (codes "message")
      then Option.map (λ (s : Bytes). record e { text = s }) (set_string e.text v)
      else some e

  -- The field of pointer type.
  unfoldable pub set_error : Bytes → Option RpcError → Value → Option (Option RpcError)
  unfolding assign_error
  set_error whole old (obj fs) = Option.map some (set_fields assign_error whole (error_of old) fs)
  set_error whole old null = some none
  set_error whole old _ = none

  unfoldable pub assign_envelope : Bytes → Envelope → Bytes → Bytes → Value → Option Envelope
  unfolding set_error
  assign_envelope whole env k raw v =
      if equal_fold k (codes "result")
      then Option.map (λ (r : Option (Map Bytes)). record env { result = r })
          (set_map whole env.result v)
      else if equal_fold k (codes "error")
      then Option.map (λ (e : Option RpcError). record env { error = e })
          (set_error whole env.error v)
      else some env

  -- The struct of `resultString`, with the one field.
  unfoldable pub assign_result :
      Bytes → Option (Map Bytes) → Bytes → Bytes → Value → Option (Option (Map Bytes))
  assign_result whole r k raw v =
      if equal_fold k (codes "result") then set_map whole r v else some r

  unfoldable pub body_of : Exchange → Bytes
  body_of ex = if eq_bytes ex.message [] then ex.body else ex.message

  abbrev with_envelope : View → Envelope → View
  with_envelope v env = elim env.error [
    | none ↦ record v { result = env.result }
    | some e ↦ record v { result = env.result; is_error = true; error_code = e.code }
  ]

  -- viewOf
  unfoldable pub view_of : Exchange → View
  unfolding body_of assign_envelope
  view_of ex =
      let v : View = record {
        transport_error = ex.transport_error;
        status = ex.status;
        result = none;
        error_code = pos 0;
        is_error = false;
        is_batch = false;
        truncated = ex.truncated;
      } in
      let body = body_of ex in
      if has_prefix (trim_space body) (codes "[")
      then record v { is_batch = elim (scan (trim_space body)) [ none ↦ false | some j ↦ true ] }
      else elim (unmarshal_struct (assign_envelope body) no_envelope body) [
        | none ↦ v
        | some env ↦ with_envelope v env
      ]

  unfoldable pub result_of : Bytes → Option (Map Bytes)
  unfolding assign_result
  result_of message = elim (unmarshal_struct (assign_result message) none message) [
    | none ↦ none
    | some r ↦ r
  ]

  -- resultString
  unfoldable pub result_string : Bytes → Bytes → Bytes
  result_string message key = elim (result_of message) [
    | none ↦ []
    | some result ↦ elim (lookup key result) [
      | none ↦ []
      | some raw ↦ elim (unmarshal_string raw) [ none ↦ [] | some s ↦ s ]
    ]
  ]

  -- resultStrings
  unfoldable pub result_strings : Bytes → Bytes → List Bytes
  result_strings message key = elim (result_of message) [
    | none ↦ []
    | some result ↦ elim (lookup key result) [
      | none ↦ []
      | some raw ↦ elim (unmarshal_strings raw) [ none ↦ [] | some ss ↦ ss ]
    ]
  ]

-- `v.result["key"] != nil`, false where there is no result.
unfoldable pub carries : View → Bytes → Bool
carries v key = elim v.result [
  | none ↦ false
  | some m ↦ elim (lookup key m) [ none ↦ false | some raw ↦ true ]
]

abbrev pub has_result : View → Bool
has_result v = elim v.result [ none ↦ false | some m ↦ true ]

-- succeeded
unfoldable pub succeeded : View → Bool
succeeded v =
    if not (eq_bytes v.transport_error []) || (v.is_error || not (has_result v))
    then false
    else v.status == 0 || in_2xx v.status

-- unreached
unfoldable pub is_unreached : View → Bool
is_unreached v =
    if not (eq_bytes v.transport_error []) && not (eq_bytes v.transport_error silence)
    then true
    else v.truncated && (not (has_result v) && not v.is_error)

-- refused
unfoldable pub refused : View → Bool
unfolding succeeded is_unreached
refused v = not (succeeded v) && not (is_unreached v)
