-- ===== src/Proxy/Params.antt =====
-- proxy/proxy.go and proxy/verify.go: what is read of a request's params and of a page.
use surfacelock.Prelude.{
  Bool, true, false, ◌&&◌, Option, none, some, [], ◌∷◌, ◌==◌, if◌then◌else◌, Map, lookup,
}
use surfacelock.Prelude.Bytes.{Bytes, codes}
use surfacelock.Prelude.Results.{ok, err}
use mathlib.Core.Option
use surfacelock.External.{External}
use surfacelock.Decode.{decode_exact, paired_surrogates}
use surfacelock.Go.Utf8.{valid}
use surfacelock.Go.Json.Unmarshal.{unmarshal_map, unmarshal_string}
use surfacelock.Surface.Tool.{is_null, present}
use surfacelock.Proxy.Frame.{check_members}

-- metaProtocolVersionKey
abbrev pub meta_protocol_version_key : Bytes
meta_protocol_version_key = codes "io.modelcontextprotocol/protocolVersion"

-- The era and the flag that metaEra returns.
pub record MetaEra : Type 0 where
  pub era : Bytes
  pub stateless : Bool

abbrev pub no_meta : MetaEra
no_meta = record { era = []; stateless = false }

-- What listParams returns.
pub record ListParams : Type 0 where
  pub cursor : Bytes
  pub meta : MetaEra

abbrev is_quote : Bytes → Bool
is_quote [] = false
is_quote (c ∷ s) = c == b'"'

module _ ⦃ext : External⦄ where
  -- metaEra; `none` is an error, here and below.
  unfoldable pub meta_era : Option Bytes → Option MetaEra
  meta_era none = some no_meta
  meta_era (some raw) =
      if is_null raw
      then some no_meta
      else elim (decode_exact raw (meta_protocol_version_key ∷ [])) [
        | err e ↦ none
        | ok meta ↦ elim (present meta_protocol_version_key meta) [
          | none ↦ some no_meta
          | some value ↦ elim (unmarshal_string value) [
            | none ↦ none
            | some era ↦ some (record { era = era; stateless = true })
          ]
        ]
      ]

  -- discoverParamsEra
  unfoldable pub discover_params_era : Option Bytes → Option Bytes
  unfolding meta_era
  discover_params_era none = some []
  discover_params_era (some params) =
      if is_null params then some [] else elim (decode_exact params (codes "_meta" ∷ [])) [
        | err e ↦ none
        | ok obj ↦ Option.map (λ (m : MetaEra). m.era) (meta_era (lookup (codes "_meta") obj))
      ]

  -- The cursor of a params object.
  unfoldable pub params_cursor : Map Bytes → Option Bytes
  params_cursor obj = elim (present (codes "cursor") obj) [
    | none ↦ some []
    | some raw ↦ unmarshal_string raw
  ]

  -- listParams
  unfoldable pub list_params : Option Bytes → Option ListParams
  unfolding params_cursor meta_era
  list_params none = some (record { cursor = []; meta = no_meta })
  list_params (some params) =
      if is_null params
      then some (record { cursor = []; meta = no_meta })
      else elim (decode_exact params (codes "cursor" ∷ codes "_meta" ∷ [])) [
        | err e ↦ none
        | ok obj ↦ elim (params_cursor obj) [
          | none ↦ none
          | some cursor ↦
              Option.map (λ (m : MetaEra). record { cursor = cursor; meta = m })
                (meta_era (lookup (codes "_meta") obj))
        ]
      ]

  -- callToolName
  unfoldable pub call_tool_name : Option Bytes → Option Bytes
  call_tool_name none = none
  call_tool_name (some params) =
      if is_null params then none else elim (check_members params (codes "name" ∷ [])) [
        | some e ↦ none
        | none ↦ elim (unmarshal_map params) [
          | none ↦ none
          | some obj ↦ elim (lookup (codes "name") obj) [
            | none ↦ none
            | some raw ↦
                if is_quote raw && (valid raw && paired_surrogates raw)
                then unmarshal_string raw
                else none
          ]
        ]
      ]

  -- pageNextCursor
  unfoldable pub page_next_cursor : Bytes → Option Bytes
  page_next_cursor result = elim (unmarshal_map result) [
    | none ↦ none
    | some page ↦ elim (present (codes "nextCursor") page) [
      | none ↦ some []
      | some raw ↦ unmarshal_string raw
    ]
  ]
