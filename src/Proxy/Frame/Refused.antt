-- ===== src/Proxy/Frame/Refused.antt =====
-- Which lines parseFrame refuses as no object.
use surfacelock.Prelude.{
  ◌≡◌, ◌≢◌, ◌⊎◌, inl, inr, true, none, some, List, [], ◌∷◌, arith, Option-cases, Map,
}
use surfacelock.Prelude.Bytes.{Bytes}
use surfacelock.Prelude.Results.{err, Result-cases}
use surfacelock.External.{External}
use surfacelock.Go.Json.Value.{Fields, Value}
use surfacelock.Go.Json.Scan.{scan}
use surfacelock.Go.Json.Unmarshal.{unmarshal_map}
use surfacelock.Proxy.Frame.{
  not_object, opens_object, walk_names, check_members, check_envelope, frame_id, frame_method,
  parse_frame, envelope_keys,
}

module _ ⦃ext : External⦄ where
  walk_names-error :
      (seen : List Bytes) (fs : Fields) → walk_names envelope_keys seen fs ≢ some not_object
  unfolding walk_names
  walk_names-error seen Fields.end h = cc
  walk_names-error seen (Fields.field k p v fs) h =
      ground (arith, h, walk_names-error (k ∷ seen) fs)

  frame_id-error : (members : Map Bytes) → frame_id members ≢ err not_object
  unfolding frame_id
  frame_id-error members h = ground (arith, h)

  frame_method-error : (members : Map Bytes) → frame_method members ≢ err not_object
  unfolding frame_method
  frame_method-error members h = ground (arith, h)

  -- An object, or a text that breaks off, is not refused as something else.
  pub parse_frame-error :
      (line : Bytes)
      → opens_object line ≡ true
      → ((scan line ≡ none) ⊎ ((fs : Fields) × (scan line ≡ some (Value.obj fs))))
      → parse_frame line ≢ err not_object
  unfolding parse_frame check_envelope check_members
  parse_frame-error line opens shape h = elim shape [
    | inl e ↦ ground (arith, h, opens, e)
    | inr (fs, e) ↦ elim (Option-cases (walk_names envelope_keys [] fs)) [
      | inr (x, w) ↦ ground (arith, h, opens, e, w, walk_names-error [] fs)
      | inl w ↦ elim (Option-cases (unmarshal_map line)) [
        | inl u ↦ ground (arith, h, opens, e, w, u)
        | inr (members, u) ↦ elim (Result-cases (frame_id members)) [
          | inr (x, i) ↦ ground (arith, h, opens, e, w, u, i, frame_id-error members)
          | inl (id, i) ↦ elim (Result-cases (frame_method members)) [
            | inr (x, m) ↦ ground (arith, h, opens, e, w, u, i, m, frame_method-error members)
            | inl (name, m) ↦ ground (arith, h, opens, e, w, u, i, m)
          ]
        ]
      ]
    ]
  ]
