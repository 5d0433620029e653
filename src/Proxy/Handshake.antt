-- ===== src/Proxy/Handshake.antt =====
-- proxy/verify.go: `verifyHandshake`.
pub mod Match
use surfacelock.Prelude.{
  Bool, false, not, ◌&&◌, ◌||◌, Option, none, some, List, [], ◌∷◌, if◌then◌else◌, Map, lookup,
}
use surfacelock.Prelude.Bytes.{Bytes, codes, eq_bytes, contains}
use surfacelock.Prelude.Results.{ok, err}
use surfacelock.External.{External}
use surfacelock.Decode.{decode_exact}
use surfacelock.Names.{check_era}
use surfacelock.Go.Json.Unmarshal.{unmarshal_string, unmarshal_strings}
use surfacelock.Surface.Admit.{RawSurface, admit, flow_stateless, flow_classic}
use surfacelock.Proxy.Verifier.{
  Verifier, Verdict, verified_handshake, forward_verdict, inadmissible_verdict, resolve_drift,
}

-- `initialize` or `server/discover`, the two values that `flowObserved` is given.
pub data Flow : Type 0 where
  classic stateless : Flow

abbrev pub flow_text : Flow → Bytes
flow_text classic = flow_classic
flow_text stateless = flow_stateless

-- What the switch over the flow reads of the result: the era, whether `supportedVersions` lacks
-- it, and the raw instructions.
pub record Reading : Type 0 where
  pub era : Bytes
  pub unsupported : Bool
  pub instructions : Option Bytes

-- The surface that the instructions are admitted as.
abbrev pub handshake_surface : Reading → RawSurface
handshake_surface r = record {
  offered = r.era;
  era = r.era;
  flow = [];
  instructions = r.instructions;
  server_info = none;
  pages = [];
}

abbrev or_nil : Option Bytes → Bytes
or_nil none = []
or_nil (some raw) = raw

-- `lock.Protocol.Flow != "" && lock.Protocol.Flow != flowObserved`
unfoldable pub flow_mismatch : Verifier → Flow → Bool
flow_mismatch v flow =
    not (eq_bytes v.entry.protocol.flow []) && not (eq_bytes v.entry.protocol.flow (flow_text flow))

-- From `adm.HInstr` on.
unfoldable pub conclude : Verifier → Flow → Reading → Bytes → Verdict × Verifier
conclude v flow r h_instr =
    let instructions_changed = not (eq_bytes h_instr v.entry.h_instr) in
    let era_drift = r.unsupported || not (eq_bytes r.era v.entry.protocol.era) in
    let verified = record v { handshake_era = r.era } in
    if flow_mismatch v flow || (era_drift || instructions_changed)
    then (let vd = resolve_drift v [] instructions_changed in
        if vd.refuse then (vd, v) else (vd, verified))
    else (forward_verdict (verified_handshake ∷ []), verified)

module _ ⦃ext : External⦄ where
  unfoldable pub read_classic : Bytes → Option Reading
  read_classic result =
      elim (decode_exact result
        (codes "protocolVersion" ∷ codes "instructions" ∷ codes "serverInfo" ∷ [])) [
          | err e ↦ none
          | ok obj ↦ elim (unmarshal_string (or_nil (lookup (codes "protocolVersion") obj))) [
            | none ↦ none
            | some era ↦ if eq_bytes era [] then none else elim (check_era era) [
              | some e ↦ none
              | none ↦ some (record {
                era = era;
                unsupported = false;
                instructions = lookup (codes "instructions") obj;
              })
            ]
          ]
        ]

  unfoldable pub supported_versions : Map Bytes → Option (List Bytes)
  supported_versions obj = elim (lookup (codes "supportedVersions") obj) [
    | none ↦ some []
    | some raw ↦ unmarshal_strings raw
  ]

  unfoldable pub read_stateless : Bytes → Bytes → Option Reading
  read_stateless result req_era =
      elim (decode_exact result
        (codes "supportedVersions" ∷ codes "instructions" ∷ codes "serverInfo" ∷ [])) [
          | err e ↦ none
          | ok obj ↦ elim (supported_versions obj) [
            | none ↦ none
            | some supported ↦ some (record {
              era = req_era;
              unsupported = not (contains supported req_era);
              instructions = lookup (codes "instructions") obj;
            })
          ]
        ]

  unfoldable pub read_handshake : Flow → Bytes → Bytes → Option Reading
  read_handshake classic result req_era = read_classic result
  read_handshake stateless result req_era = read_stateless result req_era

  -- verifyHandshake: the verdict and the verifier after it.
  unfoldable pub verify_handshake : Verifier → Flow → Bytes → Bytes → Verdict × Verifier
  verify_handshake v flow result req_era = elim (read_handshake flow result req_era) [
    | none ↦ (inadmissible_verdict, v)
    | some r ↦ elim (admit (handshake_surface r) v.lim) [
      | err e ↦ (inadmissible_verdict, v)
      | ok adm ↦ conclude v flow r adm.h_instr
    ]
  ]
