-- ===== src/Proxy/Requests.antt =====
-- proxy/proxy.go: `handleClientFrame`, the lines from the client.
use surfacelock.Prelude.{
  ℕ, Bool, true, false, not, ◌||◌, Option, none, some, List, [], ◌∷◌, leb, if◌then◌else◌, length,
  lookup, insert, remove,
}
use surfacelock.Prelude.Bytes.{Bytes, codes, eq_bytes, contains}
use surfacelock.Prelude.Results.{Result, ok, err}
use surfacelock.External.{External}
use surfacelock.Names.{check_era}
use surfacelock.Surface.Admit.{flow_classic}
use surfacelock.Proxy.Frame.{Frame, parse_frame, is_request}
use surfacelock.Proxy.Params.{list_params, discover_params_era, call_tool_name}
use surfacelock.Proxy.Verifier.{
  Verdict, code_proxy_refused, code_call_refused, inadmissible_verdict, resolve_drift,
}
use surfacelock.Proxy.Enumeration.{new_enumeration}
use surfacelock.Proxy.State.{
  max_pending, PendingReq, Core, Effect, refusal, to_upstream, Sent, id_or_null, store,
  apply_verdict, failed,
}

-- forwardUpstream
unfoldable pub forward_upstream : Core → Sent → Bytes → Core × List Effect
forward_upstream c sent raw =
    (elim sent [ failed ↦ record c { transport = true } | _ ↦ c ], to_upstream raw ∷ [])

abbrev request : Bytes → Bytes → ℕ → PendingReq
request method era enum = record { method = method; era = era; enum = enum }

unfoldable pub start_enumeration : Core → Bytes → Bool → Core × PendingReq
start_enumeration c era orphan =
    let (v, en) = new_enumeration c.verifier era orphan in
    (
      record c { verifier = v; enums = store en.id en c.enums },
      request (codes "tools/list") era en.id,
    )

-- The enumeration of a tools/list request.
unfoldable pub open_enumeration : Core → Bytes → Bytes → Core × PendingReq
open_enumeration c cursor era =
    if eq_bytes cursor [] then start_enumeration c era false else elim (lookup cursor c.cursors) [
      | some id ↦
          (record c { cursors = remove cursor c.cursors }, request (codes "tools/list") era id)
      | none ↦ start_enumeration c era true
    ]

-- One drift test of a stateless request: the core, and the verdict if it refuses.
unfoldable pub test_request : Core → Bool → Core × Option Verdict
test_request c drifted =
    let vd = resolve_drift c.verifier [] false in
    if drifted then (if vd.refuse then (c, some vd) else (apply_verdict c vd, none)) else (c, none)

unfoldable pub test_stateless : Core → Bytes → Core × Option Verdict
test_stateless c era = elim (check_era era) [
  | some e ↦ (c, some inadmissible_verdict)
  | none ↦
      let entry = c.verifier.entry in
      let (c1, flow_refused) = test_request c (eq_bytes entry.protocol.flow flow_classic) in
      elim flow_refused [
        | some vd ↦ (c1, some vd)
        | none ↦ test_request c1 (not (eq_bytes era entry.protocol.era))
      ]
]

module _ ⦃ext : External⦄ where
  -- prepareToolsList
  unfoldable pub prepare_tools_list : Core → Frame → Core × Result Verdict PendingReq
  prepare_tools_list c f = elim (list_params (lookup (codes "params") f.obj)) [
    | none ↦ (c, err inadmissible_verdict)
    | some p ↦
        if p.meta.stateless
        then (let (c1, refused) = test_stateless c p.meta.era in
            elim refused [
              | some vd ↦ (c1, err vd)
              | none ↦ let (c2, req) = open_enumeration c1 p.cursor p.meta.era in (c2, ok req)
            ])
        else if eq_bytes c.verifier.handshake_era []
        then (c, err inadmissible_verdict)
        else (let (c1, req) = open_enumeration c p.cursor c.verifier.handshake_era in (c1, ok req))
  ]

  -- The case "tools/call".
  unfoldable pub admit_call : Core → Frame → Core × Result ℕ PendingReq
  admit_call c f = elim (call_tool_name (lookup (codes "params") f.obj)) [
    | none ↦ (c, err code_proxy_refused)
    | some name ↦
        if contains c.verifier.callable name
        then (c, ok (request f.method [] 0))
        else (c, err code_call_refused)
  ]

  -- The switch over a request's method: what is to be pending, or the code of the refusal.
  unfoldable pub admit_request : Core → Frame → Core × Result ℕ PendingReq
  admit_request c f =
      if eq_bytes f.method (codes "server/discover")
      then elim (discover_params_era (lookup (codes "params") f.obj)) [
        | none ↦ (c, err code_proxy_refused)
        | some era ↦ (c, ok (request f.method era 0))
      ]
      else if eq_bytes f.method (codes "tools/list")
      then (let (c1, prepared) = prepare_tools_list c f in
          elim prepared [ err vd ↦ (apply_verdict c1 vd, err vd.code) | ok req ↦ (c1, ok req) ])
      else if eq_bytes f.method (codes "tools/call")
      then admit_call c f
      else (c, ok (request f.method [] 0))

  abbrev is_some {ℓ} : {A : Type ℓ} → Option A → Bool
  is_some none = false
  is_some (some a) = true

  unfoldable pub client_request : Core → Sent → Frame → Core × List Effect
  client_request c sent f =
      if leb max_pending (length c.pending) || is_some (lookup f.id_key c.pending)
      then (c, refusal (id_or_null f.id_raw) code_proxy_refused ∷ [])
      else (let (c1, admitted) = admit_request c f in
          elim admitted [
            | err code ↦ (c1, refusal (id_or_null f.id_raw) code ∷ [])
            | ok req ↦
                forward_upstream (record c1 { pending = insert f.id_key req c1.pending }) sent f.raw
          ])

  -- handleClientFrame
  unfoldable pub handle_client_frame : Core → Sent → Bytes → Core × List Effect
  handle_client_frame c sent line = elim (parse_frame line) [
    | err e ↦ (c, [])
    | ok f ↦
        if is_request f
        then client_request c sent f
        else if eq_bytes f.method (codes "tools/call")
        then (c, [])
        else forward_upstream c sent f.raw
  ]
