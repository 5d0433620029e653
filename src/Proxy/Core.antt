-- ===== src/Proxy/Core.antt =====
-- proxy/proxy.go: `handleServerFrame`, the lines from the upstream.
pub mod Session
pub mod Gate
pub mod Revoke
pub mod Correlate
pub mod Bounds
pub mod Pinned
pub mod Strict
use surfacelock.Prelude.{
  ◌+◌, ◌/◌, Bool, true, not, ◌||◌, none, some, List, [], ◌∷◌, ◌++◌, ltb, if◌then◌else◌, length,
  lookup, insert, remove,
}
use surfacelock.Prelude.Bytes.{Bytes, codes, eq_bytes}
use surfacelock.Prelude.Results.{ok, err}
use surfacelock.External.{External}
use surfacelock.Proxy.Frame.{Frame, FrameError, not_object, parse_frame}
use surfacelock.Proxy.Verifier.{
  Verifier, Verdict, cursor_tracking_full, inadmissible_verdict, revoke_calls,
}
use surfacelock.Proxy.Handshake.{classic, stateless, verify_handshake}
use surfacelock.Proxy.Page.{verify_tools_page}
use surfacelock.Proxy.State.{
  max_tracked_cursors, PendingReq, Core, Effect, to_client, refusal, set_proto,
  start_notification_stream, id_or_null, store, apply_verdict,
}

-- A frame from the upstream that parseFrame refuses.
unfoldable pub drop_frame : Core → FrameError → Core
drop_frame c not_object = c
drop_frame c _ = record c { inadmissible = true; verifier = revoke_calls c.verifier }

module _ ⦃ext : External⦄ where
  unfoldable pub surface_bearing : Bytes → Bool
  surface_bearing method =
      eq_bytes method (codes "initialize")
      || (eq_bytes method (codes "server/discover") || eq_bytes method (codes "tools/list"))

  -- The case "tools/list" of the switch over `p.method`.
  unfoldable pub judge_page : Core → PendingReq → Bytes → Core × Verdict
  judge_page c p result =
      let out = verify_tools_page c.verifier (c.enums p.enum) result in
      let c1 = record c { verifier = out.verifier; enums = store p.enum out.enum c.enums } in
      if out.verdict.refuse || eq_bytes out.next []
      then (c1, out.verdict)
      else if ltb (length c.cursors) max_tracked_cursors
      then (record c1 { cursors = insert out.next p.enum c.cursors }, out.verdict)
      else (c1, record out.verdict { findings = out.verdict.findings ++ cursor_tracking_full ∷ [] })

  abbrev with_verifier : Core → Verdict × Verifier → Core × Verdict
  with_verifier c (vd, v) = (record c { verifier = v }, vd)

  -- The switch over `p.method`.
  unfoldable pub judge : Core → PendingReq → Bytes → Core × Verdict
  judge c p result =
      if eq_bytes p.method (codes "initialize")
      then with_verifier c (verify_handshake c.verifier classic result [])
      else if eq_bytes p.method (codes "server/discover")
      then (if eq_bytes p.era []
          then (c, inadmissible_verdict)
          else with_verifier c (verify_handshake c.verifier stateless result p.era))
      else judge_page c p result

  -- A lone result of a surface-bearing request.
  unfoldable pub surface_response : Core → PendingReq → Frame → Bytes → Core × List Effect
  surface_response c p f result =
      let (c1, vd) = judge c p result in
      let era = c1.verifier.handshake_era in
      if vd.refuse
      then (apply_verdict c1 vd, refusal (id_or_null f.id_raw) vd.code ∷ [])
      else if eq_bytes p.method (codes "initialize")
      then (apply_verdict c1 vd, set_proto era ∷ start_notification_stream ∷ to_client f.raw ∷ [])
      else if eq_bytes p.method (codes "server/discover")
      then (apply_verdict c1 vd, start_notification_stream ∷ to_client f.raw ∷ [])
      else (apply_verdict c1 vd, to_client f.raw ∷ [])

  -- A response with neither a lone result nor a lone error.
  unfoldable pub unverifiable : Core → PendingReq → Frame → Core × List Effect
  unverifiable c p f =
      if surface_bearing p.method
      then (
        apply_verdict c inadmissible_verdict,
        refusal (id_or_null f.id_raw) inadmissible_verdict.code ∷ [],
      )
      else (c, to_client f.raw ∷ [])

  -- A response to a request in flight.
  unfoldable pub server_response : Core → PendingReq → Frame → Core × List Effect
  server_response c p f = elim (lookup (codes "result") f.obj) [
    | some result ↦ elim (lookup (codes "error") f.obj) [
      | none ↦
          if surface_bearing p.method
          then surface_response c p f result
          else (c, to_client f.raw ∷ [])
      | some e ↦ unverifiable c p f
    ]
    | none ↦ elim (lookup (codes "error") f.obj) [
      | some e ↦ (c, to_client f.raw ∷ [])
      | none ↦ unverifiable c p f
    ]
  ]

  -- A frame with a trustworthy envelope.
  unfoldable pub route_frame : Core → Frame → Core × List Effect
  route_frame c f =
      if not (eq_bytes f.method [])
      then (c, to_client f.raw ∷ [])
      else if eq_bytes f.id_key []
      then (c, [])
      else elim (lookup f.id_key c.pending) [
        | none ↦ (c, [])
        | some p ↦ server_response (record c { pending = remove f.id_key c.pending }) p f
      ]

  -- handleServerFrame, of a line that bytes.TrimSpace has trimmed.
  unfoldable pub handle_server_frame : Core → Bytes → Core × List Effect
  handle_server_frame c line =
      if eq_bytes line []
      then (c, [])
      else elim (parse_frame line) [ err e ↦ (drop_frame c e, []) | ok f ↦ route_frame c f ]
