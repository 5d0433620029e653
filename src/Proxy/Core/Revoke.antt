-- ===== src/Proxy/Core/Revoke.antt =====
-- When the verified tool list is emptied.
use surfacelock.Prelude.{
  ℕ, ◌≡◌, refl, ap, ◌∙◌, ◌⊎◌, none, ◌∷◌, ◌≢◌, inl, inr, Bool, true, false, not, ◌||◌, some, [],
  arith, ◌==◌, Option-cases, any, lookup, remove,
}
use surfacelock.Prelude.Bytes.{Bytes, codes, eq_bytes, eq_bytes_iff}
use surfacelock.Prelude.Results.{err, Result-cases}
use surfacelock.External.{External}
use surfacelock.Names.{check_era}
use surfacelock.Surface.Admit.{flow_classic}
use surfacelock.Go.Json.Value.{Fields, Value}
use surfacelock.Go.Json.Scan.{scan}
use surfacelock.Surface.Tool.{trim_left}
use surfacelock.Proxy.Frame.{Frame, FrameError, not_object, opens_object, parse_frame}
use surfacelock.Proxy.Frame.Refused.{parse_frame-error}
use surfacelock.Proxy.Frame.Trusted.{IsTrusted, parse_frame-IsTrusted}
use surfacelock.Proxy.Params.{list_params}
use surfacelock.Proxy.Verifier.{
  Verdict, inadmissible_verdict, revoke_calls, code_drift_refused, code_inadmissible_refused,
}
use surfacelock.Proxy.State.{Core, PendingReq, Effect, Sent, refusal, apply_verdict}
use surfacelock.Proxy.Requests.{
  forward_upstream, test_request, test_stateless, prepare_tools_list, admit_call, admit_request,
  client_request, handle_client_frame,
}
use surfacelock.Proxy.Core.{
  surface_response, server_response, unverifiable, handle_server_frame, judge, drop_frame,
  route_frame,
}
use surfacelock.Proxy.Core.Session.{Event, client, server, step}

-- An error frame with the code of a refused surface verdict.
abbrev pub is_surface_refusal : Effect → Bool
is_surface_refusal (refusal id code) =
    code == code_drift_refused || code == code_inadmissible_refused
is_surface_refusal _ = false

apply_verdict-revokes :
    (c : Core) (vd : Verdict) → vd.refuse ≡ true → (apply_verdict c vd).verifier.callable ≡ []
unfolding apply_verdict revoke_calls
apply_verdict-revokes c vd h = ground arith

test_request-refuses :
    (c : Core) (b : Bool) (vd : Verdict) → (test_request c b).1 ≡ some vd → vd.refuse ≡ true
unfolding test_request
test_request-refuses c b vd h = ground arith

test_stateless-refuses :
    (c : Core) (era : Bytes) (vd : Verdict) → (test_stateless c era).1 ≡ some vd → vd.refuse ≡ true
unfolding test_stateless inadmissible_verdict
test_stateless-refuses c era vd h =
    let first = eq_bytes c.verifier.entry.protocol.flow flow_classic in
    let second = not (eq_bytes era c.verifier.entry.protocol.era) in
    elim (Option-cases (check_era era)) [
      | inr (n, e) ↦ ground arith
      | inl e ↦ ground (
        arith,
        test_request-refuses c first vd,
        test_request-refuses (test_request c first).0 second vd,
      )
    ]

module _ ⦃ext : External⦄ where
  prepare_tools_list-refuses :
      (c : Core) (f : Frame) (vd : Verdict) → (prepare_tools_list c f).1 ≡ err vd → vd.refuse ≡ true
  unfolding prepare_tools_list inadmissible_verdict
  prepare_tools_list-refuses c f vd h =
      elim (Option-cases (list_params (lookup (codes "params") f.obj))) [
        | inl e ↦ ground arith
        | inr (p, e) ↦ ground (arith, test_stateless-refuses c p.meta.era vd)
      ]

  admit_request-revokes :
      (c : Core) (f : Frame) (code : ℕ) (id : Bytes)
      → (admit_request c f).1 ≡ err code
      → is_surface_refusal (refusal id code) ≡ true
      → (admit_request c f).0.verifier.callable ≡ []
  unfolding admit_request admit_call
  admit_request-revokes c f code id h s = elim (Result-cases (prepare_tools_list c f).1) [
    | inl (req, e) ↦ absurd (ground arith)
    | inr (vd, e) ↦ ground (
      arith,
      apply_verdict-revokes (prepare_tools_list c f).0 vd (prepare_tools_list-refuses c f vd e),
    )
  ]

  client-revokes :
      (c : Core) (sent : Sent) (line : Bytes)
      → any is_surface_refusal (handle_client_frame c sent line).1 ≡ true
      → (handle_client_frame c sent line).0.verifier.callable ≡ []
  unfolding handle_client_frame client_request forward_upstream
  client-revokes c sent line h = elim (Result-cases (parse_frame line)) [
    | inr (e, p) ↦ absurd (ground arith)
    | inl (f, p) ↦ elim (Result-cases (admit_request c f).1) [
      | inl (req, a) ↦ absurd (ground arith)
      | inr (code, a) ↦
          rw (p, handle_client_frame) (ground (arith, admit_request-revokes c f code (codes "") a))
    ]
  ]

  surface_response-revokes :
      (c : Core) (p : PendingReq) (f : Frame) (result : Bytes)
      → any is_surface_refusal (surface_response c p f result).1 ≡ true
      → (surface_response c p f result).0.verifier.callable ≡ []
  unfolding surface_response
  surface_response-revokes c p f result h =
      ground (arith, apply_verdict-revokes (judge c p result).0 (judge c p result).1)

  server_response-revokes :
      (c : Core) (p : PendingReq) (f : Frame)
      → any is_surface_refusal (server_response c p f).1 ≡ true
      → (server_response c p f).0.verifier.callable ≡ []
  unfolding server_response unverifiable inadmissible_verdict
  server_response-revokes c p f h = elim (Option-cases (lookup (codes "result") f.obj)) [
    | inl none_ ↦ ground (arith, apply_verdict-revokes c inadmissible_verdict refl)
    | inr (result, r) ↦ ground (
      arith,
      apply_verdict-revokes c inadmissible_verdict refl,
      surface_response-revokes c p f result,
    )
  ]

  route_frame-revokes :
      (c : Core) (f : Frame)
      → any is_surface_refusal (route_frame c f).1 ≡ true
      → (route_frame c f).0.verifier.callable ≡ []
  unfolding route_frame
  route_frame-revokes c f h = elim (Option-cases (lookup f.id_key c.pending)) [
    | inl e ↦ absurd (ground arith)
    | inr (p, e) ↦
        ground
          (arith, server_response-revokes (record c { pending = remove f.id_key c.pending }) p f)
  ]

  server-revokes :
      (c : Core) (line : Bytes)
      → any is_surface_refusal (handle_server_frame c line).1 ≡ true
      → (handle_server_frame c line).0.verifier.callable ≡ []
  unfolding handle_server_frame
  server-revokes c line h = elim (Result-cases (parse_frame line)) [
    | inr (e, p) ↦ absurd (ground arith)
    | inl (f, p) ↦ ground (arith, route_frame-revokes c f)
  ]

  -- Whenever a line from either side makes the proxy answer with the code of a refused surface,
  -- drift or inadmissible, no tool is callable afterwards.
  pub refusal_revokes :
      (c : Core) (e : Event)
      → any is_surface_refusal (step c e).1 ≡ true
      → (step c e).0.verifier.callable ≡ []
  unfolding step
  refusal_revokes c (client sent line) h = client-revokes c sent line h
  refusal_revokes c (server line) h = server-revokes c line h

  bad_envelope-revokes :
      (c : Core) (line : Bytes) (e : FrameError)
      → line ≢ []
      → parse_frame line ≡ err e
      → e ≢ not_object
      → ((handle_server_frame c line).1 ≡ [])
        × ((handle_server_frame c line).0.inadmissible ≡ true)
        × ((handle_server_frame c line).0.verifier.callable ≡ [])
  unfolding handle_server_frame drop_frame revoke_calls
  bad_envelope-revokes c line e l p n = ground (arith, eq_bytes_iff line [])

  opens_object-nonempty : (line : Bytes) → opens_object line ≡ true → line ≢ []
  unfolding opens_object trim_left
  opens_object-nonempty [] h e = ground (arith, h)
  opens_object-nonempty (a ∷ line) h e = cc

  -- An upstream line that opens an object, and is one or breaks off, either is a JSON object that
  -- names no member twice and spells every routing name exactly, whose id, if it has one, is null, a
  -- number or a string, and whose method, if it has one, is a string, not empty, beside no result
  -- and no error; or nothing is forwarded, the session is marked inadmissible and no tool is callable
  -- afterwards.
  pub untrusted_line_revokes :
      (c : Core) (line : Bytes)
      → opens_object line ≡ true
      → ((scan line ≡ none) ⊎ ((fs : Fields) × (scan line ≡ some (Value.obj fs))))
      → IsTrusted line
        ⊎ (((handle_server_frame c line).1 ≡ [])
            × ((handle_server_frame c line).0.inadmissible ≡ true)
            × ((handle_server_frame c line).0.verifier.callable ≡ []))
  untrusted_line_revokes c line opens shape = elim (Result-cases (parse_frame line)) [
    | inl (f, p) ↦ inl (parse_frame-IsTrusted line f p)
    | inr (e, p) ↦
        let other = λ (is : e ≡ not_object). parse_frame-error line opens shape (p ∙ ap err is) in
        inr (bad_envelope-revokes c line e (opens_object-nonempty line opens) p other)
  ]
