-- ===== src/Proxy/Core/Strict.antt =====
-- Sessions without --warn, and the tools that they call.
use surfacelock.Proxy.Core.Pinned.{
  IsPinned, IsStrict, contains-IsPinned, prepared-IsStrict, drop_frame-IsStrict, client-IsStrict,
  page-keeps, page-IsPinned,
}
use surfacelock.Prelude.{
  ◌≡◌, refl, sym, ◌∙◌, subst, inl, inr, true, false, some, List, [], arith, Option-cases, any, All,
  Map, lookup, remove,
}
use surfacelock.Prelude.Bytes.{Bytes, codes}
use surfacelock.Prelude.Results.{ok, Result-cases}
use surfacelock.External.{External}
use surfacelock.Lockfile.Entry.{ServerLock, ToolLock, tools_of}
use surfacelock.Diff.Surfaces.{old_by_name}
use surfacelock.Surface.Tool.{Limits}
use surfacelock.Surface.Admit.{admit}
use surfacelock.Proxy.Frame.{Frame, parse_frame}
use surfacelock.Proxy.Params.{call_tool_name}
use surfacelock.Proxy.Verifier.{Verifier, Verdict, inadmissible_verdict, new_verifier}
use surfacelock.Proxy.Handshake.{
  Flow, classic, stateless, verify_handshake, conclude, read_handshake, handshake_surface,
}
use surfacelock.Proxy.Enumeration.{Enumeration}
use surfacelock.Proxy.Page.{verify_tools_page}
use surfacelock.Proxy.State.{Core, PendingReq, Sent, apply_verdict, new_core}
use surfacelock.Proxy.Requests.{handle_client_frame}
use surfacelock.Proxy.Core.{
  surface_response, server_response, unverifiable, handle_server_frame, route_frame, judge,
  judge_page,
}
use surfacelock.Proxy.Core.Session.{
  Event, client, server, step, run, run_induction, apply_verdict-Prepares,
}
use surfacelock.Proxy.Core.Gate.{is_upstream, tools_call_gate}

module _ ⦃ext : External⦄ where
  -- A handshake leaves the callable tools and the lock alone.
  handshake-keeps :
      (v : Verifier) (flow : Flow) (result era : Bytes)
      → let w = (verify_handshake v flow result era).1 in
        (w.warn ≡ v.warn) × (w.lock_tools ≡ v.lock_tools) × (w.callable ≡ v.callable)
  unfolding verify_handshake conclude
  handshake-keeps v flow result era = elim (Option-cases (read_handshake flow result era)) [
    | inl e ↦ ground arith
    | inr (r, e) ↦ elim (Result-cases (admit (handshake_surface r) v.lim)) [
      | inr (x, a) ↦ ground arith
      | inl (s, a) ↦ ground arith
    ]
  ]

  page-IsStrict :
      (lock : Map ToolLock) (v : Verifier) (en : Enumeration) (result : Bytes)
      → IsStrict lock v
      → IsStrict lock (verify_tools_page v en result).verifier
  page-IsStrict lock v en result s =
      let (w, l) = page-keeps v en result in
      record {
        strict = w ∙ s.strict;
        locked = l ∙ s.locked;
        pinned =
            subst (λ m. All (IsPinned m) (verify_tools_page v en result).verifier.callable) s.locked
              (page-IsPinned v en result
                (subst (λ m. All (IsPinned m) v.callable) (sym s.locked) s.pinned));
      }

  handshake-IsStrict :
      (lock : Map ToolLock) (v : Verifier) (flow : Flow) (result era : Bytes)
      → IsStrict lock v
      → IsStrict lock (verify_handshake v flow result era).1
  handshake-IsStrict lock v flow result era s =
      let (w, l, c) = handshake-keeps v flow result era in
      record { strict = w ∙ s.strict; locked = l ∙ s.locked; pinned = rw c s.pinned }

  judge-IsStrict :
      (lock : Map ToolLock) (c : Core) (p : PendingReq) (result : Bytes)
      → IsStrict lock c.verifier
      → IsStrict lock (judge c p result).0.verifier
  unfolding judge judge_page
  judge-IsStrict lock c p result s = ground (
    arith,
    handshake-IsStrict lock c.verifier classic result [] s,
    handshake-IsStrict lock c.verifier stateless result p.era s,
    page-IsStrict lock c.verifier (c.enums p.enum) result s,
  )

  applied-IsStrict :
      (lock : Map ToolLock) (c : Core) (vd : Verdict)
      → IsStrict lock c.verifier
      → IsStrict lock (apply_verdict c vd).verifier
  applied-IsStrict lock c vd s =
      prepared-IsStrict lock c (apply_verdict c vd) (apply_verdict-Prepares c vd) s

  server_response-IsStrict :
      (lock : Map ToolLock) (c : Core) (p : PendingReq) (f : Frame)
      → IsStrict lock c.verifier
      → IsStrict lock (server_response c p f).0.verifier
  unfolding server_response unverifiable surface_response
  server_response-IsStrict lock c p f s = elim (Option-cases (lookup (codes "result") f.obj)) [
    | inl e ↦ ground (arith, applied-IsStrict lock c inadmissible_verdict s)
    | inr (result, e) ↦ ground (
      arith,
      applied-IsStrict lock c inadmissible_verdict s,
      applied-IsStrict lock (judge c p result).0 (judge c p result).1
          (judge-IsStrict lock c p result s),
    )
  ]

  route_frame-IsStrict :
      (lock : Map ToolLock) (c : Core) (f : Frame)
      → IsStrict lock c.verifier
      → IsStrict lock (route_frame c f).0.verifier
  unfolding route_frame
  route_frame-IsStrict lock c f s = elim (Option-cases (lookup f.id_key c.pending)) [
    | inl e ↦ ground arith
    | inr (p, e) ↦ ground (
      arith,
      server_response-IsStrict lock (record c { pending = remove f.id_key c.pending }) p f s,
    )
  ]

  step-IsStrict :
      (lock : Map ToolLock) (c : Core) (e : Event)
      → IsStrict lock c.verifier
      → IsStrict lock (step c e).0.verifier
  unfolding step handle_server_frame
  step-IsStrict lock c (client sent line) s = client-IsStrict lock c sent line s
  step-IsStrict lock c (server line) s = elim (Result-cases (parse_frame line)) [
    | inr (e, p) ↦ ground (arith, drop_frame-IsStrict lock c e s)
    | inl (f, p) ↦ ground (arith, route_frame-IsStrict lock c f s)
  ]

  -- In a session without --warn, whatever both sides send, a tools/call is sent upstream only for
  -- a name that the lockfile entry pins.
  pub strict_session_calls-IsPinned :
      (entry : ServerLock) (name : Bytes) (lim : Limits) (es : List Event) (sent : Sent)
      (line : Bytes) (f : Frame)
      → parse_frame line ≡ ok f
      → f.method ≡ codes "tools/call"
      → any is_upstream (handle_client_frame (run (new_core entry name false lim) es) sent line).1
        ≡ true
      → (tool : Bytes) × (call_tool_name (lookup (codes "params") f.obj) ≡ some tool)
        × IsPinned (old_by_name [] (tools_of entry)) tool
  unfolding new_core new_verifier
  strict_session_calls-IsPinned entry name lim es sent line f p m h =
      let lock = old_by_name [] (tools_of entry) in
      let c = run (new_core entry name false lim) es in
      let s =
        run_induction (λ d. IsStrict lock d.verifier) (step-IsStrict lock)
          (new_core entry name false lim) es
          (record { strict = refl; locked = refl; pinned = tt }) in
      let g = (tools_call_gate c sent line f p m).0 h in
      (g.name, g.named, contains-IsPinned lock c.verifier.callable g.name s.pinned g.listed)
