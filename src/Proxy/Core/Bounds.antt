-- ===== src/Proxy/Core/Bounds.antt =====
-- The caps on what a session holds: requests in flight and tracked cursors.
use surfacelock.Prelude.{
  ◌≤◌, inl, inr, Bool, List, arith, Option-cases, length, lookup, remove, length-insert,
  length-remove,
}
use surfacelock.Prelude.Bytes.{Bytes, codes}
use surfacelock.Prelude.Results.{Result-cases}
use surfacelock.External.{External}
use surfacelock.Lockfile.Entry.{ServerLock}
use surfacelock.Surface.Tool.{Limits}
use surfacelock.Proxy.Frame.{Frame, FrameError, not_object, parse_frame}
use surfacelock.Proxy.Page.{verify_tools_page}
use surfacelock.Proxy.State.{
  Core, PendingReq, Sent, max_pending, max_tracked_cursors, apply_verdict, new_core,
}
use surfacelock.Proxy.Requests.{
  forward_upstream, admit_request, client_request, handle_client_frame,
}
use surfacelock.Proxy.Core.{
  surface_response, server_response, unverifiable, handle_server_frame, route_frame, drop_frame,
  judge, judge_page,
}
use surfacelock.Proxy.Core.Session.{
  Event, client, server, step, run, run_induction, admit_request-Prepares,
}

pub record IsBounded (c : Core) : Type 0 where
  pub in_flight : length c.pending ≤ max_pending
  pub tracked : length c.cursors ≤ max_tracked_cursors

drop_frame-IsBounded : (c : Core) (e : FrameError) → IsBounded c → IsBounded (drop_frame c e)
unfolding drop_frame
drop_frame-IsBounded c not_object b = b
drop_frame-IsBounded c _ b = ground arith

module _ ⦃ext : External⦄ where
  client_request-IsBounded :
      (c : Core) (sent : Sent) (f : Frame) → IsBounded c → IsBounded (client_request c sent f).0
  unfolding client_request forward_upstream
  client_request-IsBounded c sent f b =
      let same = admit_request-Prepares c f in
      elim (Result-cases (admit_request c f).1) [
        | inl (req, a) ↦
            rw (a, client_request)
              (ground (arith, same, length-insert f.id_key req (admit_request c f).0.pending))
        | inr (code, a) ↦ rw (a, client_request) (ground (arith, same))
      ]

  client-IsBounded :
      (c : Core) (sent : Sent) (line : Bytes)
      → IsBounded c
      → IsBounded (handle_client_frame c sent line).0
  unfolding handle_client_frame forward_upstream
  client-IsBounded c sent line b = elim (Result-cases (parse_frame line)) [
    | inr (e, p) ↦ rw (p, handle_client_frame) b
    | inl (f, p) ↦ rw (p, handle_client_frame) (ground (arith, client_request-IsBounded c sent f b))
  ]

  judge-IsBounded :
      (c : Core) (p : PendingReq) (result : Bytes) → IsBounded c → IsBounded (judge c p result).0
  unfolding judge judge_page
  judge-IsBounded c p result b = ground (
    arith,
    length-insert (verify_tools_page c.verifier (c.enums p.enum) result).next p.enum c.cursors,
  )

  server_response-IsBounded :
      (c : Core) (p : PendingReq) (f : Frame) → IsBounded c → IsBounded (server_response c p f).0
  unfolding server_response unverifiable surface_response apply_verdict
  server_response-IsBounded c p f b = elim (Option-cases (lookup (codes "result") f.obj)) [
    | inl e ↦ ground arith
    | inr (result, e) ↦ ground (arith, judge-IsBounded c p result b)
  ]

  route_frame-IsBounded : (c : Core) (f : Frame) → IsBounded c → IsBounded (route_frame c f).0
  unfolding route_frame
  route_frame-IsBounded c f b = elim (Option-cases (lookup f.id_key c.pending)) [
    | inl e ↦ ground arith
    | inr (p, e) ↦ ground (
      arith,
      length-remove f.id_key c.pending,
      server_response-IsBounded (record c { pending = remove f.id_key c.pending }) p f,
    )
  ]

  step-IsBounded : (c : Core) (e : Event) → IsBounded c → IsBounded (step c e).0
  unfolding step handle_server_frame
  step-IsBounded c (client sent line) b = client-IsBounded c sent line b
  step-IsBounded c (server line) b = elim (Result-cases (parse_frame line)) [
    | inr (e, p) ↦ ground (arith, drop_frame-IsBounded c e b)
    | inl (f, p) ↦ ground (arith, route_frame-IsBounded c f b)
  ]

  -- In every session, at most 256 requests are in flight and at most 1024 cursors are tracked.
  pub session-IsBounded :
      (entry : ServerLock) (name : Bytes) (warn : Bool) (lim : Limits) (es : List Event)
      → IsBounded (run (new_core entry name warn lim) es)
  unfolding new_core
  session-IsBounded entry name warn lim es =
      run_induction IsBounded step-IsBounded (new_core entry name warn lim) es (omega arith)
