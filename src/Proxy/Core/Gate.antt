-- ===== src/Proxy/Core/Gate.antt =====
-- The gate on tools/call.
use surfacelock.Prelude.{
  ◌<◌, ◌≡◌, refl, ◌↔◌, inl, inr, Bool, true, false, none, some, arith, Bool-cases, Option-cases,
  length, any, lookup,
}
use surfacelock.Prelude.Bytes.{Bytes, codes, eq_bytes, contains}
use surfacelock.Prelude.Results.{ok, Result-cases}
use surfacelock.External.{External}
use surfacelock.Proxy.Frame.{Frame, parse_frame, is_request}
use surfacelock.Proxy.Params.{call_tool_name}
use surfacelock.Proxy.State.{Core, PendingReq, Effect, Sent, to_upstream, max_pending}
use surfacelock.Proxy.Requests.{
  forward_upstream, admit_call, admit_request, client_request, handle_client_frame,
}

abbrev pub is_upstream : Effect → Bool
is_upstream (to_upstream raw) = true
is_upstream _ = false

-- The conditions under which a tools/call is sent upstream.
pub record IsCallable ⦃ext : External⦄ (c : Core) (f : Frame) : Type 0 where
  pub request : is_request f ≡ true
  pub room : length c.pending < max_pending
  pub fresh : lookup f.id_key c.pending ≡ none
  pub name : Bytes
  pub named : call_tool_name (lookup (codes "params") f.obj) ≡ some name
  pub listed : contains c.verifier.callable name ≡ true

module _ ⦃ext : External⦄ where
  sends-forward :
      (c : Core) (sent : Sent) (raw : Bytes)
      → any is_upstream (forward_upstream c sent raw).1 ≡ true
  unfolding forward_upstream
  sends-forward c sent raw = refl

  admit_request-call :
      (c : Core) (f : Frame) → f.method ≡ codes "tools/call" → admit_request c f ≡ admit_call c f
  unfolding admit_request eq_bytes
  admit_request-call c f m = rw (m, admit_request)

  admit_call_inv :
      (c : Core) (f : Frame) (req : PendingReq)
      → (admit_call c f).1 ≡ ok req
      → (name : Bytes) × (call_tool_name (lookup (codes "params") f.obj) ≡ some name)
        × (contains c.verifier.callable name ≡ true)
  unfolding admit_call
  admit_call_inv c f req h = elim (Option-cases (call_tool_name (lookup (codes "params") f.obj))) [
    | inl e ↦ absurd (ground arith)
    | inr (name, e) ↦ (name, e, ground arith)
  ]

  client_request-IsCallable :
      (c : Core) (sent : Sent) (f : Frame)
      → f.method ≡ codes "tools/call"
      → is_request f ≡ true
      → any is_upstream (client_request c sent f).1 ≡ true
      → IsCallable c f
  unfolding client_request
  client_request-IsCallable c sent f m r h = elim (Result-cases (admit_request c f).1) [
    | inl (req, a) ↦
        let (name, n, l) = admit_call_inv c f req (rw (admit_request-call c f m) at a) in
        record {
          request = r;
          room = ground arith;
          fresh = ground arith;
          name = name;
          named = n;
          listed = l;
        }
    | inr (code, a) ↦ absurd (ground arith)
  ]

  IsCallable-client_request :
      (c : Core) (sent : Sent) (f : Frame)
      → f.method ≡ codes "tools/call"
      → IsCallable c f
      → any is_upstream (client_request c sent f).1 ≡ true
  unfolding client_request admit_call forward_upstream
  IsCallable-client_request c sent f m h =
      rw (client_request, admit_request-call c f m, admit_call, h.named, h.listed, h.fresh)
        (ground (arith, h.room))

  -- A tools/call is sent upstream exactly when it is a request with an id that is not in flight,
  -- fewer than 256 requests are in flight, and its name can be read and stands on the session's
  -- verified tool list.
  pub tools_call_gate :
      (c : Core) (sent : Sent) (line : Bytes) (f : Frame)
      → parse_frame line ≡ ok f
      → f.method ≡ codes "tools/call"
      → (any is_upstream (handle_client_frame c sent line).1 ≡ true) ↔ IsCallable c f
  unfolding handle_client_frame eq_bytes
  tools_call_gate c sent line f p m = elim (Bool-cases (is_request f)) [
    | inl r ↦
        rw (p, handle_client_frame, r)
          (client_request-IsCallable c sent f m r, IsCallable-client_request c sent f m)
    | inr r ↦
        rw (p, handle_client_frame, r, m)
          ((λ h. absurd (ground arith)), (λ h. absurd (ground (arith, h.request))))
  ]
