-- ===== src/Proxy/Core/Correlate.antt =====
-- Which upstream frames reach the client.
use surfacelock.Prelude.{
  ◌≡◌, inl, inr, Bool, true, false, none, some, [], arith, Option-cases, any, lookup, remove,
  lookup-remove,
}
use surfacelock.Prelude.Bytes.{Bytes, codes, eq_bytes_iff, eq_bytes_refl}
use surfacelock.Prelude.Results.{ok}
use surfacelock.External.{External}
use surfacelock.Proxy.Frame.{Frame, parse_frame}
use surfacelock.Proxy.State.{Core, PendingReq, Effect, to_client, refusal, apply_verdict}
use surfacelock.Proxy.Core.{
  surface_response, server_response, unverifiable, handle_server_frame, route_frame, judge,
  judge_page,
}

abbrev pub is_to_client : Effect → Bool
is_to_client (to_client raw) = true
is_to_client _ = false

-- An answer to the client: the frame itself or an error frame in its place.
abbrev pub is_answer : Effect → Bool
is_answer (to_client raw) = true
is_answer (refusal id code) = true
is_answer _ = false

module _ ⦃ext : External⦄ where
  judge-pending :
      (c : Core) (p : PendingReq) (result : Bytes) → (judge c p result).0.pending ≡ c.pending
  unfolding judge judge_page
  judge-pending c p result = ground arith

  server_response-pending :
      (c : Core) (p : PendingReq) (f : Frame) → (server_response c p f).0.pending ≡ c.pending
  unfolding server_response unverifiable surface_response apply_verdict
  server_response-pending c p f = elim (Option-cases (lookup (codes "result") f.obj)) [
    | inl e ↦ ground arith
    | inr (result, e) ↦ ground (arith, judge-pending c p result)
  ]

  -- A response is answered to the client, as it is or by an error frame, only if its id is in
  -- flight, and afterwards that id is not in flight.
  pub response_correlates :
      (c : Core) (line : Bytes) (f : Frame)
      → parse_frame line ≡ ok f
      → f.method ≡ []
      → any is_answer (handle_server_frame c line).1 ≡ true
      → (p : PendingReq) × (lookup f.id_key c.pending ≡ some p)
        × (lookup f.id_key (handle_server_frame c line).0.pending ≡ none)
  unfolding handle_server_frame route_frame
  response_correlates c line f p m h = elim (Option-cases (lookup f.id_key c.pending)) [
    | inl e ↦ absurd (ground (arith, eq_bytes_iff f.method []))
    | inr (req, e) ↦
        let c1 = record c { pending = remove f.id_key c.pending } in
        (
          req,
          e,
          ground (
            arith,
            eq_bytes_iff f.method [],
            server_response-pending c1 req f,
            lookup-remove f.id_key f.id_key c.pending,
            eq_bytes_refl f.id_key,
          ),
        )
  ]

  -- A lone result of a surface-bearing request reaches the client only when its verdict does not
  -- refuse it.
  pub surface_response-judged :
      (c : Core) (p : PendingReq) (f : Frame) (result : Bytes)
      → any is_to_client (surface_response c p f result).1 ≡ true
      → (judge c p result).1.refuse ≡ false
  unfolding surface_response
  surface_response-judged c p f result h = ground arith
