-- ===== src/Proxy/Core/Session.antt =====
-- A session as a sequence of events, and what the request side leaves alone.
use surfacelock.Prelude.{
  ◌≤◌, ◌≡◌, ◌⊎◌, inl, inr, Bool, true, false, not, List, [], ◌∷◌, arith, Option-cases, length,
  lookup, length-remove,
}
use surfacelock.Prelude.Bytes.{Bytes, codes, eq_bytes}
use surfacelock.Prelude.Results.{Result-cases}
use surfacelock.External.{External}
use surfacelock.Surface.Admit.{flow_classic}
use surfacelock.Names.{check_era}
use surfacelock.Proxy.Frame.{Frame}
use surfacelock.Proxy.Params.{list_params}
use surfacelock.Proxy.Verifier.{Verdict, resolve_drift, revoke_calls}
use surfacelock.Proxy.Enumeration.{new_enumeration}
use surfacelock.Proxy.State.{Core, Effect, Sent, apply_verdict}
use surfacelock.Proxy.Requests.{
  start_enumeration, open_enumeration, test_request, test_stateless, prepare_tools_list, admit_call,
  admit_request, handle_client_frame,
}
use surfacelock.Proxy.Core.{handle_server_frame}

-- A line from the client, with how the send of its frame would end, or a line from the upstream.
pub data Event : Type 0 where
  client : Sent → Bytes → Event
  server : Bytes → Event

module _ ⦃ext : External⦄ where
  unfoldable pub step : Core → Event → Core × List Effect
  step c (client sent line) = handle_client_frame c sent line
  step c (server line) = handle_server_frame c line

  -- The handlers run one at a time: both hold the core's mutex while they use its state.
  unfoldable pub run : Core → List Event → Core
  run c [] = c
  run c (e ∷ es) = run (step c e).0 es

  pub run_induction :
      (P : Core → Type 0)
      → ((c : Core) (e : Event) → P c → P (step c e).0)
      → (c : Core) (es : List Event) → P c
      → P (run c es)
  unfolding run
  run_induction P keeps c [] h = h
  run_induction P keeps c (e ∷ es) h = run_induction P keeps (step c e).0 es (keeps c e h)

-- What a request may change before it is forwarded or refused.
pub record Prepares (c d : Core) : Type 0 where
  pub lock_tools : d.verifier.lock_tools ≡ c.verifier.lock_tools
  pub warn : d.verifier.warn ≡ c.verifier.warn
  pub callable : (d.verifier.callable ≡ c.verifier.callable) ⊎ (d.verifier.callable ≡ [])
  pub pending : d.pending ≡ c.pending
  pub cursors : length d.cursors ≤ length c.cursors

pub apply_verdict-Prepares : (c : Core) (vd : Verdict) → Prepares c (apply_verdict c vd)
unfolding apply_verdict revoke_calls
apply_verdict-Prepares c vd = ground arith

test_request-Prepares : (c : Core) (b : Bool) → Prepares c (test_request c b).0
unfolding test_request
test_request-Prepares c b =
    ground (arith, apply_verdict-Prepares c (resolve_drift c.verifier [] false))

pub Prepares-trans : {a b c : Core} → Prepares a b → Prepares b c → Prepares a c
Prepares-trans p q = ground arith

test_stateless-Prepares : (c : Core) (era : Bytes) → Prepares c (test_stateless c era).0
unfolding test_stateless
test_stateless-Prepares c era =
    let first = eq_bytes c.verifier.entry.protocol.flow flow_classic in
    let c1 = (test_request c first).0 in
    let second = not (eq_bytes era c.verifier.entry.protocol.era) in
    let once = test_request-Prepares c first in
    let twice = Prepares-trans once (test_request-Prepares c1 second) in
    elim (Option-cases (check_era era)) [
      | inr (n, e) ↦ rw (e, test_stateless) (ground arith)
      | inl e ↦ rw (e, test_stateless) (ground (arith, once, twice))
    ]

start_enumeration-Prepares :
    (c : Core) (era : Bytes) (o : Bool) → Prepares c (start_enumeration c era o).0
unfolding start_enumeration new_enumeration
start_enumeration-Prepares c era o = ground arith

open_enumeration-Prepares :
    (c : Core) (cursor era : Bytes) → Prepares c (open_enumeration c cursor era).0
unfolding open_enumeration
open_enumeration-Prepares c cursor era = ground (
  arith,
  start_enumeration-Prepares c era false,
  start_enumeration-Prepares c era true,
  length-remove cursor c.cursors,
)

module _ ⦃ext : External⦄ where
  prepare_tools_list-Prepares : (c : Core) (f : Frame) → Prepares c (prepare_tools_list c f).0
  unfolding prepare_tools_list
  prepare_tools_list-Prepares c f =
      elim (Option-cases (list_params (lookup (codes "params") f.obj))) [
        | inl e ↦ rw (e, prepare_tools_list) (ground arith)
        | inr (p, e) ↦
            let c1 = (test_stateless c p.meta.era).0 in
            let tested = test_stateless-Prepares c p.meta.era in
            rw (e, prepare_tools_list)
              (ground (
                arith,
                tested,
                Prepares-trans tested (open_enumeration-Prepares c1 p.cursor p.meta.era),
                open_enumeration-Prepares c p.cursor c.verifier.handshake_era,
              ))
      ]

  pub admit_request-Prepares : (c : Core) (f : Frame) → Prepares c (admit_request c f).0
  unfolding admit_request admit_call
  admit_request-Prepares c f =
      let prepared = prepare_tools_list-Prepares c f in
      elim (Result-cases (prepare_tools_list c f).1) [
        | inl (req, e) ↦ rw (e, admit_request) (ground (arith, prepared))
        | inr (vd, e) ↦
            rw (e, admit_request)
              (ground (
                arith,
                Prepares-trans prepared (apply_verdict-Prepares (prepare_tools_list c f).0 vd),
              ))
      ]
