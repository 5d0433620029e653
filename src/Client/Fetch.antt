-- ===== src/Client/Fetch.antt =====
-- client/fetch.go: `Fetch`, with the choice of the flow and the fallback.
pub mod Commit
pub mod Bounds
pub mod Fetched
use surfacelock.Prelude.{
  ◌-◌, Bool, true, false, not, ◌&&◌, ◌||◌, Option, none, some, List, [], ◌∷◌, ltb, if◌then◌else◌,
  length, Map, lookup,
}
use surfacelock.Prelude.Bytes.{Bytes, codes, eq_bytes, contains}
use surfacelock.Prelude.Results.{Result, ok, err, ◌>>=◌, ◌>>◌}
use surfacelock.External.{External}
use surfacelock.Decode.{decode_exact}
use surfacelock.Names.{check_era}
use surfacelock.Headers.{Headers, validate_headers}
use surfacelock.Go.Json.Unmarshal.{unmarshal_string, unmarshal_strings}
use surfacelock.Surface.Tool.{Limits}
use surfacelock.Surface.Admit.{RawSurface, flow_stateless, flow_classic}
use surfacelock.Client.Session.{
  Step, opened, closed, Peer, Session, discover_method, initialize_method, initialized_method,
  with_call, with_proto, with_stateless, with_notice,
}
use surfacelock.Client.Pages.{
  FetchError, bad_offer, bad_headers, headers_not_http, unknown_flow, unknown_transport, not_opened,
  not_confirmed, not_strings, no_era, not_notified, not_called, not_decoded, bad_era, pre_commit,
  both, fetch_pages,
}

-- ModernRevision
abbrev pub modern_revision : Bytes
modern_revision = codes "2026-07-28"

-- `errors.As` finds an errPreCommit; of the errors of one attempt, only that itself.
abbrev pub is_pre_commit : FetchError → Bool
is_pre_commit (pre_commit c) = true
is_pre_commit _ = false

-- Ref, without what only the transports read.
pub record Ref : Type 0 where
  pub transport : Bytes
  pub offered : Bytes
  pub flow : Bytes
  pub headers : Headers

-- What a step of the fetch returns, with the session after it.
abbrev pub Fetched : Type 0
Fetched = Result FetchError RawSurface × Session

-- `raw`, before its pages.
abbrev pub surface_of : Bytes → Bytes → Bytes → Map Bytes → RawSurface
surface_of offered era flow obj = record {
  offered = offered;
  era = era;
  flow = flow;
  instructions = lookup (codes "instructions") obj;
  server_info = lookup (codes "serverInfo") obj;
  pages = [];
}

-- The session that is sent server/discover.
abbrev pub asked_session : Session → Bytes → Session
asked_session s offered = with_call (with_stateless s offered) discover_method (some offered) [] []

-- The session that fetchOnce opens.
abbrev pub fresh_session : Ref → List Step → Session
fresh_session ref sent = record {
  http = eq_bytes ref.transport (codes "http");
  proto = [];
  stateless = false;
  sent = opened ∷ sent;
}

module _ ⦃ext : External⦄ where
  -- `supported`, from the result of server/discover.
  unfoldable pub supported_of : Map Bytes → Result FetchError (List Bytes)
  supported_of obj = elim (lookup (codes "supportedVersions") obj) [
    | none ↦ ok []
    | some raw ↦ elim (unmarshal_strings raw) [
      | none ↦ err not_strings
      | some versions ↦ ok versions
    ]
  ]

  -- The revision that the result of initialize names, checked.
  unfoldable pub negotiated_era : Map Bytes → Result FetchError Bytes
  negotiated_era obj = elim (lookup (codes "protocolVersion") obj) [
    | none ↦ err no_era
    | some raw ↦ elim (unmarshal_string raw) [
      | none ↦ err no_era
      | some era ↦
          if eq_bytes era []
          then err no_era
          else elim (check_era era) [ none ↦ ok era | some e ↦ err (bad_era e) ]
    ]
  ]

  module _ (peer : Peer) (lim : Limits) where
    -- The calls of fetchPages, and the surface from what the handshake said.
    unfoldable pub fetch_surface : Option Bytes → Session → RawSurface → Fetched
    fetch_surface meta s raw =
        let r = fetch_pages peer lim meta lim.max_pages s [] [] in
        (r.0 >>= (λ pages. ok (record raw { pages = pages })), r.1)

    -- What stands before the commit point: the result of a server/discover that confirms the offer.
    unfoldable pub discover : List Step → Bytes → Result FetchError (Map Bytes)
    discover sent offered = elim (peer.answer sent) [
      | err e ↦ err (not_called discover_method e)
      | ok raw ↦
          elim (decode_exact raw
            (codes "supportedVersions" ∷ codes "serverInfo" ∷ codes "instructions" ∷ [])) [
              | err e ↦ err (not_decoded discover_method e)
              | ok obj ↦ elim (supported_of obj) [
                | err e ↦ err e
                | ok versions ↦ if contains versions offered then ok obj else err not_confirmed
              ]
            ]
    ]

    -- fetchModern
    unfoldable pub fetch_modern : Session → Bytes → Fetched
    fetch_modern s offered =
        let t = asked_session s offered in
        elim (discover t.sent offered) [
          | err e ↦ (err (pre_commit e), t)
          | ok obj ↦ fetch_surface (some offered) t (surface_of offered offered flow_stateless obj)
        ]

    -- What initialize says, and the revision.
    unfoldable pub greet : List Step → Result FetchError (Map Bytes × Bytes)
    greet sent = elim (peer.answer sent) [
      | err e ↦ err (not_called initialize_method e)
      | ok raw ↦
          elim (decode_exact raw
            (codes "protocolVersion" ∷ codes "serverInfo" ∷ codes "instructions" ∷ [])) [
              | err e ↦ err (not_decoded initialize_method e)
              | ok obj ↦ negotiated_era obj >>= λ era. ok (obj, era)
            ]
    ]

    -- fetchClassic
    unfoldable pub fetch_classic : Session → Bytes → Fetched
    fetch_classic s offered =
        let t = with_call s initialize_method none offered [] in
        elim (greet t.sent) [
          | err e ↦ (err e, t)
          | ok (obj, era) ↦
              let v = with_notice (with_proto t era) initialized_method in
              if peer.delivers v.sent
              then fetch_surface none v (surface_of offered era flow_classic obj)
              else (err not_notified, v)
        ]

    -- fetchOnce: the result and what was sent; the session is closed at the end.
    unfoldable pub fetch_once :
        Ref → List Step → Bytes → Bool → Result FetchError RawSurface × List Step
    fetch_once ref sent offered stateless =
        let is_http = eq_bytes ref.transport (codes "http") in
        let s = fresh_session ref sent in
        let r = if stateless then fetch_modern s offered else fetch_classic s offered in
        if not (is_http || eq_bytes ref.transport (codes "stdio"))
        then (err unknown_transport, sent)
        else if not is_http && not (peer.opens sent)
        then (err not_opened, sent)
        else (r.0, closed ∷ r.1.sent)

    -- The offer-driven choice: the second attempt is on a session of its own.
    unfoldable pub fetch_either : Ref → List Step → Bytes → Result FetchError RawSurface × List Step
    fetch_either ref sent offered =
        let modern = fetch_once ref sent offered true in
        let classic = fetch_once ref modern.1 offered false in
        elim modern.0 [
          | ok raw ↦ modern
          | err e ↦
              if is_pre_commit e
              then (elim classic.0 [ ok raw ↦ ok raw | err c ↦ err (both e c) ], classic.1)
              else modern
        ]

    -- Fetch
    unfoldable pub fetch : Ref → List Step → Result FetchError RawSurface × List Step
    fetch ref sent =
        let offered = if eq_bytes ref.offered [] then modern_revision else ref.offered in
        elim (check_era offered) [
          | some e ↦ (err (bad_offer e), sent)
          | none ↦ elim (validate_headers ref.headers) [
            | some e ↦ (err (bad_headers e), sent)
            | none ↦
                if ltb 0 (length ref.headers) && not (eq_bytes ref.transport (codes "http"))
                then (err headers_not_http, sent)
                else if eq_bytes ref.flow flow_stateless
                then fetch_once ref sent offered true
                else if eq_bytes ref.flow flow_classic
                then fetch_once ref sent offered false
                else if not (eq_bytes ref.flow [])
                then (err unknown_flow, sent)
                else if not (eq_bytes offered modern_revision)
                then fetch_once ref sent offered false
                else fetch_either ref sent offered
          ]
        ]
