-- ===== src/Conformance/Probe/Steps.antt =====
-- Invariants of a probe run, by induction on its steps.
use surfacelock.Prelude.{ℕ, ◌+◌, ◌≡◌, refl, Bool, true, false, List, [], ◌∷◌, if◌then◌else◌, Map}
use surfacelock.Prelude.Bytes.{Bytes, codes, eq_bytes, contains}
use surfacelock.External.{External}
use surfacelock.Conformance.Exchange.{stateless_era}
use surfacelock.Conformance.View.{result_string}
use surfacelock.Conformance.Tools.{page_probes}
use surfacelock.Conformance.Probe.{
  AskParams, Ask, dialed, sent, sent_batch, sent_get, Wire, Probing, plain_params, list_tools,
  answered, roundtrip, on_fresh,
}
use surfacelock.Conformance.Probe.Plan.{
  Opening, Paging, classic_session, page_walk, cursor_and_batch, version_probe, session_probe,
  newer_probe, cold_probe, discover_probe, fresh_probes, get_probe, probe_classic, mismatch_probe,
  stateless_opening, probe_stateless, probe_run,
}

-- The methods of the requests that only read.
abbrev read_methods : List Bytes
read_methods =
    codes "initialize"
    ∷ codes "notifications/initialized"
    ∷ codes "server/discover"
    ∷ codes "tools/list"
    ∷ []

unfoldable pub is_read_only : Ask → Bool
is_read_only dialed = true
is_read_only (sent name method params headers id) = contains read_methods method
is_read_only (sent_batch name method params headers id) = contains read_methods method
is_read_only (sent_get name headers) = true

pub if-holds {ℓ κ} :
    {A : Type ℓ} (Q : A → Type κ) (b : Bool) (x y : A) → Q x → Q y → Q (if b then x else y)
if-holds Q true x y hx hy = hx
if-holds Q false x y hx hy = hy

module _ ⦃ext : External⦄ where
  -- A predicate that dialing and a request of a method that only reads keep.
  module _ (wire : Wire) (Holds : Probing → Type 0)
      (dialing : (s : Probing) → Holds s → Holds (record s { asks = dialed ∷ s.asks }))
      (asking : (s : Probing) (ask : Ask) (name : Bytes)
        → is_read_only ask ≡ true
        → Holds s
        → Holds (roundtrip wire s ask name)) where
    classic_session-Holds :
        (s : Probing) (offered name : Bytes)
        → Holds s
        → Holds (classic_session wire s offered name).after
    unfolding classic_session contains eq_bytes is_read_only
    classic_session-Holds s offered name h =
        let first = asking s _ name refl h in if-holds (Holds) _ _ _ first (asking _ _ _ refl first)

    page_walk-Holds :
        (params : AskParams) (headers : Map Bytes) (s : Probing) (cursor : Bytes) (id : ℕ)
        (names : List Bytes)
        → Holds s
        → Holds (page_walk wire params headers s cursor id names).after
    unfolding page_walk contains eq_bytes is_read_only
    page_walk-Holds params headers s cursor id [] h = h
    page_walk-Holds params headers s cursor id (name ∷ names) h =
        let ask = sent name list_tools (record params { cursor = cursor }) headers id in
        let first = asking s ask name refl h in
        let next = result_string (answered wire s ask name).message (codes "nextCursor") in
        if-holds (λ (p : Paging). Holds p.after) _ _ _ first
          (page_walk-Holds params headers (roundtrip wire s ask name) next (id + 1) names first)

    cursor_and_batch-Holds :
        (params : AskParams) (headers : Map Bytes) (s : Probing) (id : ℕ)
        → Holds s
        → Holds (cursor_and_batch wire params headers s id)
    unfolding cursor_and_batch contains eq_bytes is_read_only
    cursor_and_batch-Holds params headers s id h = asking _ _ _ refl (asking s _ _ refl h)

    version_probe-Holds :
        (era : Bytes) (base : Map Bytes) (p : Paging)
        → Holds p.after
        → Holds (version_probe wire era base p).after
    unfolding version_probe contains eq_bytes is_read_only
    version_probe-Holds era base p h =
        if-holds (λ (q : Paging). Holds q.after) _ _ _ (asking p.after _ _ refl h) h

    session_probe-Holds :
        (era : Bytes) (o : Opening) (s : Probing) (id : ℕ)
        → Holds s
        → Holds (session_probe wire era o s id)
    unfolding session_probe contains eq_bytes is_read_only
    session_probe-Holds era o s id h = if-holds (Holds) _ _ _ (asking s _ _ refl h) h

    on_fresh-Holds :
        (s : Probing) (run : Probing → Probing)
        → ((t : Probing) → Holds t → Holds (run t))
        → Holds s
        → Holds (on_fresh wire s run)
    unfolding on_fresh contains eq_bytes is_read_only
    on_fresh-Holds s run step h =
        if-holds (Holds) _ _ _ (step (record s { asks = dialed ∷ s.asks }) (dialing s h))
          (dialing s h)

    fresh_probes-Holds : (s : Probing) → Holds s → Holds (fresh_probes wire s)
    unfolding fresh_probes newer_probe cold_probe discover_probe contains eq_bytes is_read_only
    fresh_probes-Holds s h =
        on_fresh-Holds _ (discover_probe wire) (λ t. asking t _ (codes "D1.discover") refl)
          (on_fresh-Holds _ (cold_probe wire) (λ t. asking t _ (codes "H3.cold") refl)
            (on_fresh-Holds s (newer_probe wire)
              (λ t. classic_session-Holds t stateless_era (codes "H2.newer")) h))

    probe_classic-Holds : (era : Bytes) (s : Probing) → Holds s → Holds (probe_classic wire era s)
    unfolding probe_classic get_probe contains eq_bytes is_read_only
    probe_classic-Holds era s h = asking _ _ _ refl (
        fresh_probes-Holds _ (
          session_probe-Holds era _ _ _ (
            cursor_and_batch-Holds plain_params _ _ _ (
              version_probe-Holds era _ _ (
                page_walk-Holds plain_params _ _ [] 10 page_probes
                  (classic_session-Holds s era (codes "H1.init") h))))))

    probe_stateless-Holds : (s : Probing) → Holds s → Holds (probe_stateless wire s)
    unfolding probe_stateless get_probe mismatch_probe stateless_opening contains eq_bytes
        is_read_only
    probe_stateless-Holds s h =
        let opening = asking _ _ _ refl (asking _ _ _ refl (asking s _ _ refl h)) in
        let batch = cursor_and_batch-Holds _ _ _ _ (page_walk-Holds _ _ _ [] 10 _ opening) in
        asking _ _ _ refl (if-holds (Holds) _ _ _ batch (asking _ _ _ refl batch))

    pub probe_run-Holds :
        (era : Bytes)
        → Holds (record { asks = dialed ∷ []; exchanges = [] })
        → Holds (probe_run wire era)
    unfolding probe_run
    probe_run-Holds era h =
        if-holds Holds _ _ _ (probe_stateless-Holds _ h) (probe_classic-Holds era _ h)
