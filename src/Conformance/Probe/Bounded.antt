-- ===== src/Conformance/Probe/Bounded.antt =====
-- How many exchanges a run records.
use surfacelock.Prelude.{
  ℕ, suc, ◌+◌, ◌≤◌, ◌≡◌, subst, inl, inr, some, List, [], ◌∷◌, arith, if◌then◌else◌, Bool-cases,
  length, length-append, Map,
}
use surfacelock.Prelude.Bytes.{Bytes, codes, eq_bytes}
use surfacelock.External.{External}
use surfacelock.Conformance.Exchange.{Capture, stateless_era}
use surfacelock.Conformance.View.{result_string}
use surfacelock.Conformance.Tools.{page_probes}
use surfacelock.Conformance.Probe.{
  AskParams, Ask, dialed, sent, Wire, Probing, plain_params, list_tools, answered, roundtrip,
  on_fresh,
}
use surfacelock.Conformance.Probe.Plan.{
  probe_run, Paging, Opening, classic_session, page_walk, cursor_and_batch, version_probe,
  session_probe, newer_probe, cold_probe, discover_probe, fresh_probes, get_probe, probe_classic,
  mismatch_probe, stateless_opening, probe_stateless, probe,
}
use surfacelock.Conformance.Probe.Steps.{if-holds}

-- At most so many exchanges are recorded.
record IsWithin (n : ℕ) (s : Probing) : Type 0 where
  count : length s.exchanges ≤ n

IsWithin-mono : (n m : ℕ) (s : Probing) → n ≤ m → IsWithin n s → IsWithin m s
IsWithin-mono n m s le h = record { count = omega (arith, le, h.count) }

IsWithin-suc : (n : ℕ) (s : Probing) → IsWithin n s → IsWithin (suc n) s
IsWithin-suc n s h = IsWithin-mono n (suc n) s (omega arith) h

module _ ⦃ext : External⦄ where
  module _ (wire : Wire) where
    roundtrip-IsWithin :
        (n : ℕ) (s : Probing) (ask : Ask) (name : Bytes)
        → IsWithin n s
        → IsWithin (suc n) (roundtrip wire s ask name)
    unfolding roundtrip
    roundtrip-IsWithin n s ask name h = record {
      count = omega (arith, h.count, length-append s.exchanges (answered wire s ask name ∷ []));
    }

    classic_session-IsWithin :
        (n : ℕ) (s : Probing) (offered name : Bytes)
        → IsWithin n s
        → IsWithin (suc (suc n)) (classic_session wire s offered name).after
    unfolding classic_session
    classic_session-IsWithin n s offered name h =
        let first = roundtrip-IsWithin n s _ name h in
        if-holds (IsWithin (suc (suc n))) _ _ _ (IsWithin-suc (suc n) _ first)
          (roundtrip-IsWithin (suc n) _ _ _ first)

    page_walk-IsWithin :
        (n : ℕ) (params : AskParams) (headers : Map Bytes) (s : Probing) (cursor : Bytes) (id : ℕ)
        (names : List Bytes)
        → IsWithin n s
        → IsWithin (length names + n) (page_walk wire params headers s cursor id names).after
    unfolding page_walk
    page_walk-IsWithin n params headers s cursor id [] h = IsWithin-mono n (0 + n) s (omega arith) h
    page_walk-IsWithin n params headers s cursor id (name ∷ names) h =
        let ask = sent name list_tools (record params { cursor = cursor }) headers id in
        let t = roundtrip wire s ask name in
        let first = roundtrip-IsWithin n s ask name h in
        let next = result_string (answered wire s ask name).message (codes "nextCursor") in
        let rest = page_walk-IsWithin (suc n) params headers t next (id + 1) names first in
        if-holds (λ (p : Paging). IsWithin (length (name ∷ names) + n) p.after) _ _ _
          (IsWithin-mono (suc n) (length (name ∷ names) + n) _ (omega arith) first)
          (IsWithin-mono (length names + suc n) (length (name ∷ names) + n) _ (omega arith) rest)

    cursor_and_batch-IsWithin :
        (n : ℕ) (params : AskParams) (headers : Map Bytes) (s : Probing) (id : ℕ)
        → IsWithin n s
        → IsWithin (suc (suc n)) (cursor_and_batch wire params headers s id)
    unfolding cursor_and_batch
    cursor_and_batch-IsWithin n params headers s id h =
        roundtrip-IsWithin (suc n) _ _ _ (roundtrip-IsWithin n s _ _ h)

    version_probe-IsWithin :
        (n : ℕ) (era : Bytes) (base : Map Bytes) (p : Paging)
        → IsWithin n p.after
        → IsWithin (suc n) (version_probe wire era base p).after
    unfolding version_probe
    version_probe-IsWithin n era base p h =
        if-holds (λ (q : Paging). IsWithin (suc n) q.after) _ _ _
          (roundtrip-IsWithin n p.after _ _ h) (IsWithin-suc n p.after h)

    session_probe-IsWithin :
        (n : ℕ) (era : Bytes) (o : Opening) (s : Probing) (id : ℕ)
        → IsWithin n s
        → IsWithin (suc n) (session_probe wire era o s id)
    unfolding session_probe
    session_probe-IsWithin n era o s id h =
        if-holds (IsWithin (suc n)) _ _ _ (roundtrip-IsWithin n s _ _ h) (IsWithin-suc n s h)

    on_fresh-IsWithin :
        (n m : ℕ) (s : Probing) (run : Probing → Probing)
        → ((t : Probing) → IsWithin n t → IsWithin m (run t))
        → n ≤ m
        → IsWithin n s
        → IsWithin m (on_fresh wire s run)
    unfolding on_fresh
    on_fresh-IsWithin n m s run step le h =
        if-holds (IsWithin m) _ _ _
          (step (record s { asks = dialed ∷ s.asks }) (record { count = h.count }))
          (IsWithin-mono n m (record s { asks = dialed ∷ s.asks }) le (record { count = h.count }))

    fresh_probes-IsWithin :
        (n : ℕ) (s : Probing)
        → IsWithin n s
        → IsWithin (suc (suc (suc (suc n)))) (fresh_probes wire s)
    unfolding fresh_probes newer_probe cold_probe discover_probe
    fresh_probes-IsWithin n s h =
        on_fresh-IsWithin (suc (suc (suc n))) _ _ (discover_probe wire)
          (λ t. roundtrip-IsWithin (suc (suc (suc n))) t _ (codes "D1.discover")) (omega arith)
          (on_fresh-IsWithin (suc (suc n)) _ _ (cold_probe wire)
            (λ t. roundtrip-IsWithin (suc (suc n)) t _ (codes "H3.cold")) (omega arith)
            (on_fresh-IsWithin n _ s (newer_probe wire)
              (λ t. classic_session-IsWithin n t stateless_era (codes "H2.newer")) (omega arith) h))

    probe_classic-IsWithin :
        (era : Bytes) (s : Probing) → IsWithin 0 s → IsWithin 19 (probe_classic wire era s)
    unfolding probe_classic get_probe
    probe_classic-IsWithin era s h = roundtrip-IsWithin 18 _ _ _ (
        fresh_probes-IsWithin 14 _ (
          session_probe-IsWithin 13 era _ _ _ (
            cursor_and_batch-IsWithin 11 plain_params _ _ _ (
              version_probe-IsWithin 10 era _ _ (
                page_walk-IsWithin 2 plain_params _ _ [] 10 page_probes
                  (classic_session-IsWithin 0 s era (codes "H1.init") h))))))

    probe_stateless-IsWithin : (s : Probing) → IsWithin 0 s → IsWithin 19 (probe_stateless wire s)
    unfolding probe_stateless get_probe mismatch_probe stateless_opening
    probe_stateless-IsWithin s h =
        let opening =
          roundtrip-IsWithin 2 _ _ _ (roundtrip-IsWithin 1 _ _ _ (roundtrip-IsWithin 0 s _ _ h)) in
        let batch =
          cursor_and_batch-IsWithin 11 _ _ _ _ (page_walk-IsWithin 3 _ _ _ [] 10 _ opening) in
        let all_asked = roundtrip-IsWithin 14 _ _ _ (
          if-holds (IsWithin 14) _ _ _ (IsWithin-suc 13 _ batch)
            (roundtrip-IsWithin 13 _ _ _ batch)) in
        IsWithin-mono 15 19 _ (omega arith) all_asked

  -- Whatever a target answers, a probe run ends with at most 19 exchanges: a server that names a
  -- further page on every page cannot prolong it.
  pub probe-bounded :
      (wire : Wire) (target era : Bytes) (c : Capture)
      → probe wire target era ≡ some c
      → length c.exchanges ≤ 19
  unfolding probe probe_run
  probe-bounded wire target era c h =
      let s : Probing = record { asks = dialed ∷ []; exchanges = [] } in
      let start : IsWithin 0 s = record { count = omega arith } in
      let end =
        if eq_bytes era stateless_era then probe_stateless wire s else probe_classic wire era s in
      let bound : IsWithin 19 end =
        if-holds (IsWithin 19) _ _ _ (probe_stateless-IsWithin wire s start)
          (probe_classic-IsWithin wire era s start) in
      elim (Bool-cases (wire.dials [])) [
        | inr e ↦ absurd (ground (arith, h, e))
        | inl e ↦
            let is : end.exchanges ≡ c.exchanges = ground (arith, h, e) in
            subst (λ xs. length xs ≤ 19) is bound.count
      ]
