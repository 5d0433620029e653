-- ===== src/Conformance/Probe/Recorded.antt =====
-- What every recorded exchange of a run has in common, and the check of a target that is down.
use surfacelock.Prelude.{
  ◌≡◌, refl, subst, ◌≢◌, inl, inr, true, ◌||◌, none, some, List, [], ◌∷◌, arith, Bool-cases,
  Option-cases, All, All-append,
}
use surfacelock.Prelude.Bytes.{Bytes, codes, eq_bytes, contains}
use surfacelock.Prelude.Results.{ok, err}
use surfacelock.External.{External}
use surfacelock.Lockfile.Entry.{ServerLock}
use surfacelock.Conformance.Exchange.{Exchange, Capture, eras}
use surfacelock.Conformance.Grade.{unknown_era, dial_failed}
use surfacelock.Conformance.Probe.{Ask, Wire, Probing, answered, roundtrip}
use surfacelock.Conformance.Probe.Steps.{is_read_only, probe_run-Holds}
use surfacelock.Conformance.Probe.Plan.{probe_run, probe, check, check_lock_entry}
use surfacelock.Conformance.Grade.{unsubstantiable}
use surfacelock.Conformance.Grade.Dead.{IsDead}
use surfacelock.Conformance.Grade.Unsubstantiable.{validate_era_claim-unsubstantiable}

module _ ⦃ext : External⦄ where
  -- A predicate that holds of every exchange which the target can make the run record.
  module _ (wire : Wire) (P : Exchange → Type 0)
      (every : (asks : List Ask) (name : Bytes)
        → P (record (wire.answer asks) { probe = name })) where
    roundtrip-All :
        (s : Probing) (ask : Ask) (name : Bytes)
        → is_read_only ask ≡ true
        → All P s.exchanges
        → All P (roundtrip wire s ask name).exchanges
    unfolding roundtrip
    roundtrip-All s ask name reads h =
        All-append P s.exchanges (answered wire s ask name ∷ []) h (every (ask ∷ s.asks) name, tt)

    probe-All :
        (target era : Bytes) (c : Capture) → probe wire target era ≡ some c → All P c.exchanges
    unfolding probe
    probe-All target era c h =
        let all_end =
          probe_run-Holds wire (λ s. All P s.exchanges) (λ s hs. hs) roundtrip-All era tt in
        elim (Bool-cases (wire.dials [])) [
          | inr e ↦ absurd (ground (arith, h, e))
          | inl e ↦
              let is : (probe_run wire era).exchanges ≡ c.exchanges = ground (arith, h, e) in
              subst (All P) is all_end
        ]

  probe-dialed :
      (wire : Wire) (target era : Bytes) → wire.dials [] ≡ true → probe wire target era ≢ none
  unfolding probe
  probe-dialed wire target era d h = ground (arith, d, h)

  -- A target every exchange with which fails, other than by silence, before a header with a session
  -- or a content type comes back, never substantiates the revision of a lockfile's entry over http
  -- or stdio: checking the entry ends in an error, and in the one that says that the claim cannot be
  -- substantiated where the revision is known and the first dial succeeds.
  pub check_lock_entry-dead :
      (wire : Wire) (e : ServerLock)
      → ((asks : List Ask) (name : Bytes) → IsDead (record (wire.answer asks) { probe = name }))
      → eq_bytes e.transport (codes "http") || eq_bytes e.transport (codes "stdio") ≡ true
      → (check_lock_entry wire e ≢ ok tt)
        × ((contains eras e.protocol.era ≡ true)
            → wire.dials [] ≡ true
            → check_lock_entry wire e ≡ err unsubstantiable)
  unfolding check_lock_entry check
  check_lock_entry-dead wire e dead known = elim (Bool-cases (contains eras e.protocol.era)) [
    | inr ee ↦
        let ends : check_lock_entry wire e ≡ err unknown_era =
          rw (check_lock_entry, known, check, ee) refl in
        ((λ h. ground (arith, h, ends)), λ c d. absurd (ground (arith, c, ee)))
    | inl ee ↦ elim (Option-cases (probe wire e.target e.protocol.era)) [
      | inl ep ↦
          let ends : check_lock_entry wire e ≡ err dial_failed =
            rw (check_lock_entry, known, check, ee, ep) refl in
          (
            (λ h. ground (arith, h, ends)),
            λ c d. absurd (ground (arith, ep, probe-dialed wire e.target e.protocol.era d)),
          )
      | inr (c, ep) ↦
          let all_dead = probe-All wire IsDead dead e.target e.protocol.era c ep in
          let verdict = (validate_era_claim-unsubstantiable c all_dead).2 in
          let ends : check_lock_entry wire e ≡ err unsubstantiable =
            rw (check_lock_entry, known, check, ee, ep) verdict in
          ((λ h. ground (arith, h, ends)), λ known_era d. ends)
    ]
  ]
