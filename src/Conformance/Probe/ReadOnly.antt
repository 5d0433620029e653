-- ===== src/Conformance/Probe/ReadOnly.antt =====
-- What a probe run may send.
use surfacelock.Prelude.{◌≡◌, true, refl, All}
use surfacelock.Prelude.Bytes.{Bytes}
use surfacelock.External.{External}
use surfacelock.Conformance.Probe.{Ask, Wire, Probing, roundtrip}
use surfacelock.Conformance.Probe.Plan.{probe_run}
use surfacelock.Conformance.Probe.Steps.{is_read_only, probe_run-Holds}

module _ ⦃ext : External⦄ where
  asked :
      (wire : Wire) (s : Probing) (ask : Ask) (name : Bytes)
      → is_read_only ask ≡ true
      → All (λ a. is_read_only a ≡ true) s.asks
      → All (λ a. is_read_only a ≡ true) (roundtrip wire s ask name).asks
  unfolding roundtrip
  asked wire s ask name reads h = (reads, h)

  -- Whatever a target answers, a probe run sends no request but initialize, its notification,
  -- server/discover and tools/list, alone or in its batch.
  pub probe_run-is_read_only :
      (wire : Wire) (era : Bytes) → All (λ a. is_read_only a ≡ true) (probe_run wire era).asks
  unfolding is_read_only
  probe_run-is_read_only wire era =
      probe_run-Holds wire (λ s. All (λ a. is_read_only a ≡ true) s.asks) (λ s h. (refl, h))
        (asked wire) era (refl, tt)
