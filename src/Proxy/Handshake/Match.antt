-- ===== src/Proxy/Handshake/Match.antt =====
-- What a handshake that is let through has shown.
use surfacelock.Prelude.{◌≡◌, ◌⊎◌, inl, inr, true, false, not, some, [], arith, Option-cases}
use surfacelock.Prelude.Bytes.{Bytes, eq_bytes, eq_bytes_iff}
use surfacelock.Prelude.Results.{ok, Result-cases}
use surfacelock.External.{External}
use surfacelock.Surface.Admit.{Surface, admit}
use surfacelock.Proxy.Verifier.{Verifier, inadmissible_verdict}
use surfacelock.Proxy.Verifier.Policy.{resolve_drift-forwards}
use surfacelock.Proxy.Handshake.{
  Flow, Reading, handshake_surface, read_handshake, flow_mismatch, conclude, verify_handshake,
}

-- The handshake agrees with the lock in its flow, its era and, if it names any, its versions.
abbrev pub Agrees : Verifier → Flow → Reading → Type 0
Agrees v flow r =
    (flow_mismatch v flow ≡ false) × (r.unsupported ≡ false) × (r.era ≡ v.entry.protocol.era)

conclude-forwards :
    (v : Verifier) (flow : Flow) (r : Reading) (h : Bytes)
    → (conclude v flow r h).0.refuse ≡ false
    → (h ≡ v.entry.h_instr)
      × ((conclude v flow r h).1.handshake_era ≡ r.era)
      × (Agrees v flow r ⊎ (v.warn ≡ true))
unfolding conclude
conclude-forwards v flow r h p = ground (
  arith,
  (resolve_drift-forwards v [] (not (eq_bytes h v.entry.h_instr))).0,
  eq_bytes_iff h v.entry.h_instr,
  eq_bytes_iff r.era v.entry.protocol.era,
)

module _ ⦃ext : External⦄ where
  -- If verifyHandshake lets a handshake through, its instructions were admitted and their hash is
  -- the locked one, under --warn too; flow, era and supported versions agree with the lock unless
  -- the session runs under --warn; and the session's era is the one read from the handshake.
  pub verify_handshake-forwards :
      (v : Verifier) (flow : Flow) (result req_era : Bytes)
      → (verify_handshake v flow result req_era).0.refuse ≡ false
      → (r : Reading) × (s : Surface) × (read_handshake flow result req_era ≡ some r)
        × (admit (handshake_surface r) v.lim ≡ ok s)
        × (s.h_instr ≡ v.entry.h_instr)
        × ((verify_handshake v flow result req_era).1.handshake_era ≡ r.era)
        × (Agrees v flow r ⊎ (v.warn ≡ true))
  unfolding verify_handshake inadmissible_verdict
  verify_handshake-forwards v flow result req_era h =
      elim (Option-cases (read_handshake flow result req_era)) [
        | inl e ↦ absurd (ground arith)
        | inr (r, e) ↦ elim (Result-cases (admit (handshake_surface r) v.lim)) [
          | inr (x, a) ↦ absurd (ground arith)
          | inl (s, a) ↦
              let (i, era, agree) = conclude-forwards v flow r s.h_instr (ground arith) in
              (r, s, e, a, i, ground (arith, era), agree)
        ]
      ]
