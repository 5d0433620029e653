-- ===== src/Conformance/Grade/Outcomes.antt =====
-- The outcomes of single exchanges that reached nobody.
use surfacelock.Prelude.{
  ℕ, ◌≡◌, refl, inl, inr, false, List, [], ◌∷◌, ◌==◌, if◌then◌else◌, Bool-cases, All,
}
use surfacelock.Prelude.Bytes.{Bytes, codes, eq_bytes}
use surfacelock.External.{External}
use surfacelock.Go.Text.{has_prefix}
use surfacelock.Conformance.Exchange.{Exchange}
use surfacelock.Conformance.Cells.{pass, observed, unreached, cell}
use surfacelock.Conformance.Classic.{
  init_outcome, newer_outcome, cold_outcome, classic_discover_outcome, classic_batch_outcome,
}
use surfacelock.Conformance.Stateless.{
  discover_outcome, legacy_init_outcome, session_sweep, batch_outcome, mismatch_outcome,
  result_sweep, get_outcome,
}
use surfacelock.Conformance.Grade.Dead.{
  IsDead, IsUngraded, Dead-failed, Dead-unreached, view_of-transport,
}
use surfacelock.Conformance.Stateless.{batch_outcome}

module _ ⦃ext : External⦄ where
  -- The loop of S2 over exchanges that answered nothing.
  pub sweep-dead : (exs : List Exchange) → All IsDead exs → session_sweep exs ≡ (false, false)
  unfolding session_sweep
  sweep-dead [] d = refl
  sweep-dead (ex ∷ exs) d =
      rw (session_sweep, Dead-unreached ex d.0, d.0.no_session, sweep-dead exs d.1) refl

  pub results-dead :
      (n : ℕ) (exs : List Exchange)
      → All IsDead exs
      → result_sweep n exs ≡ (if n == 0 then unreached else pass)
  unfolding result_sweep
  results-dead n [] d = refl
  results-dead n (ex ∷ exs) d = elim (Bool-cases (eq_bytes ex.probe (codes "H1.init"))) [
    | inl e ↦ rw (result_sweep, e) (results-dead n exs d.1)
    | inr e ↦ rw (result_sweep, e, Dead-failed ex d.0) (results-dead n exs d.1)
  ]

  pub get_outcome-dead :
      (versions : List Bytes) (ex : Exchange) → IsDead ex → get_outcome versions ex ≡ observed
  unfolding get_outcome has_prefix
  get_outcome-dead versions ex d = rw (get_outcome, d.no_content) refl

  pub legacy-IsUngraded :
      (probe : Bytes) (ex : Exchange) → IsDead ex → IsUngraded (cell probe (legacy_init_outcome ex))
  unfolding legacy_init_outcome
  legacy-IsUngraded probe ex d = rw (Dead-unreached ex d) refl

  pub init-IsUngraded :
      (era probe : Bytes) (ex : Exchange)
      → IsDead ex
      → IsUngraded (cell probe (init_outcome era ex))
  unfolding init_outcome
  init-IsUngraded era probe ex d = rw (view_of-transport ex, d.failed) refl

  pub newer-IsUngraded :
      (probe : Bytes) (ex : Exchange) → IsDead ex → IsUngraded (cell probe (newer_outcome ex))
  unfolding newer_outcome
  newer-IsUngraded probe ex d = rw (view_of-transport ex, d.failed) refl

  pub discover-IsUngraded :
      (probe : Bytes) (ex : Exchange) → IsDead ex → IsUngraded (cell probe (discover_outcome ex))
  unfolding discover_outcome
  discover-IsUngraded probe ex d = rw (view_of-transport ex, d.failed) refl

  pub cold-IsUngraded :
      (probe : Bytes) (ex : Exchange) → IsDead ex → IsUngraded (cell probe (cold_outcome ex))
  unfolding cold_outcome
  cold-IsUngraded probe ex d = rw (Dead-unreached ex d) refl

  pub classic_discover-IsUngraded :
      (probe : Bytes) (ex : Exchange)
      → IsDead ex
      → IsUngraded (cell probe (classic_discover_outcome ex))
  unfolding classic_discover_outcome
  classic_discover-IsUngraded probe ex d = rw (Dead-unreached ex d) refl

  pub batch-IsUngraded :
      (probe : Bytes) (ex : Exchange) → IsDead ex → IsUngraded (cell probe (batch_outcome ex))
  unfolding batch_outcome
  batch-IsUngraded probe ex d = rw (Dead-unreached ex d) refl

  pub classic_batch-IsUngraded :
      (era probe : Bytes) (ex : Exchange)
      → IsDead ex
      → IsUngraded (cell probe (classic_batch_outcome era ex))
  unfolding classic_batch_outcome
  classic_batch-IsUngraded era probe ex d = rw (Dead-unreached ex d) refl

  pub mismatch-IsUngraded :
      (probe : Bytes) (ex : Exchange) → IsDead ex → IsUngraded (cell probe (mismatch_outcome ex))
  unfolding mismatch_outcome
  mismatch-IsUngraded probe ex d = rw (Dead-unreached ex d) refl
