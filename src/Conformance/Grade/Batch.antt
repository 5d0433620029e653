-- ===== src/Conformance/Grade/Batch.antt =====
-- The batches that a revision has removed, and the claim of a revision against its cells.
use surfacelock.Prelude.{
  ◌≡◌, refl, ◌↔◌, inl, inr, Bool, true, false, some, List, [], ◌∷◌, arith, Bool-cases, any,
}
use surfacelock.Prelude.Bytes.{Bytes, codes, eq_bytes}
use surfacelock.Prelude.Results.{ok, err}
use surfacelock.External.{External}
use surfacelock.Conformance.Exchange.{Exchange, Capture, stateless_era, find}
use surfacelock.Conformance.View.{view_of, is_unreached}
use surfacelock.Conformance.Cells.{Outcome, Cell, must_violation, nonconformant, cell, join}
use surfacelock.Conformance.Cells.Verdicts.{is_must, is_graded, any-append, verdict_of_lem}
use surfacelock.Conformance.Tools.{graded_probe, is_accepted_batch}
use surfacelock.Conformance.Classic.{first_era, classic_batch_outcome, grade_classic}
use surfacelock.Conformance.Stateless.{batch_outcome, grade_stateless}
use surfacelock.Conformance.Grade.{does_not_conform, graded_cells, grade, validate_era_claim}
use surfacelock.Conformance.Stateless.{batch_outcome}

any-join : (p : Cell → Bool) (css : List (List Cell)) → any p (join css) ≡ any (any p) css
unfolding join
any-join p [] = refl
any-join p (cs ∷ css) = rw (any-append p cs (join css), any-join p css) refl

module _ ⦃ext : External⦄ where
  -- A report's claim is accepted when at least one cell of it counts and none is a violation of
  -- what the revision requires, and in no other case.
  pub validate_era_claim_iff :
      (capture : Capture)
      → (validate_era_claim (grade capture) ≡ ok tt) ↔ (
          (any is_graded (grade capture).cells ≡ true)
          × (any is_must (grade capture).cells ≡ false))
  unfolding grade validate_era_claim
  validate_era_claim_iff capture =
      let (must, graded, starred) = verdict_of_lem (graded_cells capture) in
      let clean = Bool-cases (any is_must (graded_cells capture)) in
      let counted = Bool-cases (any is_graded (graded_cells capture)) in
      (
        (λ h. (ground (arith, graded.1, must.1, counted), ground (arith, graded.1, must.1, clean))),
        λ h. ground (arith, must.0, graded.0),
      )

  -- The cells of an answered batch, where the revision has no batches.
  batch-violates :
      (era : Bytes) (ex : Exchange)
      → is_unreached (view_of ex) ≡ false
      → is_accepted_batch (view_of ex) ≡ true
      → eq_bytes era first_era ≡ false
      → eq_bytes era (codes "2025-03-26") ≡ false
      → (classic_batch_outcome era ex ≡ must_violation) × (batch_outcome ex ≡ must_violation)
  unfolding classic_batch_outcome batch_outcome
  batch-violates era ex r a f m =
      (rw (classic_batch_outcome, r, a, f, m) refl, rw (batch_outcome, r, a) refl)

  probe-violates :
      (capture : Capture) (probe : Bytes) (ex : Exchange) (f : Exchange → Outcome)
      → find capture probe ≡ some ex
      → f ex ≡ must_violation
      → any is_must (graded_probe capture probe (λ x. cell probe (f x))) ≡ true
  unfolding graded_probe
  probe-violates capture probe ex f found h = rw (graded_probe, found, h) refl

  stateless-violates :
      (capture : Capture) (ex : Exchange)
      → find capture (codes "B1.batch") ≡ some ex
      → batch_outcome ex ≡ must_violation
      → any is_must (grade_stateless capture) ≡ true
  unfolding grade_stateless
  stateless-violates capture ex found h =
      let at = probe-violates capture (codes "B1.batch") ex batch_outcome found h in
      rw (grade_stateless, any-join is_must) ground (arith, at)

  classic-violates :
      (capture : Capture) (ex : Exchange)
      → find capture (codes "B1.batch") ≡ some ex
      → classic_batch_outcome capture.era ex ≡ must_violation
      → any is_must (grade_classic capture) ≡ true
  unfolding grade_classic
  classic-violates capture ex found h =
      let at =
        probe-violates capture (codes "B1.batch") ex (classic_batch_outcome capture.era) found h in
      rw (grade_classic, any-join is_must) ground (arith, at)

  -- On a revision other than the first two, a recorded batch that reached the target and was
  -- answered by a batch with an accepting status makes the verdict `nonconformant`, so the claim of
  -- the revision is refused, whatever the other probes recorded.
  pub grade-removed_batches :
      (capture : Capture) (ex : Exchange)
      → find capture (codes "B1.batch") ≡ some ex
      → is_unreached (view_of ex) ≡ false
      → is_accepted_batch (view_of ex) ≡ true
      → eq_bytes capture.era first_era ≡ false
      → eq_bytes capture.era (codes "2025-03-26") ≡ false
      → ((grade capture).verdict ≡ nonconformant)
        × (validate_era_claim (grade capture) ≡ err does_not_conform)
  unfolding grade graded_cells validate_era_claim
  grade-removed_batches capture ex found r a f m =
      let (classic, stateless) = batch-violates capture.era ex r a f m in
      let violates : any is_must (graded_cells capture) ≡ true =
        elim (Bool-cases (eq_bytes capture.era stateless_era)) [
          | inl e ↦ rw (graded_cells, e) (stateless-violates capture ex found stateless)
          | inr e ↦ rw (graded_cells, e) (classic-violates capture ex found classic)
        ] in
      let verdict = (verdict_of_lem (graded_cells capture)).0.1 violates in
      (verdict, rw (verdict) refl)
