-- ===== src/Conformance/Grade.antt =====
-- conformance/grade.go and conformance/report.go: `Grade`, and the verdict on an era claim.
pub mod Dead
pub mod Outcomes
pub mod Unsubstantiable
pub mod Batch
use surfacelock.Prelude.{List, if◌then◌else◌}
use surfacelock.Prelude.Bytes.{Bytes, eq_bytes}
use surfacelock.Prelude.Results.{Result, ok, err}
use surfacelock.External.{External}
use surfacelock.Conformance.Exchange.{Capture, stateless_era}
use surfacelock.Conformance.Cells.{
  Cell, EraVerdict, conformant, conformant_star, nonconformant, ungraded, verdict_of,
}
use surfacelock.Conformance.Classic.{grade_classic}
use surfacelock.Conformance.Stateless.{grade_stateless}

-- Report
pub record Report : Type 0 where
  pub target : Bytes
  pub kind : Bytes
  pub era : Bytes
  pub cells : List Cell
  pub verdict : EraVerdict

module _ ⦃ext : External⦄ where
  unfoldable pub graded_cells : Capture → List Cell
  graded_cells capture =
      if eq_bytes capture.era stateless_era then grade_stateless capture else grade_classic capture

  -- Grade
  unfoldable pub grade : Capture → Report
  unfolding graded_cells
  grade capture = record {
    target = capture.target;
    kind = capture.kind;
    era = capture.era;
    cells = graded_cells capture;
    verdict = verdict_of (graded_cells capture);
  }

pub data ClaimError : Type 0 where
  unsubstantiable does_not_conform unknown_era dial_failed not_probeable : ClaimError

-- ValidateEraClaim
unfoldable pub validate_era_claim : Report → Result ClaimError (Unit {0})
validate_era_claim r = elim r.verdict [
  | conformant ↦ ok tt
  | conformant_star ↦ ok tt
  | ungraded ↦ err unsubstantiable
  | nonconformant ↦ err does_not_conform
]
