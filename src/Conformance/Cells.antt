-- ===== src/Conformance/Cells.antt =====
-- conformance/grade.go: outcomes, cells and the verdict over them.
pub mod Verdicts
use surfacelock.Prelude.{ℕ, ◌+◌, List, [], ◌∷◌, ◌++◌, ltb, ◌==◌, if◌then◌else◌}
use surfacelock.Prelude.Bytes.{Bytes}

-- Outcome
pub data Outcome : Type 0 where
  pass must_violation should_violation observed not_applicable unreached : Outcome

-- Cell, without its evidence.
pub record Cell : Type 0 where
  pub probe : Bytes
  pub outcome : Outcome

-- EraVerdict
pub data EraVerdict : Type 0 where
  conformant conformant_star nonconformant ungraded : EraVerdict

pub record Tally : Type 0 where
  pub graded : ℕ
  pub must : ℕ
  pub should : ℕ

unfoldable pub count_cell : Tally → Outcome → Tally
count_cell t must_violation = record t { must = t.must + 1; graded = t.graded + 1 }
count_cell t should_violation = record t { should = t.should + 1; graded = t.graded + 1 }
count_cell t pass = record t { graded = t.graded + 1 }
count_cell t _ = t

-- The loop over the cells.
unfoldable pub tally : Tally → List Cell → Tally
unfolding count_cell
tally t [] = t
tally t (c ∷ cs) = tally (count_cell t c.outcome) cs

-- verdictOf
unfoldable pub verdict_of : List Cell → EraVerdict
unfolding tally
verdict_of cells =
    let t = tally (record { graded = 0; must = 0; should = 0 }) cells in
    if t.graded == 0
    then ungraded
    else if ltb 0 t.must
    then nonconformant
    else if ltb 0 t.should
    then conformant_star
    else conformant

-- Report.cell
abbrev pub cell : Bytes → Outcome → List Cell
cell probe o = record { probe = probe; outcome = o } ∷ []

-- The cells of one step of grading after those of another.
unfoldable pub join : List (List Cell) → List Cell
join [] = []
join (cs ∷ css) = cs ++ join css
