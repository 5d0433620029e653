-- ===== src/Diff/Class.antt =====
-- diff.go: `Class`, `ToolDiff`, `SurfaceDiff`.
use surfacelock.Prelude.{ℕ, Bool, true, false, not, ◌&&◌, List, [], ◌∷◌, ltb, if◌then◌else◌}
use surfacelock.Prelude.Bytes.{Bytes, codes}

-- Class, by its number: the smaller, the more severe.
pub data Class : Type 0 where
  description schema era metadata removed added : Class

unfoldable pub rank : Class → ℕ
rank description = 0
rank schema = 1
rank era = 2
rank metadata = 3
rank removed = 4
rank added = 5

-- Class.String
unfoldable pub class_name : Class → Bytes
class_name description = codes "description"
class_name schema = codes "schema"
class_name era = codes "era"
class_name metadata = codes "metadata"
class_name removed = codes "removed"
class_name added = codes "added"

-- ToolDiff
pub record ToolDiff : Type 0 where
  pub name : Bytes
  pub classes : List Class

-- ToolDiff.Severity, as a rank; `d.Classes[0]` panics on an empty list, here rank 6.
unfoldable pub severity : ToolDiff → ℕ
unfolding rank
severity d = elim d.classes [ [] ↦ 6 | c ∷ cs ↦ rank c ]

-- SurfaceDiff
pub record SurfaceDiff : Type 0 where
  pub era_changed : Bool
  pub old_era : Bytes
  pub new_era : Bytes
  pub instructions_changed : Bool
  pub tools : List ToolDiff

-- SurfaceDiff.Empty
unfoldable pub is_empty : SurfaceDiff → Bool
is_empty d =
    not d.era_changed && (not d.instructions_changed && elim d.tools [ [] ↦ true | t ∷ ts ↦ false ])

-- The loop of SurfaceDiff.Severity.
unfoldable pub worst : ℕ → List ToolDiff → ℕ
unfolding severity
worst sev [] = sev
worst sev (d ∷ ds) = worst (if ltb (severity d) sev then severity d else sev) ds

-- SurfaceDiff.Severity, as a rank; `ClassAdded + 1` is 6.
unfoldable pub surface_severity : SurfaceDiff → ℕ
unfolding worst
surface_severity d =
    let first = if d.instructions_changed then 0 else 6 in
    worst (if d.era_changed && ltb 2 first then 2 else first) d.tools
