-- ===== src/Diff/Surfaces.antt =====
-- diff.go: `Diff`, between a locked entry and a live surface.
pub mod Clean
pub mod Locked
pub mod Order
pub mod Reports
pub mod Added
pub mod Reported
use surfacelock.Prelude.{
  ◌+◌, Bool, not, Option, none, some, List, [], ◌∷◌, ◌++◌, ltb, ◌==◌, if◌then◌else◌, Map, lookup,
  insert,
}
use surfacelock.Prelude.Bytes.{eq_bytes, lt_bytes}
use surfacelock.External.{External}
use surfacelock.Surface.Tool.{Tool}
use surfacelock.Surface.Admit.{Surface}
use surfacelock.Lockfile.Entry.{ServerLock, ToolLock, tools_of}
use surfacelock.Diff.Class.{ToolDiff, SurfaceDiff, removed, added, severity}
use surfacelock.Diff.Classify.{classify}

-- oldByName, liveByName: of tools with one name the last stays.
unfoldable pub old_by_name : Map ToolLock → List ToolLock → Map ToolLock
old_by_name m [] = m
old_by_name m (t ∷ ts) = old_by_name (insert t.name t m) ts

unfoldable pub live_by_name : Map Tool → List Tool → Map Tool
live_by_name m [] = m
live_by_name m (t ∷ ts) = live_by_name (insert t.name t m) ts

-- The loop over liveByName.
unfoldable pub added_tools : Map ToolLock → Map Tool → List ToolDiff
added_tools old [] = []
added_tools old ((name, t) ∷ m) =
    let rest = added_tools old m in
    elim (lookup name old) [
      | some _ ↦ rest
      | none ↦ record { name = name; classes = added ∷ [] } ∷ rest
    ]

-- `less` of the sort at the end.
abbrev pub before : ToolDiff → ToolDiff → Bool
before a b =
    if severity a == severity b then lt_bytes a.name b.name else ltb (severity a) (severity b)

unfoldable pub insert_diff : ToolDiff → List ToolDiff → List ToolDiff
insert_diff d [] = d ∷ []
insert_diff d (e ∷ es) = if before d e then d ∷ e ∷ es else e ∷ insert_diff d es

unfoldable pub sort_diffs : List ToolDiff → List ToolDiff
sort_diffs [] = []
sort_diffs (d ∷ ds) = insert_diff d (sort_diffs ds)

module _ ⦃ext : External⦄ where
  -- The loop over oldByName; `none` is an error.
  unfoldable pub changed_tools : Map Tool → Map ToolLock → Option (List ToolDiff)
  changed_tools live [] = some []
  changed_tools live ((name, ot) ∷ m) = elim (changed_tools live m) [
    | none ↦ none
    | some rest ↦ elim (lookup name live) [
      | none ↦ some (record { name = name; classes = removed ∷ [] } ∷ rest)
      | some lt ↦
          if eq_bytes ot.h_tool lt.h_tool then some rest else elim (classify ot.tool lt.canon) [
            | none ↦ none
            | some classes ↦ some (record { name = name; classes = classes } ∷ rest)
          ]
    ]
  ]

  -- Diff; `none` is an error.
  unfoldable pub diff : ServerLock → Surface → Option SurfaceDiff
  diff old live =
      let o = old_by_name [] (tools_of old) in
      let l = live_by_name [] live.tools in
      elim (changed_tools l o) [
        | none ↦ none
        | some changed ↦ some (record {
          era_changed = not (eq_bytes old.protocol.era live.era);
          old_era = old.protocol.era;
          new_era = live.era;
          instructions_changed = not (eq_bytes old.h_instr live.h_instr);
          tools = sort_diffs (changed ++ added_tools o l);
        })
      ]
