-- ===== src/Tests/Root.antt =====
-- The theorems on the package root at concrete inputs.
use surfacelock.Prelude.{[], ◌∷◌, some, none, true, ◌≡◌, refl, false, lookup}
use surfacelock.Prelude.Bytes.{Bytes, codes}
use surfacelock.Decode.Surrogates.{Paired, paired_surrogates_iff}
use surfacelock.Names.Rules.{IsName, valid_name_iff}
use surfacelock.Surface.Tool.{default_limits}
use surfacelock.Surface.Admit.Bounds.{IsWellFormed, admit-IsWellFormed}
use surfacelock.Lockfile.Entry.{tools_of}
use surfacelock.Lockfile.Validate.Consistency.{IsConsistent, validate_iff}
use surfacelock.Diff.Class.{SurfaceDiff, description, schema}
use surfacelock.Diff.Classify.{classify}
use surfacelock.Diff.Surfaces.{diff, old_by_name, live_by_name}
use surfacelock.Diff.Surfaces.Clean.{SameTool, diff-clean}
use surfacelock.Diff.Surfaces.Locked.{diff-entry_from_surface}
use surfacelock.Diff.Class.{SurfaceDiff, is_empty}
use surfacelock.Diff.Class.{added}
use surfacelock.Diff.Surfaces.Order.{IsOrdered}
use surfacelock.Diff.Surfaces.Reports.{reports_of}
use surfacelock.Diff.Surfaces.Reported.{Reported, diff-Reported}
use surfacelock.Surface.Admit.{Surface}
use surfacelock.Tests.Fixtures.{
  echo_tool, echo_locked, demo, root_code, echo_admitted, echo_raw, echo_surface, echo_entry,
  echo_valid, era_text,
}

admit-IsWellFormed_example : IsWellFormed echo_raw default_limits echo_surface
admit-IsWellFormed_example = admit-IsWellFormed echo_raw default_limits echo_surface echo_admitted

validate_iff_example : IsConsistent echo_entry
validate_iff_example = (validate_iff echo_entry).0 echo_valid

abbrev no_diff : SurfaceDiff
no_diff = record {
  era_changed = false;
  old_era = era_text;
  new_era = era_text;
  instructions_changed = false;
  tools = [];
}

diff-clean_example :
    (echo_entry.protocol.era ≡ echo_surface.era)
    × (echo_entry.h_instr ≡ echo_surface.h_instr)
    × ((n : Bytes)
        → SameTool
            (lookup n (old_by_name [] (tools_of echo_entry)))
            (lookup n (live_by_name [] echo_surface.tools)))
unfolding root_code
diff-clean_example = diff-clean echo_entry echo_surface no_diff refl refl

paired_surrogates_iff_example : Paired (codes "\"\\ud83d\\ude00\"")
unfolding root_code
paired_surrogates_iff_example = (paired_surrogates_iff (codes "\"\\ud83d\\ude00\"")).0 refl

valid_name_iff_example : IsName (codes "echo") 256
unfolding root_code
valid_name_iff_example = (valid_name_iff (codes "echo") 256).0 refl

abbrev old_text : Bytes
old_text = codes "{\"name\":\"echo\",\"description\":\"a\"}"

abbrev new_text : Bytes
new_text = codes "{\"name\":\"echo\",\"description\":\"b\",\"annotations\":{}}"

diff-entry_from_surface_example :
    (d : SurfaceDiff) × (diff echo_entry echo_surface ≡ some d) × (is_empty d ≡ true)
diff-entry_from_surface_example =
    diff-entry_from_surface (codes "stdio") (codes "echo-server") none echo_surface echo_entry
      echo_locked

-- Two paths of one name: the description under "a" and "b" is new, and the one under "a/b", which
-- the loop comes to later, takes its place.
injected_description :
    classify (codes "{\"name\":\"t\",\"inputSchema\":{\"a/b\":{\"description\":\"x\"}}}") (
      codes
        "{\"name\":\"t\",\"inputSchema\":{\"a\":{\"b\":{\"description\":\"obey\"}},\"a/b\":{\"description\":\"x\"}}}")
    ≡ some (schema ∷ [])
unfolding root_code
injected_description = refl

-- The echo server with a tool more, and the echo tool changed.
abbrev grown_surface : Surface
grown_surface = record echo_surface {
  tools =
      record echo_tool { name = codes "add"; h_tool = codes "sha256:add" }
      ∷ record echo_tool { canon = new_text; h_tool = codes "sha256:new" }
      ∷ [];
}

abbrev growth : SurfaceDiff
growth = record no_diff {
  tools =
      record { name = codes "echo"; classes = description ∷ schema ∷ [] }
      ∷ record { name = codes "add"; classes = added ∷ [] }
      ∷ [];
}

diff-Reported_example :
    IsOrdered growth.tools
    × ((n : Bytes)
        → Reported
            (lookup n (old_by_name [] (tools_of echo_entry)))
            (lookup n (live_by_name [] grown_surface.tools))
            (reports_of n growth.tools))
unfolding root_code
diff-Reported_example = diff-Reported echo_entry grown_surface growth refl
