-- ===== src/Surface/Rollup.antt =====
-- surface.go: `SurfaceHash`, the era-tagged rollup.
use surfacelock.Prelude.{Option, List, [], ◌∷◌, ◌++◌}
use surfacelock.Prelude.Bytes.{Bytes, codes}
use surfacelock.External.{External}
use surfacelock.Canonical.{hash_canonical}
use surfacelock.Go.Json.Strings.{marshal_string}
use surfacelock.Surface.Tool.{Tool}

-- `entry` as json.Marshal writes it.
unfoldable pub marshal_entry : Tool → Bytes
marshal_entry t =
    codes "{\"h_tool\":"
    ++ (marshal_string t.h_tool ++ (codes ",\"name\":" ++ (marshal_string t.name ++ codes "}")))

unfoldable pub marshal_entries : List Tool → Bytes
unfolding marshal_entry
marshal_entries [] = []
marshal_entries (t ∷ []) = marshal_entry t
marshal_entries (t ∷ u ∷ ts) = marshal_entry t ++ (codes "," ++ marshal_entries (u ∷ ts))

-- The preimage: `pre` as json.Marshal writes it.
unfoldable pub preimage : Bytes → Bytes → List Tool → Bytes
unfolding marshal_entries
preimage era h_instr tools =
    codes "{\"era\":"
    ++ (marshal_string era
        ++ (codes ",\"h_instructions\":"
            ++ (marshal_string h_instr
                ++ (codes ",\"tools\":[" ++ (marshal_entries tools ++ codes "]}")))))

module _ ⦃ext : External⦄ where
  -- SurfaceHash of a surface with this era, `HInstr` and tools.
  unfoldable pub surface_hash : Bytes → Bytes → List Tool → Option Bytes
  surface_hash era h_instr tools = hash_canonical (preimage era h_instr tools)
