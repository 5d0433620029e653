-- ===== src/Surface/Admit.antt =====
-- surface.go: `Admit`, from the pages of a fetch to a surface.
pub mod Sorting
pub mod Offered
pub mod Bounds
use surfacelock.Prelude.{
  ℕ, ◌+◌, Bool, false, not, ◌&&◌, ◌||◌, Option, none, some, List, [], ◌∷◌, ◌++◌, ltb, leb,
  if◌then◌else◌, length, Map, lookup,
}
use surfacelock.Prelude.Bytes.{Bytes, codes, eq_bytes, lt_bytes, contains}
use surfacelock.Prelude.Results.{Result, ok, ◌>>=◌, ◌>>◌, refuse_if}
use surfacelock.External.{External}
use surfacelock.Canonical.{absent_sentinel, canonicalize, hash_canonical}
use surfacelock.Decode.{is_variant}
use surfacelock.Names.{check_era}
use surfacelock.Go.Utf8.{valid}
use surfacelock.Go.Json.Unmarshal.{unmarshal_map, unmarshal_list, unmarshal_string}
use surfacelock.Surface.Tool
use surfacelock.Surface.Tool.{
  Tool, Limits, Inadmissible, is_null, present, from_option, refuse_some, admit_tool, bad_era,
  unknown_flow, instructions_not_utf8, instructions_not_string, instructions_too_long,
  instructions_not_canonical, too_many_pages, page_too_long, page_not_utf8, page_not_canonical,
  page_not_object, page_key_variant, tools_not_array, too_many_tools, duplicate_tool,
  surface_too_long,
}

-- ServerInfo; "" stands for a field that is left out.
pub record ServerInfo : Type 0 where
  pub name : Bytes
  pub version : Bytes

-- RawSurface; `none` is a nil RawMessage.
pub record RawSurface : Type 0 where
  pub offered : Bytes
  pub era : Bytes
  pub flow : Bytes
  pub instructions : Option Bytes
  pub server_info : Option Bytes
  pub pages : List Bytes

-- Surface
pub record Surface : Type 0 where
  pub offered : Bytes
  pub era : Bytes
  pub flow : Bytes
  pub instructions : Option Bytes
  pub h_instr : Bytes
  pub tools : List Tool
  pub server_info : Option ServerInfo

-- FlowStateless, FlowClassic
abbrev pub flow_stateless : Bytes
flow_stateless = codes "stateless"

abbrev pub flow_classic : Bytes
flow_classic = codes "classic"

-- The closure `keep` of sanitizeServerInfo, given `fields[key]`.
unfoldable pub keep : Option Bytes → Bytes
keep none = []
keep (some raw) =
    if not (valid raw)
    then []
    else elim (unmarshal_string raw) [ none ↦ [] | some v ↦ if ltb 256 (length v) then [] else v ]

-- sanitizeServerInfo
unfoldable pub sanitize_server_info : Option Bytes → Option ServerInfo
sanitize_server_info none = none
sanitize_server_info (some raw) = elim (unmarshal_map raw) [
  | none ↦ none
  | some fields ↦
      let name = keep (lookup (codes "name") fields) in
      let version = keep (lookup (codes "version") fields) in
      if eq_bytes name [] && eq_bytes version []
      then none
      else some (record { name = name; version = version })
]

-- The variables of the loop over pages: `s.Tools`, the keys of `seen`, `totalBytes`.
pub record Progress : Type 0 where
  pub tools : List Tool
  pub seen : List Bytes
  pub total : ℕ

-- sort.Slice of `s.Tools` by name; the names differ, so every sort has this result.
unfoldable pub insert_tool : Tool → List Tool → List Tool
insert_tool t [] = t ∷ []
insert_tool t (u ∷ us) = if lt_bytes t.name u.name then t ∷ u ∷ us else u ∷ insert_tool t us

unfoldable pub sort_tools : List Tool → List Tool
sort_tools [] = []
sort_tools (t ∷ ts) = insert_tool t (sort_tools ts)

module _ ⦃ext : External⦄ where
  -- The instructions: the decoded text and its hash.
  unfoldable pub admit_instructions :
      Option Bytes → Limits → Result Inadmissible (Option Bytes × Bytes)
  admit_instructions none lim = ok (none, absent_sentinel)
  admit_instructions (some raw) lim = if is_null raw then ok (none, absent_sentinel) else do
    refuse_if (not (valid raw)) instructions_not_utf8
    instr ← from_option (unmarshal_string raw) instructions_not_string
    refuse_if (ltb lim.max_instructions_bytes (length instr)) instructions_too_long
    h ← from_option (hash_canonical raw) instructions_not_canonical
    ok (some instr, h)

  -- One turn of the loop over `pageTools`.
  unfoldable pub admit_one : Limits → Progress → Bytes → Result Inadmissible Progress
  admit_one lim p raw = do
    refuse_if (leb lim.max_tools (length p.tools)) too_many_tools
    t ← admit_tool raw lim
    refuse_if (contains p.seen t.name) duplicate_tool
    refuse_if (ltb lim.max_surface_bytes (p.total + length t.canon)) surface_too_long
    ok (record {
      tools = p.tools ++ t ∷ [];
      seen = t.name ∷ p.seen;
      total = p.total + length t.canon;
    })

  unfoldable pub admit_all : Limits → Progress → List Bytes → Result Inadmissible Progress
  admit_all lim p [] = ok p
  admit_all lim p (raw ∷ raws) = admit_one lim p raw >>= λ q. admit_all lim q raws

  -- `k != "tools" && EqualFold(k, "tools")`, and the same for "nextCursor".
  unfoldable pub page_variant : Map Bytes → Bool
  page_variant [] = false
  page_variant ((k, v) ∷ m) =
      is_variant k (codes "tools") || (is_variant k (codes "nextCursor") || page_variant m)

  -- `obj["tools"]` of a page.
  unfoldable pub page_tools : Map Bytes → Result Inadmissible (List Bytes)
  page_tools obj = elim (present (codes "tools") obj) [
    | none ↦ ok []
    | some raw ↦ from_option (unmarshal_list raw) tools_not_array
  ]

  -- One turn of the loop over `raw.Pages`.
  unfoldable pub admit_page : Limits → Progress → Bytes → Result Inadmissible Progress
  admit_page lim p page = do
    refuse_if (ltb lim.max_page_bytes (length page)) page_too_long
    refuse_if (not (valid page)) page_not_utf8
    canon ← from_option (canonicalize page) page_not_canonical
    obj ← from_option (unmarshal_map page) page_not_object
    refuse_if (page_variant obj) page_key_variant
    raws ← page_tools obj
    admit_all lim p raws

  unfoldable pub admit_pages : Limits → Progress → List Bytes → Result Inadmissible Progress
  admit_pages lim p [] = ok p
  admit_pages lim p (page ∷ pages) = admit_page lim p page >>= λ q. admit_pages lim q pages

  -- Admit
  unfoldable pub admit : RawSurface → Limits → Result Inadmissible Surface
  admit raw lim = do
    refuse_some (check_era raw.era) bad_era
    refuse_if
        (not (
          eq_bytes raw.flow []
          || (eq_bytes raw.flow flow_stateless || eq_bytes raw.flow flow_classic)))
        unknown_flow
    instr ← admit_instructions raw.instructions lim
    refuse_if (ltb lim.max_pages (length raw.pages)) too_many_pages
    p ← admit_pages lim (record { tools = []; seen = []; total = 0 }) raw.pages
    ok (record {
      offered = raw.offered;
      era = raw.era;
      flow = raw.flow;
      instructions = instr.0;
      h_instr = instr.1;
      tools = sort_tools p.tools;
      server_info = sanitize_server_info raw.server_info;
    })
