-- ===== src/Conformance/Tools.antt =====
-- conformance/grade.go: the cells that both kinds of revision share.
use surfacelock.Prelude.{
  ℕ, ◌+◌, Bool, true, false, not, ◌&&◌, ◌||◌, Option, none, some, List, [], ◌∷◌, ◌==◌,
  if◌then◌else◌, Map, lookup,
}
use surfacelock.Prelude.Bytes.{Bytes, codes, eq_bytes, contains}
use surfacelock.Prelude.Results.{Result, ok, err}
use surfacelock.External.{External}
use surfacelock.Go.Json.Unmarshal.{unmarshal_map, unmarshal_string}
use surfacelock.Go.Json.Struct.{ℤ, pos, negsuc, unmarshal_maps, unmarshal_struct, set_string}
use surfacelock.Conformance.Exchange.{Exchange, Capture, stateless_era, find}
use surfacelock.Conformance.View.{
  View, view_of, result_string, succeeded, is_unreached, refused, in_2xx,
}
use surfacelock.Conformance.Cells.{
  Outcome, Cell, pass, must_violation, should_violation, not_applicable, unreached, cell,
}
use surfacelock.Decode.{equal_fold}
use surfacelock.Go.Json.Value.{Value}
use mathlib.Core.Option

abbrev pub page_probes : List Bytes
page_probes =
    codes "T1.page0"
    ∷ codes "T1.page1"
    ∷ codes "T1.page2"
    ∷ codes "T1.page3"
    ∷ codes "T1.page4"
    ∷ codes "T1.page5"
    ∷ codes "T1.page6"
    ∷ codes "T1.page7"
    ∷ []

-- The exchanges that are recorded under the probes.
unfoldable pub recorded : Capture → List Bytes → List Exchange
recorded capture [] = []
recorded capture (p ∷ ps) = elim (find capture p) [
  | none ↦ recorded capture ps
  | some ex ↦ ex ∷ recorded capture ps
]

-- `pages`
unfoldable pub tools_pages : Capture → Bytes → List Exchange
unfolding recorded
tools_pages capture era =
    if eq_bytes era stateless_era
    then recorded capture (codes "H3.cold" ∷ page_probes)
    else recorded capture page_probes

-- missing: the cell of a probe that is not recorded, or what its exchange is graded as.
unfoldable pub graded_probe : Capture → Bytes → (Exchange → List Cell) → List Cell
graded_probe capture probe grade = elim (find capture probe) [
  | none ↦ cell probe unreached
  | some ex ↦ grade ex
]

-- The loop over one page's tools: the names seen after it, `none` at a violation.
unfoldable pub list_names : List Bytes → List (Map Bytes) → Option (List Bytes)
list_names seen [] = some seen
list_names seen (t ∷ ts) = elim (lookup (codes "name") t) [
  | none ↦ none
  | some raw ↦ elim (unmarshal_string raw) [
    | none ↦ none
    | some name ↦
        let rest = list_names (name ∷ seen) ts in
        if eq_bytes name [] || contains seen name then none else rest
  ]
]

-- `v.errCode == -code`
abbrev pub is_code : ℕ → ℤ → Bool
is_code code (pos n) = code == 0 && n == 0
is_code code (negsuc n) = n + 1 == code

-- What the loop over the pages has seen: the names and the cursors.
pub record Seen : Type 0 where
  pub names : List Bytes
  pub cursors : List Bytes

-- serverInfo's struct.
pub record Info : Type 0 where
  pub name : Bytes
  pub version : Bytes

module _ ⦃ext : External⦄ where
  -- The tools of one page, `none` at a violation.
  unfoldable pub page_entries : View → Option (List (Map Bytes))
  page_entries v = elim v.result [
    | none ↦ none
    | some m ↦ elim (lookup (codes "tools") m) [ none ↦ none | some raw ↦ unmarshal_maps raw ]
  ]

  -- One page: what is seen after it, or the outcome that ends the loop.
  unfoldable pub grade_page : Seen → Exchange → Result Outcome Seen
  unfolding page_entries
  grade_page seen ex =
      let v = view_of ex in
      if is_unreached v
      then err unreached
      else if not (succeeded v)
      then err must_violation
      else elim (page_entries v) [
        | none ↦ err must_violation
        | some tools ↦ elim (list_names seen.names tools) [
          | none ↦ err must_violation
          | some names ↦
              let cursor = result_string ex.message (codes "nextCursor") in
              if eq_bytes cursor []
              then ok (record seen { names = names })
              else if contains seen.cursors cursor
              then err must_violation
              else ok (record { names = names; cursors = cursor ∷ seen.cursors })
        ]
      ]

  -- The loop; an unfinished walk is seen on its last page.
  unfoldable pub grade_pages : Seen → Exchange → List Exchange → Outcome
  grade_pages seen ex [] = elim (grade_page seen ex) [
    | err o ↦ o
    | ok after ↦
        if eq_bytes (result_string ex.message (codes "nextCursor")) [] then pass else unreached
  ]
  grade_pages seen ex (next ∷ exs) = elim (grade_page seen ex) [
    | err o ↦ o
    | ok after ↦ grade_pages after next exs
  ]

  -- The loop from its start.
  unfoldable pub first_outcome : List Exchange → Outcome
  first_outcome [] = unreached
  first_outcome (ex ∷ exs) = grade_pages (record { names = []; cursors = [] }) ex exs

  -- gradeToolsPages
  unfoldable pub grade_tools_pages : Capture → Bytes → List Cell
  unfolding first_outcome
  grade_tools_pages capture era = cell (codes "T1.tools") (first_outcome (tools_pages capture era))

  unfoldable pub bad_cursor_outcome : Exchange → Outcome
  bad_cursor_outcome ex =
      let v = view_of ex in
      if is_unreached v
      then unreached
      else if v.is_error && is_code 32602 v.error_code
      then pass
      else if refused v
      then pass
      else should_violation

  -- gradeBadCursor
  unfoldable pub grade_bad_cursor : Capture → List Cell
  grade_bad_cursor capture =
      graded_probe capture (codes "T2.badcursor")
        (λ ex. cell (codes "T2.badcursor") (bad_cursor_outcome ex))

  -- hasToolsCapability
  unfoldable pub has_tools_capability : Capture → Bytes → Bool
  has_tools_capability capture probe = elim (find capture probe) [
    | none ↦ true
    | some ex ↦ elim (view_of ex).result [
      | none ↦ true
      | some m ↦ elim (lookup (codes "capabilities") m) [
        | none ↦ true
        | some raw ↦ elim (unmarshal_map raw) [
          | none ↦ true
          | some caps ↦ elim (lookup (codes "tools") caps) [ none ↦ false | some t ↦ true ]
        ]
      ]
    ]
  ]

  unfoldable pub assign_info : Info → Bytes → Bytes → Value → Option Info
  assign_info i k raw v =
      if equal_fold k (codes "name")
      then Option.map (λ (s : Bytes). record i { name = s }) (set_string i.name v)
      else if equal_fold k (codes "version")
      then Option.map (λ (s : Bytes). record i { version = s }) (set_string i.version v)
      else some i

  -- `none` where the struct cannot be read or is incomplete.
  unfoldable pub is_complete_info : Bytes → Bool
  unfolding assign_info
  is_complete_info raw =
      elim (unmarshal_struct assign_info (record { name = []; version = [] }) raw) [
        | none ↦ false
        | some i ↦ not (eq_bytes i.name []) && not (eq_bytes i.version [])
      ]

  unfoldable pub identity_outcome : View → Outcome
  identity_outcome v = if not (succeeded v) then unreached else elim v.result [
    | none ↦ unreached
    | some m ↦ elim (lookup (codes "serverInfo") m) [
      | none ↦ unreached
      | some raw ↦ if is_complete_info raw then pass else should_violation
    ]
  ]

  -- gradeIdentity
  unfoldable pub grade_identity : Capture → Bytes → List Cell
  unfolding identity_outcome
  grade_identity capture probe = elim (find capture probe) [
    | none ↦ cell (codes "I1.identity") unreached
    | some ex ↦ cell (codes "I1.identity") (identity_outcome (view_of ex))
  ]

-- `v.isBatch` with a status that accepts it.
unfoldable pub is_accepted_batch : View → Bool
is_accepted_batch v = v.is_batch && (v.status == 0 || in_2xx v.status)

-- naToolsCells
unfoldable pub na_tools_cells : List Bytes → List Cell
na_tools_cells [] = []
na_tools_cells (p ∷ ps) = record { probe = p; outcome = not_applicable } ∷ na_tools_cells ps
