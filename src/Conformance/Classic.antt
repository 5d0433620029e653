-- ===== src/Conformance/Classic.antt =====
-- conformance/grade.go: `gradeClassic`, the cells of a revision with a handshake.
use surfacelock.Prelude.{
  Bool, false, not, ◌&&◌, ◌||◌, none, some, List, [], ◌∷◌, ◌++◌, if◌then◌else◌,
}
use surfacelock.Prelude.Bytes.{Bytes, codes, eq_bytes, contains}
use surfacelock.External.{External}
use surfacelock.Conformance.Exchange.{Exchange, Capture, eras, stateless_era, find, header, is_http}
use surfacelock.Conformance.View.{
  view_of, result_string, result_strings, carries, succeeded, is_unreached, refused,
}
use surfacelock.Conformance.Cells.{
  Outcome, Cell, pass, must_violation, observed, not_applicable, unreached, cell, join,
}
use surfacelock.Conformance.Tools.{
  graded_probe, grade_tools_pages, grade_bad_cursor, has_tools_capability, grade_identity,
  is_accepted_batch, na_tools_cells,
}

abbrev pub session_header : Bytes
session_header = codes "Mcp-Session-Id"

-- The revisions whose requests carry the MCP-Protocol-Version header.
unfoldable pub has_version_header : Bytes → Bool
has_version_header era = eq_bytes era (codes "2025-06-18") || eq_bytes era (codes "2025-11-25")

abbrev pub first_era : Bytes
first_era = codes "2024-11-05"

module _ ⦃ext : External⦄ where
  unfoldable pub init_outcome : Bytes → Exchange → Outcome
  init_outcome era ex =
      let v = view_of ex in
      if not (eq_bytes v.transport_error [])
      then unreached
      else if not (succeeded v)
      then must_violation
      else if not (eq_bytes (result_string ex.message (codes "protocolVersion")) era)
          || (not (carries v (codes "serverInfo")) || not (carries v (codes "capabilities")))
      then must_violation
      else pass

  -- `negotiated`, "" until H1 succeeds.
  unfoldable pub negotiated : Capture → Bytes
  negotiated capture = elim (find capture (codes "H1.init")) [
    | none ↦ []
    | some ex ↦
        let v = view_of ex in
        if eq_bytes v.transport_error [] && succeeded v
        then result_string ex.message (codes "protocolVersion")
        else []
  ]

  unfoldable pub newer_outcome : Exchange → Outcome
  newer_outcome ex =
      let v = view_of ex in
      let got = result_string ex.message (codes "protocolVersion") in
      if not (eq_bytes v.transport_error [])
      then unreached
      else if not (succeeded v)
      then must_violation
      else if eq_bytes got []
      then must_violation
      else if eq_bytes got stateless_era
      then observed
      else if contains eras got
      then pass
      else must_violation

  unfoldable pub cold_outcome : Exchange → Outcome
  cold_outcome ex = if is_unreached (view_of ex) then unreached else observed

  unfoldable pub classic_discover_outcome : Exchange → Outcome
  classic_discover_outcome ex =
      let v = view_of ex in
      if is_unreached v
      then unreached
      else if not (succeeded v)
      then pass
      else elim (result_strings ex.message (codes "supportedVersions")) [
        | [] ↦ must_violation
        | s ∷ ss ↦ observed
      ]

  unfoldable pub header_outcome : Exchange → Outcome
  header_outcome ex =
      let v = view_of ex in
      if is_unreached v then unreached else if succeeded v then pass else must_violation

  -- V1
  unfoldable pub version_cells : Capture → Bytes → List Cell
  unfolding has_version_header header_outcome negotiated
  version_cells capture era =
      if not (has_version_header era)
      then []
      else if not (is_http capture)
      then cell (codes "V1.header") not_applicable
      else elim (find capture (codes "T1.page0")) [
        | none ↦ cell (codes "V1.header") unreached
        | some ex ↦
            if eq_bytes (negotiated capture) []
            then cell (codes "V1.header") unreached
            else cell (codes "V1.header") (header_outcome ex)
              ++ elim (find capture (codes "V1.noheader")) [
                | none ↦ []
                | some bare ↦ cell (codes "V1.noheader") observed
              ]
      ]

  unfoldable pub refusal_outcome : Exchange → Outcome
  refusal_outcome ex =
      let v = view_of ex in
      if is_unreached v then unreached else if refused v then pass else must_violation

  -- `sessionMinted`
  unfoldable pub session_minted : Capture → Bool
  session_minted capture = elim (find capture (codes "H1.init")) [
    | none ↦ false
    | some ex ↦ not (eq_bytes (header ex session_header) [])
  ]

  -- S1; `missing` names the cell of an exchange that is not recorded after its probe.
  unfoldable pub session_cells : Capture → Bytes → List Cell
  unfolding refusal_outcome session_minted
  session_cells capture era =
      if eq_bytes era first_era
      then (if is_http capture then cell (codes "S1.session") not_applicable else [])
      else if not (is_http capture)
      then cell (codes "S1.session") not_applicable
      else if not (session_minted capture)
      then cell (codes "S1.session") not_applicable
      else elim (find capture (codes "S1.nosession")) [
        | none ↦ cell (codes "S1.nosession") unreached
        | some ex ↦ cell (codes "S1.session") (refusal_outcome ex)
      ]

  unfoldable pub classic_tools_cells : Capture → Bytes → List Cell
  classic_tools_cells capture era =
      if has_tools_capability capture (codes "H1.init")
      then grade_tools_pages capture era ++ grade_bad_cursor capture
      else na_tools_cells (codes "T1.tools" ∷ codes "T2.badcursor" ∷ [])

  unfoldable pub classic_batch_outcome : Bytes → Exchange → Outcome
  classic_batch_outcome era ex =
      let v = view_of ex in
      if is_unreached v
      then unreached
      else if eq_bytes era first_era
      then observed
      else if eq_bytes era (codes "2025-03-26")
      then (if is_accepted_batch v then pass else must_violation)
      else if is_accepted_batch v
      then must_violation
      else pass

  -- G1
  unfoldable pub classic_get_cells : Capture → Bytes → List Cell
  classic_get_cells capture era =
      if not (is_http capture) then [] else elim (find capture (codes "G1.get")) [
        | none ↦ []
        | some ex ↦
            cell (codes "G1.get") (if eq_bytes era first_era then not_applicable else observed)
      ]

  -- gradeClassic
  unfoldable pub grade_classic : Capture → List Cell
  grade_classic capture =
      let era = capture.era in
      join (
        graded_probe capture (codes "H1.init") (λ ex. cell (codes "H1.init") (init_outcome era ex))
        ∷ graded_probe capture (codes "H2.newer") (λ ex. cell (codes "H2.newer") (newer_outcome ex))
        ∷ graded_probe capture (codes "H3.cold") (λ ex. cell (codes "H3.cold") (cold_outcome ex))
        ∷ graded_probe capture (codes "D1.discover")
            (λ ex. cell (codes "D1.discover") (classic_discover_outcome ex))
        ∷ version_cells capture era
        ∷ session_cells capture era
        ∷ classic_tools_cells capture era
        ∷ graded_probe capture (codes "B1.batch")
            (λ ex. cell (codes "B1.batch") (classic_batch_outcome era ex))
        ∷ classic_get_cells capture era
        ∷ grade_identity capture (codes "H1.init")
        ∷ [])
