-- ===== src/Conformance/Stateless.antt =====
-- conformance/grade.go: `gradeStateless`, the cells of the revision without a handshake.
use surfacelock.Prelude.{
  ℕ, ◌+◌, Bool, false, not, ◌&&◌, ◌||◌, none, some, List, [], ◌∷◌, ◌++◌, ◌==◌, if◌then◌else◌,
  lookup,
}
use surfacelock.Prelude.Bytes.{Bytes, codes, eq_bytes, contains}
use surfacelock.External.{External}
use surfacelock.Go.Json.Unmarshal.{unmarshal_string}
use surfacelock.Go.Text.{has_prefix}
use surfacelock.Conformance.Exchange.{Exchange, Capture, stateless_era, find, header, is_http}
use surfacelock.Conformance.View.{
  View, view_of, result_string, result_strings, carries, succeeded, is_unreached, refused, in_2xx,
}
use surfacelock.Conformance.Cells.{
  Outcome, Cell, pass, must_violation, should_violation, observed, not_applicable, unreached, cell,
  join,
}
use surfacelock.Conformance.Tools.{
  graded_probe, grade_tools_pages, grade_bad_cursor, has_tools_capability, grade_identity,
  is_accepted_batch, na_tools_cells, is_code,
}
use surfacelock.Conformance.Classic.{session_header, refusal_outcome, header_outcome}

-- `len(supported) == 1 && supported[0] == StatelessEra`
unfoldable pub is_single_era : List Bytes → Bool
is_single_era (s ∷ []) = eq_bytes s stateless_era
is_single_era _ = false

module _ ⦃ext : External⦄ where
  unfoldable pub discover_outcome : Exchange → Outcome
  discover_outcome ex =
      let v = view_of ex in
      if not (eq_bytes v.transport_error [])
      then unreached
      else if not (succeeded v)
      then must_violation
      else if not (contains (result_strings ex.message (codes "supportedVersions")) stateless_era)
          || (not (carries v (codes "serverInfo")) || not (carries v (codes "capabilities")))
      then must_violation
      else pass

  -- `supported`, empty until D1 succeeds.
  unfoldable pub supported : Capture → List Bytes
  supported capture = elim (find capture (codes "D1.discover")) [
    | none ↦ []
    | some ex ↦
        let v = view_of ex in
        if eq_bytes v.transport_error [] && succeeded v
        then result_strings ex.message (codes "supportedVersions")
        else []
  ]

  unfoldable pub legacy_init_outcome : Exchange → Outcome
  legacy_init_outcome ex =
      let v = view_of ex in
      if is_unreached v
      then unreached
      else if refused v
      then pass
      else if eq_bytes (result_string ex.message (codes "protocolVersion")) []
      then must_violation
      else observed

  -- H3
  unfoldable pub stateless_cold_cells : Capture → Bool → List Cell
  stateless_cold_cells capture tools =
      if not tools
      then na_tools_cells (codes "H3.cold" ∷ [])
      else graded_probe capture (codes "H3.cold") (λ ex. cell (codes "H3.cold") (header_outcome ex))

  -- The loop of S2: whether a session was minted, and whether anything answered before that.
  unfoldable pub session_sweep : List Exchange → Bool × Bool
  session_sweep [] = (false, false)
  session_sweep (ex ∷ exs) =
      let answered = not (is_unreached (view_of ex)) in
      let rest = session_sweep exs in
      if not (eq_bytes (header ex session_header) [])
      then (not (eq_bytes ex.probe []), answered)
      else (rest.0, answered || rest.1)

  unfoldable pub no_session_outcome : List Exchange → Outcome
  unfolding session_sweep
  no_session_outcome exs =
      let (minted, answered) = session_sweep exs in
      if minted then must_violation else if not answered then unreached else pass

  -- S2
  unfoldable pub no_session_cells : Capture → List Cell
  no_session_cells capture =
      cell (codes "S2.nosession")
        (if is_http capture then no_session_outcome capture.exchanges else not_applicable)

  unfoldable pub stateless_tools_cells : Capture → Bool → List Cell
  stateless_tools_cells capture tools =
      if tools
      then grade_tools_pages capture stateless_era ++ grade_bad_cursor capture
      else na_tools_cells (codes "T1.tools" ∷ codes "T2.badcursor" ∷ [])

  unfoldable pub batch_outcome : Exchange → Outcome
  batch_outcome ex =
      let v = view_of ex in
      if is_unreached v then unreached else if is_accepted_batch v then must_violation else pass

  unfoldable pub mismatch_outcome : Exchange → Outcome
  mismatch_outcome ex =
      let v = view_of ex in
      if is_unreached v
      then unreached
      else if not (refused v)
      then must_violation
      else if v.is_error && is_code 32022 v.error_code
      then pass
      else should_violation

  -- V2
  unfoldable pub mismatch_cells : Capture → Bool → List Cell
  mismatch_cells capture tools =
      if not tools
      then na_tools_cells (codes "V2.mismatch" ∷ [])
      else graded_probe capture (codes "V2.mismatch")
          (λ ex. cell (codes "V2.mismatch") (mismatch_outcome ex))

  unfoldable pub cacheable_outcome : Exchange → Outcome
  cacheable_outcome ex =
      let v = view_of ex in
      if succeeded v
      then (if carries v (codes "ttlMs") && carries v (codes "cacheScope")
          then pass
          else must_violation)
      else unreached

  -- The cacheable cell: a probe that is not recorded has no cell.
  unfoldable pub cacheable_cells : Capture → Bool → List Cell
  cacheable_cells capture tools =
      if not tools
      then na_tools_cells (codes "C1.cacheable" ∷ [])
      else elim (find capture (codes "H3.cold")) [
        | none ↦ []
        | some ex ↦ cell (codes "C1.cacheable") (cacheable_outcome ex)
      ]

  -- `resultType` is "complete".
  unfoldable pub is_typed_result : View → Bool
  is_typed_result v = elim v.result [
    | none ↦ false
    | some m ↦ elim (lookup (codes "resultType") m) [
      | none ↦ false
      | some raw ↦ elim (unmarshal_string raw) [
        | none ↦ false
        | some t ↦ eq_bytes t (codes "complete")
      ]
    ]
  ]

  -- The loop of R1: the outcome, from the number of successful results so far.
  unfoldable pub result_sweep : ℕ → List Exchange → Outcome
  result_sweep n [] = if n == 0 then unreached else pass
  result_sweep n (ex ∷ exs) =
      let v = view_of ex in
      let skip = eq_bytes ex.probe (codes "H1.init") || not (succeeded v) in
      let rest = result_sweep (if skip then n else n + 1) exs in
      if not skip && not (is_typed_result v) then must_violation else rest

  -- G1
  unfoldable pub get_outcome : List Bytes → Exchange → Outcome
  unfolding is_single_era
  get_outcome versions ex =
      if (has_prefix (header ex (codes "Content-Type")) (codes "text/event-stream")
          && in_2xx ex.status)
        && is_single_era versions
      then should_violation
      else observed

  unfoldable pub get_cells : Capture → List Cell
  get_cells capture = if not (is_http capture) then [] else elim (find capture (codes "G1.get")) [
    | none ↦ []
    | some ex ↦ cell (codes "G1.get") (get_outcome (supported capture) ex)
  ]

  -- gradeStateless
  unfoldable pub grade_stateless : Capture → List Cell
  grade_stateless capture =
      let tools = has_tools_capability capture (codes "D1.discover") in
      join (
        graded_probe capture (codes "D1.discover")
          (λ ex. cell (codes "D1.discover") (discover_outcome ex))
        ∷ graded_probe capture (codes "D2.nometa")
            (λ ex. cell (codes "D2.nometa") (refusal_outcome ex))
        ∷ graded_probe capture (codes "H1.init")
            (λ ex. cell (codes "H1.init") (legacy_init_outcome ex))
        ∷ stateless_cold_cells capture tools
        ∷ no_session_cells capture
        ∷ stateless_tools_cells capture tools
        ∷ graded_probe capture (codes "B1.batch") (λ ex. cell (codes "B1.batch") (batch_outcome ex))
        ∷ mismatch_cells capture tools
        ∷ cacheable_cells capture tools
        ∷ cell (codes "R1.resulttype") (result_sweep 0 capture.exchanges)
        ∷ get_cells capture
        ∷ grade_identity capture (codes "D1.discover")
        ∷ [])
