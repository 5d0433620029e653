-- ===== src/Conformance/Grade/Dead.antt =====
-- Captures of a target that nothing reached.
use surfacelock.Prelude.{
  ◌≡◌, refl, subst, inl, inr, true, false, some, List, [], ◌∷◌, arith, Bool-cases, Option-cases,
  any, All,
}
use surfacelock.Prelude.Bytes.{Bytes, codes, eq_bytes}
use surfacelock.Prelude.Results.{err}
use surfacelock.External.{External}
use surfacelock.Conformance.Exchange.{
  Exchange, Capture, stateless_era, silence, find_in, find, header,
}
use surfacelock.Conformance.View.{view_of, succeeded, is_unreached}
use surfacelock.Conformance.Cells.{Outcome, Cell, unreached, cell, join}
use surfacelock.Conformance.Cells.Verdicts.{is_graded, any-append}
use surfacelock.Conformance.Tools.{
  page_probes, recorded, tools_pages, graded_probe, Seen, grade_page, grade_pages, first_outcome,
  bad_cursor_outcome, grade_tools_pages, grade_bad_cursor, identity_outcome, grade_identity,
  na_tools_cells,
}
use surfacelock.Conformance.Classic.{
  session_header, header_outcome, version_cells, refusal_outcome, session_cells,
}

-- The exchange failed on its way, other than by silence, before a header with a session or a content type
-- came back.
pub record IsDead (ex : Exchange) : Type 0 where
  pub failed : eq_bytes ex.transport_error [] ≡ false
  pub not_silence : eq_bytes ex.transport_error silence ≡ false
  pub no_session : eq_bytes (header ex session_header) [] ≡ true
  pub no_content : header ex (codes "Content-Type") ≡ []

pub find_in-All :
    (P : Exchange → Type 0) (exs : List Exchange) (probe : Bytes) (ex : Exchange)
    → All P exs
    → find_in exs probe ≡ some ex
    → P ex
unfolding find_in
find_in-All P [] probe ex a h = absurd (ground arith)
find_in-All P (x ∷ exs) probe ex a h = elim (Bool-cases (eq_bytes x.probe probe)) [
  | inl e ↦ let is : x ≡ ex = ground arith in subst P is a.0
  | inr e ↦ find_in-All P exs probe ex a.1 (ground arith)
]

-- No cell of the list counts for the verdict.
abbrev pub IsUngraded : List Cell → Type 0
IsUngraded cs = any is_graded cs ≡ false

pub IsUngraded-join : (css : List (List Cell)) → All IsUngraded css → IsUngraded (join css)
unfolding join
IsUngraded-join [] h = refl
IsUngraded-join (cs ∷ css) h =
    rw (any-append is_graded cs (join css), h.0) (IsUngraded-join css h.1)

pub IsUngraded-na : (ps : List Bytes) → IsUngraded (na_tools_cells ps)
unfolding na_tools_cells
IsUngraded-na [] = refl
IsUngraded-na (p ∷ ps) = IsUngraded-na ps

module _ ⦃ext : External⦄ where
  pub view_of-transport : (ex : Exchange) → (view_of ex).transport_error ≡ ex.transport_error
  unfolding view_of
  view_of-transport ex = ground arith

  pub Dead-failed : (ex : Exchange) → IsDead ex → succeeded (view_of ex) ≡ false
  unfolding succeeded
  Dead-failed ex d = rw (view_of-transport ex, d.failed) refl

  pub Dead-unreached : (ex : Exchange) → IsDead ex → is_unreached (view_of ex) ≡ true
  unfolding is_unreached
  Dead-unreached ex d = rw (view_of-transport ex, d.failed, d.not_silence) refl

  pub refusal-IsUngraded :
      (probe : Bytes) (ex : Exchange) → IsDead ex → IsUngraded (cell probe (refusal_outcome ex))
  unfolding refusal_outcome
  refusal-IsUngraded probe ex d = rw (Dead-unreached ex d) refl

  pub header-IsUngraded :
      (probe : Bytes) (ex : Exchange) → IsDead ex → IsUngraded (cell probe (header_outcome ex))
  unfolding header_outcome
  header-IsUngraded probe ex d = rw (Dead-unreached ex d) refl

  module _ (capture : Capture) (dead : All IsDead capture.exchanges) where
    pub found-IsDead : (probe : Bytes) (ex : Exchange) → find capture probe ≡ some ex → IsDead ex
    unfolding find
    found-IsDead probe ex h = find_in-All IsDead capture.exchanges probe ex dead h

    pub IsUngraded-probe :
        (probe : Bytes) (f : Exchange → Outcome)
        → ((ex : Exchange) → IsDead ex → IsUngraded (cell probe (f ex)))
        → IsUngraded (graded_probe capture probe (λ ex. cell probe (f ex)))
    unfolding graded_probe
    IsUngraded-probe probe f h = elim (Option-cases (find capture probe)) [
      | inl e ↦ rw (e, graded_probe) refl
      | inr (ex, e) ↦ rw (e, graded_probe) (h ex (found-IsDead probe ex e))
    ]

    page-unreached : (seen : Seen) (ex : Exchange) → IsDead ex → grade_page seen ex ≡ err unreached
    unfolding grade_page
    page-unreached seen ex d = rw (Dead-unreached ex d, grade_page) refl

    pages-unreached :
        (seen : Seen) (ex : Exchange) (exs : List Exchange)
        → IsDead ex
        → grade_pages seen ex exs ≡ unreached
    unfolding grade_pages
    pages-unreached seen ex [] d = rw (grade_pages, page-unreached seen ex d) refl
    pages-unreached seen ex (next ∷ exs) d = rw (grade_pages, page-unreached seen ex d) refl

    recorded-IsDead : (ps : List Bytes) → All IsDead (recorded capture ps)
    unfolding recorded
    recorded-IsDead [] = tt
    recorded-IsDead (p ∷ ps) = elim (Option-cases (find capture p)) [
      | inl e ↦ rw (e, recorded) (recorded-IsDead ps)
      | inr (ex, e) ↦ rw (e, recorded) (found-IsDead p ex e, recorded-IsDead ps)
    ]

    -- The cells of tools/list.
    pages-IsUngraded :
        (exs : List Exchange)
        → All IsDead exs
        → IsUngraded (cell (codes "T1.tools") (first_outcome exs))
    unfolding first_outcome
    pages-IsUngraded [] d = refl
    pages-IsUngraded (ex ∷ exs) d =
        rw (pages-unreached (record { names = []; cursors = [] }) ex exs d.0) refl

    tools_pages-IsDead : (era : Bytes) → All IsDead (tools_pages capture era)
    unfolding tools_pages
    tools_pages-IsDead era = elim (Bool-cases (eq_bytes era stateless_era)) [
      | inl e ↦ rw (e, tools_pages) (recorded-IsDead (codes "H3.cold" ∷ page_probes))
      | inr e ↦ rw (e, tools_pages) (recorded-IsDead page_probes)
    ]

    pub tools-IsUngraded : (era : Bytes) → IsUngraded (grade_tools_pages capture era)
    unfolding grade_tools_pages
    tools-IsUngraded era = pages-IsUngraded (tools_pages capture era) (tools_pages-IsDead era)

    pub cursor-IsUngraded : IsUngraded (grade_bad_cursor capture)
    unfolding grade_bad_cursor
    cursor-IsUngraded =
        IsUngraded-probe (codes "T2.badcursor") bad_cursor_outcome
          (λ ex d. unfold bad_cursor_outcome in rw (Dead-unreached ex d) refl)

    pub identity-IsUngraded : (probe : Bytes) → IsUngraded (grade_identity capture probe)
    unfolding grade_identity identity_outcome
    identity-IsUngraded probe = elim (Option-cases (find capture probe)) [
      | inl e ↦ rw (e, grade_identity) refl
      | inr (ex, e) ↦ rw (e, grade_identity, Dead-failed ex (found-IsDead probe ex e)) refl
    ]

    pub version-IsUngraded : (era : Bytes) → IsUngraded (version_cells capture era)
    unfolding version_cells
    version-IsUngraded era = elim (Option-cases (find capture (codes "T1.page0"))) [
      | inl e ↦ ground arith
      | inr (ex, e) ↦
          ground
            (arith, header-IsUngraded (codes "V1.header") ex (found-IsDead (codes "T1.page0") ex e))
    ]

    pub session-IsUngraded : (era : Bytes) → IsUngraded (session_cells capture era)
    unfolding session_cells
    session-IsUngraded era = elim (Option-cases (find capture (codes "S1.nosession"))) [
      | inl e ↦ ground arith
      | inr (ex, e) ↦ ground (
        arith,
        refusal-IsUngraded (codes "S1.session") ex (found-IsDead (codes "S1.nosession") ex e),
      )
    ]
