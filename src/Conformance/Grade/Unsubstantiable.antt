-- ===== src/Conformance/Grade/Unsubstantiable.antt =====
-- A capture of a target that was never reached is not graded.
use surfacelock.Prelude.{
  ◌≡◌, refl, inl, inr, Bool, true, false, [], ◌∷◌, ◌++◌, arith, Bool-cases, Option-cases, any, All,
}
use surfacelock.Prelude.Bytes.{Bytes, codes, eq_bytes}
use surfacelock.Prelude.Results.{err}
use surfacelock.External.{External}
use surfacelock.Conformance.Exchange.{Capture, stateless_era, find, is_http}
use surfacelock.Conformance.Cells.{ungraded}
use surfacelock.Conformance.Cells.Verdicts.{is_graded, any-append, verdict_of_lem}
use surfacelock.Conformance.Tools.{grade_tools_pages, grade_bad_cursor, has_tools_capability}
use surfacelock.Conformance.Classic.{
  init_outcome, newer_outcome, cold_outcome, classic_discover_outcome, header_outcome,
  refusal_outcome, classic_tools_cells, classic_batch_outcome, classic_get_cells, grade_classic,
}
use surfacelock.Conformance.Stateless.{
  discover_outcome, supported, legacy_init_outcome, stateless_cold_cells, no_session_outcome,
  no_session_cells, stateless_tools_cells, batch_outcome, mismatch_outcome, mismatch_cells,
  cacheable_outcome, cacheable_cells, get_cells, grade_stateless,
}
use surfacelock.Conformance.Grade.{unsubstantiable, graded_cells, grade, validate_era_claim}
use surfacelock.Conformance.Grade.Dead.{
  IsDead, IsUngraded, IsUngraded-join, IsUngraded-na, Dead-failed, found-IsDead, IsUngraded-probe,
  refusal-IsUngraded, header-IsUngraded, tools-IsUngraded, cursor-IsUngraded, identity-IsUngraded,
  version-IsUngraded, session-IsUngraded,
}
use surfacelock.Conformance.Stateless.{batch_outcome}
use surfacelock.Conformance.Grade.Outcomes.{
  sweep-dead, results-dead, get_outcome-dead, legacy-IsUngraded, init-IsUngraded, newer-IsUngraded,
  discover-IsUngraded, cold-IsUngraded, classic_discover-IsUngraded, batch-IsUngraded,
  classic_batch-IsUngraded, mismatch-IsUngraded,
}

module _ ⦃ext : External⦄ where
  module _ (capture : Capture) (dead : All IsDead capture.exchanges) where
    get-IsUngraded : IsUngraded (get_cells capture)
    unfolding get_cells
    get-IsUngraded = elim (Option-cases (find capture (codes "G1.get"))) [
      | inl e ↦ ground arith
      | inr (ex, e) ↦ ground (
        arith,
        get_outcome-dead (supported capture) ex (found-IsDead capture dead (codes "G1.get") ex e),
      )
    ]

    classic_get-IsUngraded : (era : Bytes) → IsUngraded (classic_get_cells capture era)
    unfolding classic_get_cells
    classic_get-IsUngraded era = ground arith

    cacheable-IsUngraded : (tools : Bool) → IsUngraded (cacheable_cells capture tools)
    unfolding cacheable_cells cacheable_outcome
    cacheable-IsUngraded tools = elim (Option-cases (find capture (codes "H3.cold"))) [
      | inl e ↦ ground (arith, IsUngraded-na (codes "C1.cacheable" ∷ []))
      | inr (ex, e) ↦ ground (
        arith,
        IsUngraded-na (codes "C1.cacheable" ∷ []),
        Dead-failed ex (found-IsDead capture dead (codes "H3.cold") ex e),
      )
    ]

    cold_cells-IsUngraded : (tools : Bool) → IsUngraded (stateless_cold_cells capture tools)
    unfolding stateless_cold_cells
    cold_cells-IsUngraded true =
        IsUngraded-probe capture dead (codes "H3.cold") header_outcome
          (header-IsUngraded (codes "H3.cold"))
    cold_cells-IsUngraded false = IsUngraded-na (codes "H3.cold" ∷ [])

    mismatch_cells-IsUngraded : (tools : Bool) → IsUngraded (mismatch_cells capture tools)
    unfolding mismatch_cells
    mismatch_cells-IsUngraded true =
        IsUngraded-probe capture dead (codes "V2.mismatch") mismatch_outcome
          (mismatch-IsUngraded (codes "V2.mismatch"))
    mismatch_cells-IsUngraded false = IsUngraded-na (codes "V2.mismatch" ∷ [])

    no_session-IsUngraded : IsUngraded (no_session_cells capture)
    unfolding no_session_cells no_session_outcome
    no_session-IsUngraded = elim (Bool-cases (is_http capture)) [
      | inl e ↦ rw (no_session_cells, e, no_session_outcome, sweep-dead capture.exchanges dead) refl
      | inr e ↦ rw (no_session_cells, e) refl
    ]

    both-IsUngraded :
        (era : Bytes) → IsUngraded (grade_tools_pages capture era ++ grade_bad_cursor capture)
    both-IsUngraded era =
        rw
          (
            any-append is_graded (grade_tools_pages capture era) (grade_bad_cursor capture),
            tools-IsUngraded capture dead era,
          )
          (cursor-IsUngraded capture dead)

    stateless_tools-IsUngraded : (tools : Bool) → IsUngraded (stateless_tools_cells capture tools)
    unfolding stateless_tools_cells
    stateless_tools-IsUngraded true = both-IsUngraded stateless_era
    stateless_tools-IsUngraded false = IsUngraded-na (codes "T1.tools" ∷ codes "T2.badcursor" ∷ [])

    classic_tools-IsUngraded : (era : Bytes) → IsUngraded (classic_tools_cells capture era)
    unfolding classic_tools_cells
    classic_tools-IsUngraded era =
        elim (Bool-cases (has_tools_capability capture (codes "H1.init"))) [
          | inl e ↦ rw (classic_tools_cells, e) (both-IsUngraded era)
          | inr e ↦
              rw (classic_tools_cells, e)
                (IsUngraded-na (codes "T1.tools" ∷ codes "T2.badcursor" ∷ []))
        ]

    classic-IsUngraded : IsUngraded (grade_classic capture)
    unfolding grade_classic
    classic-IsUngraded =
        let era = capture.era in
        IsUngraded-join _ (
          IsUngraded-probe capture dead (codes "H1.init") (init_outcome era)
              (init-IsUngraded era (codes "H1.init")),
          (
            IsUngraded-probe capture dead (codes "H2.newer") newer_outcome
                (newer-IsUngraded (codes "H2.newer")),
            (
              IsUngraded-probe capture dead (codes "H3.cold") cold_outcome
                  (cold-IsUngraded (codes "H3.cold")),
              (
                IsUngraded-probe capture dead (codes "D1.discover") classic_discover_outcome
                    (classic_discover-IsUngraded (codes "D1.discover")),
                (
                  version-IsUngraded capture dead era,
                  (
                    session-IsUngraded capture dead era,
                    (
                      classic_tools-IsUngraded era,
                      (
                        IsUngraded-probe capture dead (codes "B1.batch") (classic_batch_outcome era)
                            (classic_batch-IsUngraded era (codes "B1.batch")),
                        (
                          classic_get-IsUngraded era,
                          (identity-IsUngraded capture dead (codes "H1.init"), tt),
                        ),
                      ),
                    ),
                  ),
                ),
              ),
            ),
          ),
        )

    stateless-IsUngraded : IsUngraded (grade_stateless capture)
    unfolding grade_stateless
    stateless-IsUngraded =
        let tools = has_tools_capability capture (codes "D1.discover") in
        IsUngraded-join _ (
          IsUngraded-probe capture dead (codes "D1.discover") discover_outcome
              (discover-IsUngraded (codes "D1.discover")),
          (
            IsUngraded-probe capture dead (codes "D2.nometa") refusal_outcome
                (refusal-IsUngraded (codes "D2.nometa")),
            (
              IsUngraded-probe capture dead (codes "H1.init") legacy_init_outcome
                  (legacy-IsUngraded (codes "H1.init")),
              (
                cold_cells-IsUngraded tools,
                (
                  no_session-IsUngraded,
                  (
                    stateless_tools-IsUngraded tools,
                    (
                      IsUngraded-probe capture dead (codes "B1.batch") batch_outcome
                          (batch-IsUngraded (codes "B1.batch")),
                      (
                        mismatch_cells-IsUngraded tools,
                        (
                          cacheable-IsUngraded tools,
                          (
                            rw (results-dead 0 capture.exchanges dead) refl,
                            (
                              get-IsUngraded,
                              (identity-IsUngraded capture dead (codes "D1.discover"), tt),
                            ),
                          ),
                        ),
                      ),
                    ),
                  ),
                ),
              ),
            ),
          ),
        )

    graded-IsUngraded : IsUngraded (graded_cells capture)
    unfolding graded_cells
    graded-IsUngraded = elim (Bool-cases (eq_bytes capture.era stateless_era)) [
      | inl e ↦ rw (graded_cells, e) stateless-IsUngraded
      | inr e ↦ rw (graded_cells, e) classic-IsUngraded
    ]

  -- When every exchange of a capture failed on its way, other than by silence, and brought no
  -- session and no content type back, no cell of the report counts, its verdict is `ungraded`, and
  -- the claim that the target speaks the revision is answered by the error that it cannot be
  -- substantiated, never accepted.
  pub validate_era_claim-unsubstantiable :
      (capture : Capture)
      → All IsDead capture.exchanges
      → any is_graded (grade capture).cells ≡ false
        × ((grade capture).verdict ≡ ungraded)
        × (validate_era_claim (grade capture) ≡ err unsubstantiable)
  unfolding grade validate_era_claim
  validate_era_claim-unsubstantiable capture dead =
      let none_graded = graded-IsUngraded capture dead in
      let verdict = (verdict_of_lem (graded_cells capture)).1.1 none_graded in
      (none_graded, verdict, rw (verdict) refl)
