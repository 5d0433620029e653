-- ===== src/Conformance/Cells/Verdicts.antt =====
-- The verdict against the outcomes of the cells.
use surfacelock.Prelude.{
  ◌≡◌, refl, ◌↔◌, Bool, true, false, not, ◌&&◌, ◌||◌, List, [], ◌∷◌, ◌++◌, arith, ltb, ◌==◌, any,
}
use surfacelock.Conformance.Cells.{
  Cell, Tally, pass, must_violation, should_violation, conformant_star, nonconformant, ungraded,
  count_cell, tally, verdict_of,
}

abbrev pub is_must : Cell → Bool
is_must c = elim c.outcome [ must_violation ↦ true | _ ↦ false ]

abbrev pub is_should : Cell → Bool
is_should c = elim c.outcome [ should_violation ↦ true | _ ↦ false ]

abbrev pub is_graded : Cell → Bool
is_graded c = elim c.outcome [
  | pass ↦ true
  | must_violation ↦ true
  | should_violation ↦ true
  | _ ↦ false
]

-- What the three counts say of the cells.
record Counted (t u : Tally) (cs : List Cell) : Type 0 where
  graded : (u.graded == 0) ≡ ((t.graded == 0) && not (any is_graded cs))
  must : ltb 0 u.must ≡ (ltb 0 t.must || any is_must cs)
  should : ltb 0 u.should ≡ (ltb 0 t.should || any is_should cs)

tally-Counted : (t : Tally) (cs : List Cell) → Counted t (tally t cs) cs
unfolding tally count_cell
tally-Counted t [] = ground arith
tally-Counted t (c ∷ cs) =
    let rest = tally-Counted (count_cell t c.outcome) cs in
    record {
      graded = ground (arith, rest.graded);
      must = ground (arith, rest.must);
      should = ground (arith, rest.should);
    }

pub any-append {ℓ} :
    {A : Type ℓ} (p : A → Bool) (xs ys : List A) → any p (xs ++ ys) ≡ (any p xs || any p ys)
any-append p [] ys = refl
any-append p (x ∷ xs) ys = ground (arith, any-append p xs ys)

-- A violation is a graded cell.
must-graded : (cs : List Cell) → any is_must cs ≡ true → any is_graded cs ≡ true
must-graded [] h = absurd (ground arith)
must-graded (c ∷ cs) h = ground (arith, must-graded cs)

should-graded : (cs : List Cell) → any is_should cs ≡ true → any is_graded cs ≡ true
should-graded [] h = absurd (ground arith)
should-graded (c ∷ cs) h = ground (arith, should-graded cs)

pub verdict_of_lem :
    (cs : List Cell)
    → ((verdict_of cs ≡ nonconformant) ↔ (any is_must cs ≡ true))
      × ((verdict_of cs ≡ ungraded) ↔ (any is_graded cs ≡ false))
      × ((verdict_of cs ≡ conformant_star) ↔ ((any is_must cs ≡ false) × (any is_should cs ≡ true)))
unfolding verdict_of
verdict_of_lem cs =
    let start : Tally = record { graded = 0; must = 0; should = 0 } in
    let counted = tally-Counted start cs in
    let m = must-graded cs in
    let s = should-graded cs in
    (
      (
        (λ h. ground (arith, counted.graded, counted.must, counted.should)),
        λ h. ground (arith, counted.graded, counted.must, m h),
      ),
      (
        (λ h. ground (arith, counted.graded, counted.must, counted.should)),
        λ h. ground (arith, counted.graded),
      ),
      (
        (λ h. ground (arith, counted.graded, counted.must, counted.should)),
        λ h. ground (arith, counted.graded, counted.must, counted.should, s h.1),
      ),
    )
