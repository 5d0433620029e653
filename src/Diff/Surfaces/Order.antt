-- ===== src/Diff/Surfaces/Order.antt =====
-- The order in which `Diff` reports the tools.
use surfacelock.Prelude.{
  ◌<◌, ◌≡◌, ◌==◌, ◌⊎◌, inl, inr, true, false, List, [], ◌∷◌, arith, Bool-cases, All,
}
use surfacelock.Prelude.Bytes.{lt_bytes, lt_bytes_trans, lt_bytes_asym}
use surfacelock.Diff.Class.{ToolDiff, severity}
use surfacelock.Diff.Surfaces.{before, insert_diff, sort_diffs}

-- One stands in front of the other: it is more severe, or as severe and its name does not come after
-- the other's by their bytes.
abbrev pub Precedes : ToolDiff → ToolDiff → Type 0
Precedes d e =
    (severity d < severity e) ⊎ ((severity d ≡ severity e) × (lt_bytes e.name d.name ≡ false))

abbrev pub IsOrdered : List ToolDiff → Type 0
IsOrdered [] = Unit {0}
IsOrdered (d ∷ ds) = All (Precedes d) ds × IsOrdered ds

-- No tool stands behind one that `less` puts after it.
abbrev IsSorted : List ToolDiff → Type 0
IsSorted [] = Unit {0}
IsSorted (d ∷ ds) = All (λ (e : ToolDiff). before e d ≡ false) ds × IsSorted ds

before_asym : (a b : ToolDiff) → before a b ≡ true → before b a ≡ false
before_asym a b h = ground (arith, lt_bytes_asym a.name b.name)

before_trans : (a b c : ToolDiff) → before a b ≡ true → before b c ≡ true → before a c ≡ true
before_trans a b c h k = ground (arith, lt_bytes_trans a.name b.name c.name)

-- What does not come before `e` does not come before `d` either, if `d` does.
All-before :
    (d e : ToolDiff) (es : List ToolDiff)
    → before d e ≡ true
    → All (λ (x : ToolDiff). before x e ≡ false) es
    → All (λ (x : ToolDiff). before x d ≡ false) es
All-before d e [] h a = tt
All-before d e (x ∷ es) h a = (
  elim (Bool-cases (before x d)) [
    | inr after ↦ after
    | inl first ↦ let both = before_trans x d e first h in absurd (ground (arith, both, a.0))
  ],
  All-before d e es h a.1,
)

All-insert_diff :
    (P : ToolDiff → Type 0) (d : ToolDiff) (ds : List ToolDiff)
    → P d
    → All P ds
    → All P (insert_diff d ds)
unfolding insert_diff
All-insert_diff P d [] p a = (p, tt)
All-insert_diff P d (e ∷ es) p a = elim (Bool-cases (before d e)) [
  | inl h ↦ rw (h, insert_diff) (p, a)
  | inr h ↦ rw (h, insert_diff) (a.0, All-insert_diff P d es p a.1)
]

insert_diff-IsSorted :
    (d : ToolDiff) (ds : List ToolDiff) → IsSorted ds → IsSorted (insert_diff d ds)
unfolding insert_diff
insert_diff-IsSorted d [] o = (tt, tt)
insert_diff-IsSorted d (e ∷ es) o = elim (Bool-cases (before d e)) [
  | inl h ↦ rw (h, insert_diff) ((before_asym d e h, All-before d e es h o.0), o)
  | inr h ↦
      rw (h, insert_diff)
        (
          All-insert_diff (λ (x : ToolDiff). before x e ≡ false) d es h o.0,
          insert_diff-IsSorted d es o.1,
        )
]

sort_diffs-IsSorted : (ds : List ToolDiff) → IsSorted (sort_diffs ds)
unfolding sort_diffs
sort_diffs-IsSorted [] = tt
sort_diffs-IsSorted (d ∷ ds) = insert_diff-IsSorted d (sort_diffs ds) (sort_diffs-IsSorted ds)

before-Precedes : (d e : ToolDiff) → before e d ≡ false → Precedes d e
before-Precedes d e h = elim (Bool-cases (severity e == severity d)) [
  | inl same ↦ inr (ground (arith, same), ground (arith, h, same))
  | inr differ ↦ inl (ground (arith, h, differ))
]

All-Precedes :
    (d : ToolDiff) (ds : List ToolDiff)
    → All (λ (e : ToolDiff). before e d ≡ false) ds
    → All (Precedes d) ds
All-Precedes d [] h = tt
All-Precedes d (e ∷ es) h = (before-Precedes d e h.0, All-Precedes d es h.1)

IsSorted-IsOrdered : (ds : List ToolDiff) → IsSorted ds → IsOrdered ds
IsSorted-IsOrdered [] s = tt
IsSorted-IsOrdered (d ∷ ds) s = (All-Precedes d ds s.0, IsSorted-IsOrdered ds s.1)

pub sort_diffs-IsOrdered : (ds : List ToolDiff) → IsOrdered (sort_diffs ds)
sort_diffs-IsOrdered ds = IsSorted-IsOrdered (sort_diffs ds) (sort_diffs-IsSorted ds)
