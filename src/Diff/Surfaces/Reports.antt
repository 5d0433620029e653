-- ===== src/Diff/Surfaces/Reports.antt =====
-- What a list of drifted tools says of one name, and maps without a key twice.
use surfacelock.Prelude.{
  ◌≤◌, ◌≡◌, refl, sym, ap, ◌∙◌, inl, inr, true, false, none, List, [], ◌∷◌, ◌++◌, arith,
  if◌then◌else◌, length, Bool-cases, Map, lookup, insert, lookup-insert,
}
use surfacelock.Prelude.Bytes.{Bytes, eq_bytes, eq_bytes_iff, eq_bytes_refl}
use surfacelock.Surface.Tool.{Tool}
use surfacelock.Lockfile.Entry.{ToolLock}
use surfacelock.Diff.Class.{Class, ToolDiff}
use surfacelock.Diff.Surfaces.{old_by_name, live_by_name, insert_diff, sort_diffs, before}

-- What a list of drifted tools says of one name: the classes of each report of it.
unfoldable pub reports_of : Bytes → List ToolDiff → List (List Class)
reports_of n [] = []
reports_of n (d ∷ ds) =
    let rest = reports_of n ds in if eq_bytes d.name n then d.classes ∷ rest else rest

pub reports_of-append :
    (n : Bytes) (ds es : List ToolDiff)
    → reports_of n (ds ++ es) ≡ reports_of n ds ++ reports_of n es
unfolding reports_of
reports_of-append n [] es = refl
reports_of-append n (d ∷ ds) es = ground (arith, reports_of-append n ds es)

reports_of-insert-other :
    (n : Bytes) (d : ToolDiff) (ds : List ToolDiff)
    → eq_bytes d.name n ≡ false
    → reports_of n (insert_diff d ds) ≡ reports_of n ds
unfolding reports_of insert_diff
reports_of-insert-other n d [] h = ground (arith, h)
reports_of-insert-other n d (e ∷ es) h = elim (Bool-cases (before d e)) [
  | inl b ↦ rw (b, h) refl
  | inr b ↦ rw (b, reports_of-insert-other n d es h) refl
]

reports_of-insert-first :
    (n : Bytes) (d : ToolDiff) (ds : List ToolDiff)
    → eq_bytes d.name n ≡ true
    → reports_of n ds ≡ []
    → reports_of n (insert_diff d ds) ≡ d.classes ∷ []
unfolding reports_of insert_diff
reports_of-insert-first n d [] h k = ground (arith, h)
reports_of-insert-first n d (e ∷ es) h k = elim (Bool-cases (eq_bytes e.name n)) [
  | inl here ↦ absurd (ground (arith, k, here))
  | inr other ↦ elim (Bool-cases (before d e)) [
    | inl b ↦ rw (b, h, other) (ap (λ xs. d.classes ∷ xs) (ground (arith, k, other)))
    | inr b ↦ rw (b, other) (reports_of-insert-first n d es h (ground (arith, k, other)))
  ]
]

-- Sorting keeps the report of a name that is reported once at most.
pub reports_of-sort :
    (n : Bytes) (ds : List ToolDiff)
    → length (reports_of n ds) ≤ 1
    → reports_of n (sort_diffs ds) ≡ reports_of n ds
unfolding reports_of sort_diffs
reports_of-sort n [] h = refl
reports_of-sort n (d ∷ ds) h = elim (Bool-cases (eq_bytes d.name n)) [
  | inr other ↦
      reports_of-insert-other n d (sort_diffs ds) other
      ∙ (reports_of-sort n ds (ground (arith, h, other)) ∙ ground (arith, other))
  | inl here ↦
      let none_left : reports_of n ds ≡ [] = ground (arith, h, here) in
      let sorted = reports_of-sort n ds (ground (arith, none_left)) ∙ none_left in
      reports_of-insert-first n d (sort_diffs ds) here sorted ∙ ground (arith, here, none_left)
]

-- No key twice.
abbrev pub IsKeyed : {V : Type 0} → Map V → Type 0
IsKeyed [] = Unit {0}
IsKeyed ((k, v) ∷ m) = (lookup k m ≡ none) × IsKeyed m

insert-IsKeyed : {V : Type 0} (k : Bytes) (v : V) (m : Map V) → IsKeyed m → IsKeyed (insert k v m)
unfolding insert lookup
insert-IsKeyed k v [] d = (refl, tt)
insert-IsKeyed k v ((j, w) ∷ m) d = elim (Bool-cases (eq_bytes j k)) [
  | inl e ↦ let same = (eq_bytes_iff j k).0 e in rw (e) (ap (λ x. lookup x m) (sym same) ∙ d.0, d.1)
  | inr e ↦ rw (e) (
    ground (arith, lookup-insert k j v m, eq_bytes_iff k j, eq_bytes_refl j, e, d.0),
    insert-IsKeyed k v m d.1,
  )
]

pub old_by_name-IsKeyed :
    (m : Map ToolLock) (ts : List ToolLock) → IsKeyed m → IsKeyed (old_by_name m ts)
unfolding old_by_name
old_by_name-IsKeyed m [] d = d
old_by_name-IsKeyed m (t ∷ ts) d =
    old_by_name-IsKeyed (insert t.name t m) ts (insert-IsKeyed t.name t m d)

pub live_by_name-IsKeyed : (m : Map Tool) (ts : List Tool) → IsKeyed m → IsKeyed (live_by_name m ts)
unfolding live_by_name
live_by_name-IsKeyed m [] d = d
live_by_name-IsKeyed m (t ∷ ts) d =
    live_by_name-IsKeyed (insert t.name t m) ts (insert-IsKeyed t.name t m d)

-- The reports under one name.
abbrev pub named : Bytes → List (List Class) → List ToolDiff
named k [] = []
named k (cs ∷ css) = record { name = k; classes = cs } ∷ named k css

pub reports_of-named :
    (k n : Bytes) (css : List (List Class)) → eq_bytes k n ≡ true → reports_of n (named k css) ≡ css
unfolding reports_of
reports_of-named k n [] h = refl
reports_of-named k n (cs ∷ css) h = rw (h) (ap (λ xs. cs ∷ xs) (reports_of-named k n css h))

pub reports_of-named-other :
    (k n : Bytes) (css : List (List Class)) → eq_bytes k n ≡ false → reports_of n (named k css) ≡ []
unfolding reports_of
reports_of-named-other k n [] h = refl
reports_of-named-other k n (cs ∷ css) h = rw (h) (reports_of-named-other k n css h)

pub append-nil : (css : List (List Class)) → css ++ [] ≡ css
append-nil [] = refl
append-nil (cs ∷ css) = ap (λ xs. cs ∷ xs) (append-nil css)
