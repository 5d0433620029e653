-- ===== src/Diff/Surfaces/Reported.antt =====
-- Which tools `Diff` reports, and how.
use surfacelock.Prelude.{
  ◌≤◌, ◌≡◌, ◌≢◌, sym, ap, subst, ◌∙◌, inl, inr, false, Option, none, some, List, [], ◌∷◌, ◌++◌,
  arith, length, Bool-cases, Option-cases, Map, lookup,
}
use surfacelock.Prelude.Bytes.{Bytes, eq_bytes, eq_bytes_iff}
use surfacelock.External.{External}
use surfacelock.Surface.Tool.{Tool}
use surfacelock.Surface.Admit.{Surface}
use surfacelock.Lockfile.Entry.{ServerLock, ToolLock, tools_of}
use surfacelock.Diff.Class.{Class, ToolDiff, SurfaceDiff, removed, added}
use surfacelock.Diff.Classify.{classify}
use surfacelock.Diff.Surfaces.{
  old_by_name, live_by_name, changed_tools, added_tools, sort_diffs, diff,
}
use surfacelock.Diff.Surfaces.Reports.{
  reports_of, reports_of-append, reports_of-sort, IsKeyed, old_by_name-IsKeyed,
  live_by_name-IsKeyed, named, reports_of-named, reports_of-named-other, append-nil,
}
use surfacelock.Diff.Surfaces.Added.{added_tools-none, added_tools-known, added_tools-new}
use surfacelock.Diff.Surfaces.Order.{IsOrdered, sort_diffs-IsOrdered}

module _ ⦃ext : External⦄ where
  -- What is reported of a name, from the locked and the live tool of that name: a tool that only one
  -- side has, or one that both have with different h_tool, is reported once.
  pub data Reported : Option ToolLock → Option Tool → List (List Class) → Type 0 where
    absent : Reported none none []
    removed_tool : (o : ToolLock) → Reported (some o) none ((removed ∷ []) ∷ [])
    added_tool : (l : Tool) → Reported none (some l) ((added ∷ []) ∷ [])
    same_tool : (o : ToolLock) (l : Tool) → o.h_tool ≡ l.h_tool → Reported (some o) (some l) []
    changed_tool :
        (o : ToolLock) (l : Tool) (classes : List Class)
        → o.h_tool ≢ l.h_tool
        → classify o.tool l.canon ≡ some classes
        → Reported (some o) (some l) (classes ∷ [])

  -- One turn of the loop over oldByName.
  changed_tools-turn :
      (live : Map Tool) (k : Bytes) (u : ToolLock) (m : Map ToolLock) (out : List ToolDiff)
      → changed_tools live ((k, u) ∷ m) ≡ some out
      → (css : List (List Class)) × (rest : List ToolDiff) × (changed_tools live m ≡ some rest)
        × Reported (some u) (lookup k live) css
        × (out ≡ named k css ++ rest)
  unfolding changed_tools
  changed_tools-turn live k u m out h = elim (Option-cases (changed_tools live m)) [
    | inl e ↦ absurd (ground (arith, h, e))
    | inr (rest, e) ↦ elim (Option-cases (lookup k live)) [
      | inl f ↦ ((removed ∷ []) ∷ [], rest, e, rw (f) (removed_tool u), ground (arith, h, e, f))
      | inr (l, f) ↦ elim (Bool-cases (eq_bytes u.h_tool l.h_tool)) [
        | inl same ↦ (
          [],
          rest,
          e,
          rw (f) (same_tool u l ((eq_bytes_iff u.h_tool l.h_tool).0 same)),
          ground (arith, h, e, f, same),
        )
        | inr differ ↦ elim (Option-cases (classify u.tool l.canon)) [
          | inl c ↦ absurd (ground (arith, h, e, f, differ, c))
          | inr (cs, c) ↦ (
            cs ∷ [],
            rest,
            e,
            rw (f) (
                changed_tool u l cs
                  (λ q. absurd (ground (arith, differ, (eq_bytes_iff u.h_tool l.h_tool).1 q))) c),
            ground (arith, h, e, f, differ, c),
          )
        ]
      ]
    ]
  ]

  changed_tools-none :
      (live : Map Tool) (old : Map ToolLock) (n : Bytes) (out : List ToolDiff)
      → changed_tools live old ≡ some out
      → lookup n old ≡ none
      → reports_of n out ≡ []
  unfolding lookup changed_tools reports_of
  changed_tools-none live [] n out h e =
      let is : [] ≡ out = ground (arith, h) in ap (reports_of n) (sym is)
  changed_tools-none live ((k, u) ∷ m) n out h e =
      let (css, rest, turns, _, is) = changed_tools-turn live k u m out h in
      let other : eq_bytes k n ≡ false = ground (arith, e) in
      let more = changed_tools-none live m n rest turns (ground (arith, e, other)) in
      rw (is, reports_of-append n (named k css) rest, reports_of-named-other k n css other) more

  changed_tools-Reported :
      (live : Map Tool) (old : Map ToolLock) (n : Bytes) (o : ToolLock) (out : List ToolDiff)
      → IsKeyed old
      → changed_tools live old ≡ some out
      → lookup n old ≡ some o
      → Reported (some o) (lookup n live) (reports_of n out)
  unfolding lookup
  changed_tools-Reported live [] n o out d h e = absurd (ground (arith, e))
  changed_tools-Reported live ((k, u) ∷ m) n o out d h e =
      let (css, rest, turns, said, is) = changed_tools-turn live k u m out h in
      elim (Bool-cases (eq_bytes k n)) [
        | inl here ↦
            let same = (eq_bytes_iff k n).0 here in
            let is_old : u ≡ o = ground (arith, e, here) in
            let once =
              changed_tools-none live m n rest turns (ap (λ x. lookup x m) (sym same) ∙ d.0) in
            let whole : reports_of n out ≡ css =
              rw (is, reports_of-append n (named k css) rest, reports_of-named k n css here, once)
                (append-nil css) in
            let of_old = subst (λ x. Reported (some x) (lookup k live) css) is_old said in
            let of_name = subst (λ x. Reported (some o) (lookup x live) css) same of_old in
            subst (λ x. Reported (some o) (lookup n live) x) (sym whole) of_name
        | inr other ↦
            let more =
              changed_tools-Reported live m n o rest d.1 turns (ground (arith, e, other)) in
            rw (is, reports_of-append n (named k css) rest, reports_of-named-other k n css other)
              more
      ]

  loops-Reported :
      (o : Map ToolLock) (l : Map Tool) (changed : List ToolDiff) (n : Bytes)
      → IsKeyed o
      → IsKeyed l
      → changed_tools l o ≡ some changed
      → Reported (lookup n o) (lookup n l) (reports_of n (changed ++ added_tools o l))
  loops-Reported o l changed n keyed live_keyed c = elim (Option-cases (lookup n o)) [
    | inr (ot, e) ↦
        let said = changed_tools-Reported l o n ot changed keyed c e in
        rw
          (
            reports_of-append n changed (added_tools o l),
            added_tools-known o l n ot e,
            append-nil (reports_of n changed),
            e,
          )
          said
    | inl e ↦
        let quiet = changed_tools-none l o n changed c e in
        elim (Option-cases (lookup n l)) [
          | inl f ↦
              rw
                (
                  reports_of-append n changed (added_tools o l),
                  quiet,
                  added_tools-none o l n f,
                  e,
                  f,
                )
                absent
          | inr (t, f) ↦
              rw
                (
                  reports_of-append n changed (added_tools o l),
                  quiet,
                  added_tools-new o l n t live_keyed f e,
                  e,
                  f,
                )
                (added_tool t)
        ]
  ]

  Reported-once :
      {old : Option ToolLock} {live : Option Tool} {css : List (List Class)}
      → Reported old live css
      → length css ≤ 1
  Reported-once absent = omega arith
  Reported-once (removed_tool o) = omega arith
  Reported-once (added_tool l) = omega arith
  Reported-once (same_tool o l same) = omega arith
  Reported-once (changed_tool o l cs differ c) = omega arith

  -- Diff reports its tools most severe first, and those of one severity by the bytes of their names.
  -- Of every name it says what is true of the locked and the live tool: a tool that is gone is
  -- reported once as removed, a new one once as added, one with another h_tool once with the classes
  -- of its classification, and any other name not at all.
  pub diff-Reported :
      (old : ServerLock) (live : Surface) (d : SurfaceDiff)
      → diff old live ≡ some d
      → IsOrdered d.tools
        × ((n : Bytes)
            → Reported
                (lookup n (old_by_name [] (tools_of old)))
                (lookup n (live_by_name [] live.tools))
                (reports_of n d.tools))
  unfolding diff
  diff-Reported old live d h =
      let o = old_by_name [] (tools_of old) in
      let l = live_by_name [] live.tools in
      elim (Option-cases (changed_tools l o)) [
        | inl c ↦ absurd (ground (arith, h, c))
        | inr (changed, c) ↦
            let found = changed ++ added_tools o l in
            let is : d.tools ≡ sort_diffs found = ground (arith, h, c) in
            let said = λ (n : Bytes).
              loops-Reported o l changed n (old_by_name-IsKeyed [] (tools_of old) tt)
                (live_by_name-IsKeyed [] live.tools tt) c in
            rw is (
              sort_diffs-IsOrdered found,
              λ n. rw (reports_of-sort n found (Reported-once (said n))) (said n),
            )
      ]
