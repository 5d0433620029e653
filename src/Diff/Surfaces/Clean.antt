-- ===== src/Diff/Surfaces/Clean.antt =====
-- What a diff without drift shows.
use surfacelock.Prelude.{
  ◌≡◌, refl, ap, ◌∙◌, ◌≢◌, inl, inr, true, Option, none, some, List, [], ◌∷◌, ◌++◌, arith,
  Bool-cases, Option-cases, Map, lookup,
}
use surfacelock.Prelude.Bytes.{Bytes, eq_bytes, eq_bytes_iff}
use surfacelock.External.{External}
use surfacelock.Surface.Tool.{Tool}
use surfacelock.Surface.Admit.{Surface}
use surfacelock.Lockfile.Entry.{ServerLock, ToolLock, tools_of}
use surfacelock.Diff.Class.{ToolDiff, SurfaceDiff, is_empty}
use surfacelock.Diff.Surfaces.{
  old_by_name, live_by_name, added_tools, changed_tools, insert_diff, sort_diffs, diff,
}

-- The locked and the live tool of one name: both absent, or both there with the same h_tool.
pub data SameTool : Option ToolLock → Option Tool → Type 0 where
  neither : SameTool none none
  both : (o : ToolLock) (l : Tool) → o.h_tool ≡ l.h_tool → SameTool (some o) (some l)

added_tools-nil :
    (old : Map ToolLock) (live : Map Tool) (n : Bytes) (t : Tool)
    → added_tools old live ≡ []
    → lookup n live ≡ some t
    → lookup n old ≢ none
unfolding added_tools lookup
added_tools-nil old [] n t h l e = ground arith
added_tools-nil old ((k, u) ∷ m) n t h l e =
    ground (arith, eq_bytes_iff k n, added_tools-nil old m n t)

insert_diff-ne-nil : (d : ToolDiff) (ds : List ToolDiff) → insert_diff d ds ≢ []
unfolding insert_diff
insert_diff-ne-nil d [] h = cc
insert_diff-ne-nil d (e ∷ es) h = ground arith

sort_diffs-nil : (ds : List ToolDiff) → sort_diffs ds ≡ [] → ds ≡ []
unfolding sort_diffs
sort_diffs-nil [] h = refl
sort_diffs-nil (d ∷ ds) h = absurd (insert_diff-ne-nil d (sort_diffs ds) h)

append-nil_both : (ds es : List ToolDiff) → ds ++ es ≡ [] → (ds ≡ []) × (es ≡ [])
append-nil_both [] es h = (refl, h)
append-nil_both (d ∷ ds) es h = cc

module _ ⦃ext : External⦄ where
  -- An entry that adds no drift is live with the same h_tool.
  changed_tools-cons :
      (live : Map Tool) (k : Bytes) (u : ToolLock) (m : Map ToolLock)
      → changed_tools live ((k, u) ∷ m) ≡ some []
      → (l : Tool) × (lookup k live ≡ some l)
        × (u.h_tool ≡ l.h_tool)
        × (changed_tools live m ≡ some [])
  unfolding changed_tools
  changed_tools-cons live k u m h = elim (Option-cases (changed_tools live m)) [
    | inl e ↦ absurd (ground arith)
    | inr (rest, r) ↦ elim (Option-cases (lookup k live)) [
      | inl e ↦ absurd (ground arith)
      | inr (l, e) ↦ elim (Bool-cases (eq_bytes u.h_tool l.h_tool)) [
        | inl same ↦ (l, e, (eq_bytes_iff u.h_tool l.h_tool).0 same, ground arith)
        | inr differs ↦ absurd (ground arith)
      ]
    ]
  ]

  changed_tools-nil :
      (live : Map Tool) (old : Map ToolLock) (n : Bytes) (t : ToolLock)
      → changed_tools live old ≡ some []
      → lookup n old ≡ some t
      → (l : Tool) × (lookup n live ≡ some l) × (t.h_tool ≡ l.h_tool)
  unfolding lookup
  changed_tools-nil live [] n t h l = absurd (ground arith)
  changed_tools-nil live ((k, u) ∷ m) n t h e =
      let (l, found, same, rest) = changed_tools-cons live k u m h in
      elim (Bool-cases (eq_bytes k n)) [
        | inr other ↦ changed_tools-nil live m n t rest (ground arith)
        | inl here ↦
            let is : t ≡ u = ground arith in
            (l, ground (arith, eq_bytes_iff k n), ap (λ (o : ToolLock). o.h_tool) is ∙ same)
      ]

  -- The two halves of the drift list, from a diff that reports no tool.
  diff-parts :
      (old : ServerLock) (live : Surface) (d : SurfaceDiff)
      → diff old live ≡ some d
      → is_empty d ≡ true
      → (old.protocol.era ≡ live.era)
        × (old.h_instr ≡ live.h_instr)
        × (changed_tools (live_by_name [] live.tools) (old_by_name [] (tools_of old)) ≡ some [])
        × (added_tools (old_by_name [] (tools_of old)) (live_by_name [] live.tools) ≡ [])
  unfolding diff is_empty
  diff-parts old live d h e =
      let o = old_by_name [] (tools_of old) in
      let l = live_by_name [] live.tools in
      elim (Option-cases (changed_tools l o)) [
        | inl c ↦ absurd (ground arith)
        | inr (changed, c) ↦
            let none_left : sort_diffs (changed ++ added_tools o l) ≡ [] = ground arith in
            let (a, b) =
              append-nil_both changed (added_tools o l)
                (sort_diffs-nil (changed ++ added_tools o l) none_left) in
            (
              ground (arith, eq_bytes_iff old.protocol.era live.era),
              ground (arith, eq_bytes_iff old.h_instr live.h_instr),
              c ∙ ap some a,
              b,
            )
      ]

  same_tool :
      (o : Map ToolLock) (l : Map Tool) (n : Bytes)
      → changed_tools l o ≡ some []
      → added_tools o l ≡ []
      → SameTool (lookup n o) (lookup n l)
  same_tool o l n c a = elim (Option-cases (lookup n o)) [
    | inr (t, e) ↦ let (u, f, same) = changed_tools-nil l o n t c e in rw (e, f) (both t u same)
    | inl e ↦ elim (Option-cases (lookup n l)) [
      | inl f ↦ rw (e, f) neither
      | inr (u, f) ↦ absurd (added_tools-nil o l n u a f e)
    ]
  ]

  -- If Diff reports nothing, the era and the hash of the instructions are the locked ones, and
  -- under every name the lock and the live surface have the same tool by h_tool, or both none.
  pub diff-clean :
      (old : ServerLock) (live : Surface) (d : SurfaceDiff)
      → diff old live ≡ some d
      → is_empty d ≡ true
      → (old.protocol.era ≡ live.era)
        × (old.h_instr ≡ live.h_instr)
        × ((n : Bytes)
            → SameTool
                (lookup n (old_by_name [] (tools_of old)))
                (lookup n (live_by_name [] live.tools)))
  diff-clean old live d h e =
      let (era, instr, c, a) = diff-parts old live d h e in
      (
        era,
        instr,
        λ n. same_tool (old_by_name [] (tools_of old)) (live_by_name [] live.tools) n c a,
      )
