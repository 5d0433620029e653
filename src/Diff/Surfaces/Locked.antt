-- ===== src/Diff/Surfaces/Locked.antt =====
-- The diff of a surface against the entry that was locked from it.
use surfacelock.Prelude.{
  ◌≡◌, refl, ap, ◌∙◌, subst, inl, inr, true, not, Option, none, some, List, [], ◌∷◌, map, arith,
  Bool-cases, Option-cases, Map, lookup, insert, lookup-insert,
}
use surfacelock.Prelude.Bytes.{Bytes, eq_bytes, eq_bytes_iff, eq_bytes_refl}
use surfacelock.External.{External}
use surfacelock.Surface.Tool.{Tool}
use surfacelock.Surface.Admit.{Surface}
use surfacelock.Surface.Rollup.{surface_hash}
use surfacelock.Lockfile.Entry.{ServerLock, ToolLock, tools_of, lock_tool, entry_from_surface}
use surfacelock.Diff.Class.{SurfaceDiff, is_empty}
use surfacelock.Diff.Surfaces.{
  old_by_name, live_by_name, changed_tools, added_tools, sort_diffs, diff,
}

-- A map with no key twice.
abbrev IsKeyed {ℓ} : {V : Type ℓ} → Map V → Type ℓ
IsKeyed [] = Unit
IsKeyed ((k, v) ∷ m) = (lookup k m ≡ none) × IsKeyed m

insert-IsKeyed {ℓ} :
    {V : Type ℓ} (k : Bytes) (v : V) (m : Map V) → IsKeyed m → IsKeyed (insert k v m)
unfolding insert lookup
insert-IsKeyed k v [] h = (refl, tt)
insert-IsKeyed k v ((j, w) ∷ m) h = elim (Bool-cases (eq_bytes j k)) [
  | inl same ↦
      let is : j ≡ k = (eq_bytes_iff j k).0 same in
      rw (same, insert) (subst (λ i. lookup i m ≡ none) is h.0, h.1)
  | inr other ↦
      rw (other, insert)
        (
          ground (arith, h.0, lookup-insert k j v m, eq_bytes_iff k j, eq_bytes_iff j k),
          insert-IsKeyed k v m h.1,
        )
]

live_by_name-IsKeyed : (m : Map Tool) (ts : List Tool) → IsKeyed m → IsKeyed (live_by_name m ts)
unfolding live_by_name
live_by_name-IsKeyed m [] h = h
live_by_name-IsKeyed m (t ∷ ts) h =
    live_by_name-IsKeyed (insert t.name t m) ts (insert-IsKeyed t.name t m h)

-- What is locked of a map of tools.
unfoldable locked : Map Tool → Map ToolLock
locked [] = []
locked ((k, t) ∷ m) = (k, lock_tool t) ∷ locked m

insert-locked :
    (k : Bytes) (t : Tool) (m : Map Tool)
    → insert k (lock_tool t) (locked m) ≡ locked (insert k t m)
unfolding insert locked
insert-locked k t [] = refl
insert-locked k t ((j, u) ∷ m) = ground (arith, insert-locked k t m)

lookup-locked :
    (k : Bytes) (t : Tool) (m : Map Tool)
    → lookup k m ≡ some t
    → lookup k (locked m) ≡ some (lock_tool t)
unfolding lookup locked
lookup-locked k t [] h = absurd (ground arith)
lookup-locked k t ((j, u) ∷ m) h = ground (arith, lookup-locked k t m)

old_by_name-locked :
    (m : Map Tool) (ts : List Tool)
    → old_by_name (locked m) (map lock_tool ts) ≡ locked (live_by_name m ts)
unfolding old_by_name live_by_name lock_tool
old_by_name-locked m [] = refl
old_by_name-locked m (t ∷ ts) =
    ap (λ o. old_by_name o (map lock_tool ts)) (insert-locked t.name t m)
    ∙ old_by_name-locked (insert t.name t m) ts

-- The entries of one map are found in the other.
abbrev Within : Map Tool → Map Tool → Type 0
Within m l = (k : Bytes) (t : Tool) → lookup k m ≡ some t → lookup k l ≡ some t

Within-tail :
    (k : Bytes) (t : Tool) (m l : Map Tool)
    → IsKeyed ((k, t) ∷ m)
    → Within ((k, t) ∷ m) l
    → Within m l
unfolding lookup
Within-tail k t m l h w j u e = w j u (ground (arith, h.0, eq_bytes_iff k j))

Within-head : (k : Bytes) (t : Tool) (m l : Map Tool) → Within ((k, t) ∷ m) l → lookup k l ≡ some t
unfolding lookup
Within-head k t m l w = w k t (ground (arith, eq_bytes_refl k))

added_tools-locked : (m l : Map Tool) → IsKeyed m → Within m l → added_tools (locked l) m ≡ []
unfolding added_tools
added_tools-locked [] l h w = refl
added_tools-locked ((k, t) ∷ m) l h w =
    rw (lookup-locked k t l (Within-head k t m l w), added_tools)
      (added_tools-locked m l h.1 (Within-tail k t m l h w))

module _ ⦃ext : External⦄ where
  changed_tools-locked :
      (m l : Map Tool) → IsKeyed m → Within m l → changed_tools l (locked m) ≡ some []
  unfolding changed_tools locked lock_tool
  changed_tools-locked [] l h w = refl
  changed_tools-locked ((k, t) ∷ m) l h w = ground (
    arith,
    Within-head k t m l w,
    changed_tools-locked m l h.1 (Within-tail k t m l h w),
    eq_bytes_refl t.h_tool,
  )

  entry_from_surface-parts :
      (transport target : Bytes) (args : Option (List Bytes)) (s : Surface) (e : ServerLock)
      → entry_from_surface transport target args s ≡ some e
      → (e.protocol.era ≡ s.era) × (e.h_instr ≡ s.h_instr) × (tools_of e ≡ map lock_tool s.tools)
  unfolding entry_from_surface
  entry_from_surface-parts transport target args s e h =
      elim (Option-cases (surface_hash s.era s.h_instr s.tools)) [
        | inl x ↦ absurd (ground arith)
        | inr (hash, x) ↦ (ground arith, ground arith, ground arith)
      ]

  diff-empty :
      (old : ServerLock) (live : Surface)
      → old.protocol.era ≡ live.era
      → old.h_instr ≡ live.h_instr
      → changed_tools (live_by_name [] live.tools) (old_by_name [] (tools_of old)) ≡ some []
      → added_tools (old_by_name [] (tools_of old)) (live_by_name [] live.tools) ≡ []
      → (d : SurfaceDiff) × (diff old live ≡ some d) × (is_empty d ≡ true)
  unfolding diff is_empty sort_diffs
  diff-empty old live era instr c a = (
    record {
      era_changed = not (eq_bytes old.protocol.era live.era);
      old_era = old.protocol.era;
      new_era = live.era;
      instructions_changed = not (eq_bytes old.h_instr live.h_instr);
      tools = [];
    },
    rw (c, a, diff) refl,
    ground (arith, eq_bytes_iff old.protocol.era live.era, eq_bytes_iff old.h_instr live.h_instr),
  )

  -- The entry that EntryFromSurface makes of a surface has no drift from that surface.
  pub diff-entry_from_surface :
      (transport target : Bytes) (args : Option (List Bytes)) (s : Surface) (e : ServerLock)
      → entry_from_surface transport target args s ≡ some e
      → (d : SurfaceDiff) × (diff e s ≡ some d) × (is_empty d ≡ true)
  unfolding locked
  diff-entry_from_surface transport target args s e h =
      let (era, instr, tools) = entry_from_surface-parts transport target args s e h in
      let l = live_by_name [] s.tools in
      let keyed = live_by_name-IsKeyed [] s.tools tt in
      let old : old_by_name [] (tools_of e) ≡ locked l =
        ap (old_by_name []) tools ∙ old_by_name-locked [] s.tools in
      diff-empty e s era instr
        (ap (changed_tools l) old ∙ changed_tools-locked l l keyed (λ k t f. f))
        (ap (λ o. added_tools o l) old ∙ added_tools-locked l l keyed (λ k t f. f))
