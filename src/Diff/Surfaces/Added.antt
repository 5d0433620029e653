-- ===== src/Diff/Surfaces/Added.antt =====
-- What the loop over liveByName reports.
use surfacelock.Prelude.{
  ◌≡◌, refl, sym, ap, ◌∙◌, inl, inr, none, some, [], ◌∷◌, arith, Bool-cases, Option-cases, Map,
  lookup,
}
use surfacelock.Prelude.Bytes.{Bytes, eq_bytes, eq_bytes_iff}
use surfacelock.Surface.Tool.{Tool}
use surfacelock.Lockfile.Entry.{ToolLock}
use surfacelock.Diff.Class.{added}
use surfacelock.Diff.Surfaces.{added_tools}
use surfacelock.Diff.Surfaces.Reports.{reports_of, IsKeyed}

-- The loop over liveByName reports a name that the lock has not, once.
pub added_tools-none :
    (old : Map ToolLock) (live : Map Tool) (n : Bytes)
    → lookup n live ≡ none
    → reports_of n (added_tools old live) ≡ []
unfolding added_tools lookup reports_of
added_tools-none old [] n h = refl
added_tools-none old ((k, t) ∷ m) n h = elim (Option-cases (lookup k old)) [
  | inl e ↦ ground (arith, e, h, added_tools-none old m n)
  | inr (o, e) ↦ ground (arith, e, h, added_tools-none old m n)
]

pub added_tools-known :
    (old : Map ToolLock) (live : Map Tool) (n : Bytes) (o : ToolLock)
    → lookup n old ≡ some o
    → reports_of n (added_tools old live) ≡ []
unfolding added_tools reports_of
added_tools-known old [] n o h = refl
added_tools-known old ((k, t) ∷ m) n o h = elim (Option-cases (lookup k old)) [
  | inr (u, e) ↦ ground (arith, e, added_tools-known old m n o h)
  | inl e ↦ elim (Bool-cases (eq_bytes k n)) [
    | inl here ↦ absurd (ground (arith, h, e, ap (λ x. lookup x old) ((eq_bytes_iff k n).0 here)))
    | inr other ↦ ground (arith, e, other, added_tools-known old m n o h)
  ]
]

pub added_tools-new :
    (old : Map ToolLock) (live : Map Tool) (n : Bytes) (t : Tool)
    → IsKeyed live
    → lookup n live ≡ some t
    → lookup n old ≡ none
    → reports_of n (added_tools old live) ≡ (added ∷ []) ∷ []
unfolding added_tools lookup reports_of
added_tools-new old [] n t d h e = absurd (ground (arith, h))
added_tools-new old ((k, u) ∷ m) n t d h e = elim (Bool-cases (eq_bytes k n)) [
  | inl here ↦
      let same = (eq_bytes_iff k n).0 here in
      let unlocked : lookup k old ≡ none = ap (λ x. lookup x old) same ∙ e in
      let once = added_tools-none old m n (ap (λ x. lookup x m) (sym same) ∙ d.0) in
      ground (arith, here, unlocked, once)
  | inr other ↦
      let rest = added_tools-new old m n t d.1 (ground (arith, h, other)) e in
      elim (Option-cases (lookup k old)) [
        | inl f ↦ ground (arith, other, f, rest)
        | inr (o, f) ↦ ground (arith, other, f, rest)
      ]
]
