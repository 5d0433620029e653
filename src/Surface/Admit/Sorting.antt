-- ===== src/Surface/Admit/Sorting.antt =====
-- Lists of tools sorted by name.
use surfacelock.Prelude.{
  ℕ, suc, ◌+◌, ◌≡◌, refl, ap, ◌∙◌, inl, inr, true, false, List, [], ◌∷◌, arith, Bool-cases, length,
  All,
}
use surfacelock.Prelude.Bytes.{Bytes, eq_bytes, lt_bytes, lt_bytes_trans, lt_bytes_total}
use surfacelock.Surface.Tool.{Tool}
use surfacelock.Surface.Admit.{insert_tool, sort_tools}

-- Ascending by the bytes of the name, no name twice.
abbrev pub IsSorted : List Tool → Type 0
IsSorted [] = Unit {0}
IsSorted (t ∷ ts) = All (λ (u : Tool). lt_bytes t.name u.name ≡ true) ts × IsSorted ts

-- No name twice.
abbrev pub IsDistinct : List Tool → Type 0
IsDistinct [] = Unit {0}
IsDistinct (t ∷ ts) = All (λ (u : Tool). eq_bytes t.name u.name ≡ false) ts × IsDistinct ts

abbrev pub canon_bytes : List Tool → ℕ
canon_bytes [] = 0
canon_bytes (t ∷ ts) = length t.canon + canon_bytes ts

module _ (P : Tool → Type 0) where
  All-insert_tool : (t : Tool) (ts : List Tool) → P t → All P ts → All P (insert_tool t ts)
  unfolding insert_tool
  All-insert_tool t [] p ps = (p, tt)
  All-insert_tool t (u ∷ us) p ps = elim (Bool-cases (lt_bytes t.name u.name)) [
    | inl e ↦ rw (e, insert_tool) (p, ps)
    | inr e ↦ rw (e, insert_tool) (ps.0, All-insert_tool t us p ps.1)
  ]

  pub All-sort_tools : (ts : List Tool) → All P ts → All P (sort_tools ts)
  unfolding sort_tools
  All-sort_tools [] ps = tt
  All-sort_tools (t ∷ ts) ps = All-insert_tool t (sort_tools ts) ps.0 (All-sort_tools ts ps.1)

below-All :
    (a b : Bytes) (ts : List Tool)
    → lt_bytes a b ≡ true
    → All (λ (u : Tool). lt_bytes b u.name ≡ true) ts
    → All (λ (u : Tool). lt_bytes a u.name ≡ true) ts
below-All a b [] h hs = tt
below-All a b (u ∷ us) h hs = (lt_bytes_trans a b u.name h hs.0, below-All a b us h hs.1)

insert_tool-IsSorted :
    (t : Tool) (ts : List Tool)
    → All (λ (u : Tool). eq_bytes t.name u.name ≡ false) ts
    → IsSorted ts
    → IsSorted (insert_tool t ts)
unfolding insert_tool
insert_tool-IsSorted t [] d s = (tt, tt)
insert_tool-IsSorted t (u ∷ us) d s = elim (Bool-cases (lt_bytes t.name u.name)) [
  | inl e ↦ rw (e, insert_tool) ((e, below-All t.name u.name us e s.0), s)
  | inr e ↦
      rw (e, insert_tool)
        (
          All-insert_tool (λ w. lt_bytes u.name w.name ≡ true) t us
              (lt_bytes_total t.name u.name d.0 e) s.0,
          insert_tool-IsSorted t us d.1 s.1,
        )
]

-- Tools with different names come out strictly ascending.
pub sort_tools-IsSorted : (ts : List Tool) → IsDistinct ts → IsSorted (sort_tools ts)
unfolding sort_tools
sort_tools-IsSorted [] d = tt
sort_tools-IsSorted (t ∷ ts) d =
    insert_tool-IsSorted t (sort_tools ts)
      (All-sort_tools (λ u. eq_bytes t.name u.name ≡ false) ts d.0) (sort_tools-IsSorted ts d.1)

length-insert_tool : (t : Tool) (ts : List Tool) → length (insert_tool t ts) ≡ suc (length ts)
unfolding insert_tool
length-insert_tool t [] = refl
length-insert_tool t (u ∷ us) = ground (arith, length-insert_tool t us)

pub length-sort_tools : (ts : List Tool) → length (sort_tools ts) ≡ length ts
unfolding sort_tools
length-sort_tools [] = refl
length-sort_tools (t ∷ ts) = length-insert_tool t (sort_tools ts) ∙ ap suc (length-sort_tools ts)

canon_bytes-insert_tool :
    (t : Tool) (ts : List Tool) → canon_bytes (insert_tool t ts) ≡ length t.canon + canon_bytes ts
unfolding insert_tool
canon_bytes-insert_tool t [] = refl
canon_bytes-insert_tool t (u ∷ us) = ground (arith, canon_bytes-insert_tool t us)

pub canon_bytes-sort_tools : (ts : List Tool) → canon_bytes (sort_tools ts) ≡ canon_bytes ts
unfolding sort_tools
canon_bytes-sort_tools [] = refl
canon_bytes-sort_tools (t ∷ ts) =
    canon_bytes-insert_tool t (sort_tools ts)
    ∙ ap (λ n. length t.canon + n) (canon_bytes-sort_tools ts)
