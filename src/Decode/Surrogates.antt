-- ===== src/Decode/Surrogates.antt =====
-- PairedSurrogates against a grammar of string tokens.
use surfacelock.Prelude.{
  ℕ, zero, suc, ◌≡◌, refl, ◌≢◌, ◌↔◌, inl, inr, true, false, some, [], ◌∷◌, arith, ◌==◌, Bool-cases,
  Option-cases, drop,
}
use surfacelock.Prelude.Bytes.{Bytes}
use surfacelock.Go.Json.Strings.{hex4, is_high, is_low}
use surfacelock.Decode.{low_follows, escape_step, paired_from, paired_surrogates}

-- The bytes of a token in which every `\u` escape of a surrogate is one half of a high-low pair.
pub data Paired : Bytes → Type 0 where
  end : Paired []
  plain : {b : ℕ} {s : Bytes} → b ≢ 0x5C → Paired s → Paired (b ∷ s)
  -- A backslash at the very end, and an escape other than `\u`.
  cut : {b : ℕ} → b ≡ 0x5C → Paired (b ∷ [])
  letter : {b c : ℕ} {s : Bytes} → b ≡ 0x5C → c ≢ b'u' → Paired s → Paired (b ∷ c ∷ s)
  -- `\u` and four digits that are no surrogate.
  unit :
      {b c : ℕ} {s : Bytes} (r : ℕ)
      → b ≡ 0x5C
      → c ≡ b'u'
      → hex4 s ≡ some r
      → is_high r ≡ false
      → is_low r ≡ false
      → Paired (drop 4 s)
      → Paired (b ∷ c ∷ s)
  -- A high half and, directly behind it, a low half.
  pair :
      {b c : ℕ} {s : Bytes} (r lo : ℕ) (t : Bytes)
      → b ≡ 0x5C
      → c ≡ b'u'
      → hex4 s ≡ some r
      → is_high r ≡ true
      → drop 4 s ≡ 0x5C ∷ b'u' ∷ t
      → hex4 t ≡ some lo
      → is_low lo ≡ true
      → Paired (drop 4 t)
      → Paired (b ∷ c ∷ s)

paired_from-drop : (n : ℕ) (s : Bytes) → paired_from n s ≡ paired_from 0 (drop n s)
unfolding paired_from
paired_from-drop zero s = refl
paired_from-drop (suc n) [] = refl
paired_from-drop (suc n) (b ∷ s) = paired_from-drop n s

drop_ten : (s : Bytes) → drop 10 s ≡ drop 6 (drop 4 s)
drop_ten [] = refl
drop_ten (a ∷ []) = refl
drop_ten (a ∷ b ∷ []) = refl
drop_ten (a ∷ b ∷ c ∷ []) = refl
drop_ten (a ∷ b ∷ c ∷ d ∷ s) = refl

low_follows-inv :
    (s : Bytes)
    → low_follows s ≡ true
    → (t : Bytes) × (lo : ℕ) × (s ≡ 0x5C ∷ b'u' ∷ t) × (hex4 t ≡ some lo) × (is_low lo ≡ true)
unfolding low_follows
low_follows-inv [] h = absurd (ground arith)
low_follows-inv (b ∷ []) h = absurd (ground arith)
low_follows-inv (b ∷ u ∷ t) h = elim (Option-cases (hex4 t)) [
  | inl e ↦ absurd (ground arith)
  | inr (lo, e) ↦ (t, lo, ground arith, e, ground arith)
]

-- An escape that the loop passes over, with what is left to check behind it.
escape-Paired :
    (b : ℕ) (s : Bytes) (n : ℕ)
    → b ≡ 0x5C
    → escape_step s ≡ some n
    → Paired (drop n s)
    → Paired (b ∷ s)
unfolding escape_step
escape-Paired b [] n e h p = cut e
escape-Paired b (c ∷ s) n e h p = elim (Bool-cases (c == b'u')) [
  | inr other ↦ let one : n ≡ 1 = ground arith in letter e (ground arith) (rw one at p)
  | inl u ↦ elim (Option-cases (hex4 s)) [
    | inl x ↦ absurd (ground arith)
    | inr (r, x) ↦ elim (Bool-cases (is_high r)) [
      | inl high ↦
          let follows : low_follows (drop 4 s) ≡ true = ground arith in
          let (t, lo, at, digits, low) = low_follows-inv (drop 4 s) follows in
          let eleven : n ≡ 11 = ground arith in
          pair r lo t e (ground arith) x high at digits low (rw (eleven, drop_ten s, at) at p)
      | inr not_high ↦
          let five : n ≡ 5 = ground arith in
          unit r e (ground arith) x not_high (ground arith) (rw five at p)
    ]
  ]
]

paired_from_sound : (n : ℕ) (s : Bytes) → paired_from n s ≡ true → Paired (drop n s)
unfolding paired_from
paired_from_sound zero [] h = end
paired_from_sound (suc n) [] h = end
paired_from_sound (suc n) (b ∷ s) h = paired_from_sound n s h
paired_from_sound zero (b ∷ s) h = elim (Bool-cases (b == 0x5C)) [
  | inr other ↦ plain (ground arith) (paired_from_sound 0 s (ground arith))
  | inl backslash ↦ elim (Option-cases (escape_step s)) [
    | inl e ↦ absurd (ground arith)
    | inr (n, e) ↦ escape-Paired b s n (ground arith) e (paired_from_sound n s (ground arith))
  ]
]

paired_from_complete : {s : Bytes} → Paired s → paired_from 0 s ≡ true
unfolding paired_from escape_step low_follows
paired_from_complete end = refl
paired_from_complete (plain n p) = ground (arith, paired_from_complete p)
paired_from_complete (cut e) = ground arith
paired_from_complete (letter e n p) = ground (arith, paired_from_complete p)
paired_from_complete (unit {s = s} r e u x h l p) =
    ground (arith, paired_from_complete p, paired_from-drop 4 s)
paired_from_complete (pair {s = s} r lo t e u x h at y l p) =
    ground (arith, paired_from_complete p, paired_from-drop 10 s, drop_ten s)

-- PairedSurrogates accepts a token exactly when every `\u` escape of a surrogate in it is one half
-- of a high-low pair.
pub paired_surrogates_iff : (raw : Bytes) → (paired_surrogates raw ≡ true) ↔ Paired raw
unfolding paired_surrogates
paired_surrogates_iff raw = (paired_from_sound 0 raw, paired_from_complete)
