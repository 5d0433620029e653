-- ===== src/Cli/Reflected/Guard.antt =====
-- Which texts repeat the value of a header.
use surfacelock.Prelude.{
  ◌<◌, ◌≡◌, refl, ap, ◌∙◌, ◌↔◌, ◌⊎◌, inl, inr, Bool, true, false, not, ◌&&◌, ◌||◌, none, [], ◌∷◌,
  ◌++◌, arith, ltb, length, all, All, ltb→lt, lt→ltb, Bool-cases, ==_iff,
}
use surfacelock.Prelude.Bytes.{Bytes, eq_bytes_iff}
use surfacelock.Go.Text.{has_prefix, contains_text}
use surfacelock.Headers.{Headers, sorted_entries}
use surfacelock.Headers.Rules.{all-sorted_entries}
use surfacelock.Cli.Reflected.{
  reflection_min_len, json_spelling, needles, contains_any, find_reflected,
  refuse_reflected_credential,
}

-- The bytes stand somewhere in the text, one after the other.
abbrev pub IsPart : Bytes → Bytes → Type 0
IsPart doc v = (before : Bytes) × (after : Bytes) × (doc ≡ before ++ (v ++ after))

-- The header's value has fewer than eight bytes, or stands nowhere in the text, neither as it is nor
-- as JSON spells it.
abbrev pub IsUnseen : Bytes → Bytes × Bytes → Type 0
IsUnseen doc (name, v) = (length v < 8) ⊎ (¬ IsPart doc v × ¬ IsPart doc (json_spelling v))

has_prefix_lem : (s p : Bytes) → has_prefix s p ≡ true → (after : Bytes) × (s ≡ p ++ after)
unfolding has_prefix
has_prefix_lem s [] h = (s, refl)
has_prefix_lem [] (p ∷ ps) h = cc
has_prefix_lem (a ∷ s) (p ∷ ps) h =
    let (after, is) = has_prefix_lem s ps (ground (arith, h)) in
    let head : a ≡ p = (==_iff a p).0 (ground (arith, h)) in
    (after, ap (λ c. c ∷ s) head ∙ ap (λ xs. p ∷ xs) is)

prefix-append : (p after : Bytes) → has_prefix (p ++ after) p ≡ true
unfolding has_prefix
prefix-append [] after = refl
prefix-append (p ∷ ps) after = ground (arith, prefix-append ps after)

contains_text-IsPart : (s v : Bytes) → contains_text s v ≡ true → IsPart s v
unfolding contains_text
contains_text-IsPart [] v h = let (after, is) = has_prefix_lem [] v h in ([], after, is)
contains_text-IsPart (a ∷ s) v h = elim (Bool-cases (has_prefix (a ∷ s) v)) [
  | inl e ↦ let (after, is) = has_prefix_lem (a ∷ s) v e in ([], after, is)
  | inr e ↦
      let (before, after, is) = contains_text-IsPart s v (ground (arith, h, e)) in
      (a ∷ before, after, ap (λ xs. a ∷ xs) is)
]

prefix-contains : (s v : Bytes) → has_prefix s v ≡ true → contains_text s v ≡ true
unfolding contains_text
prefix-contains [] v h = h
prefix-contains (a ∷ s) v h = ground (arith, h)

IsPart-contains_text : (before v after : Bytes) → contains_text (before ++ (v ++ after)) v ≡ true
unfolding contains_text
IsPart-contains_text [] v after = prefix-contains (v ++ after) v (prefix-append v after)
IsPart-contains_text (a ∷ before) v after = ground (arith, IsPart-contains_text before v after)

-- The header's value is short, or stands nowhere in the text.
abbrev is_unseen : Bytes → Bytes × Bytes → Bool
is_unseen doc (name, v) =
    ltb (length v) reflection_min_len
    || (not (contains_text doc v) && not (contains_text doc (json_spelling v)))

find_reflected_lem :
    (doc : Bytes) (h : Headers) → (find_reflected doc h ≡ none) ↔ (all (is_unseen doc) h ≡ true)
unfolding find_reflected contains_any needles
find_reflected_lem doc [] = ((λ h. refl), λ h. refl)
find_reflected_lem doc ((name, v) ∷ h) =
    ground (arith, find_reflected_lem doc h, eq_bytes_iff (json_spelling v) v)

not-IsPart : (doc v : Bytes) → (contains_text doc v ≡ false) ↔ (¬ IsPart doc v)
not-IsPart doc v = (
  λ e (before, after, is).
      absurd
        (ground (arith, e, ap (λ d. contains_text d v) is, IsPart-contains_text before v after)),
  λ n. elim (Bool-cases (contains_text doc v)) [
    | inl e ↦ absurd (n (contains_text-IsPart doc v e))
    | inr e ↦ e
  ],
)

is_unseen-IsUnseen :
    (doc name v : Bytes) → (is_unseen doc (name, v) ≡ true) ↔ IsUnseen doc (name, v)
is_unseen-IsUnseen doc name v = (
  λ h. elim (Bool-cases (ltb (length v) 8)) [
    | inl e ↦ inl (ltb→lt (length v) 8 e)
    | inr e ↦ inr (
      (not-IsPart doc v).0 (ground (arith, h, e)),
      (not-IsPart doc (json_spelling v)).0 (ground (arith, h, e)),
    )
  ],
  λ h. elim h [
    | inl short ↦ ground (arith, lt→ltb (length v) 8 short)
    | inr (a, b) ↦ ground (arith, (not-IsPart doc v).1 a, (not-IsPart doc (json_spelling v)).1 b)
  ],
)

all-All : (doc : Bytes) (h : Headers) → (all (is_unseen doc) h ≡ true) ↔ All (IsUnseen doc) h
all-All doc [] = ((λ h. tt), λ h. refl)
all-All doc ((name, v) ∷ h) = (
  λ a. (
    (is_unseen-IsUnseen doc name v).0 (ground (arith, a)),
    (all-All doc h).0 (ground (arith, a)),
  ),
  λ a. ground (arith, (is_unseen-IsUnseen doc name v).1 a.0, (all-All doc h).1 a.1),
)

-- The guard lets a text through exactly when every header is unseen in it.
pub refuse_reflected_credential_iff :
    (h : Headers) (doc : Bytes) → (refuse_reflected_credential h doc ≡ none) ↔ All (IsUnseen doc) h
unfolding refuse_reflected_credential
refuse_reflected_credential_iff h doc =
    let loop = find_reflected_lem doc (sorted_entries h) in
    let order = all-sorted_entries (is_unseen doc) h in
    let read = all-All doc h in
    ((λ e. read.0 (ground (arith, loop.0 e, order))), λ a. loop.1 (ground (arith, read.1 a, order)))
