-- ===== src/Go/Text.antt =====
-- The functions of strings and bytes that the source calls.
use surfacelock.Prelude.{
  ℕ, zero, suc, ◌-◌, ◌≡◌, refl, Bool, true, false, ◌&&◌, ◌||◌, Option, none, some, [], ◌∷◌, map,
  ◌==◌, within, if◌then◌else◌,
}
use surfacelock.Prelude.Bytes.{Bytes, codes, eq_bytes}
use surfacelock.Go.Utf8.{rune, width}

-- unicode.IsSpace
unfoldable pub is_space : ℕ → Bool
is_space r =
    within 9 13 r
    || (r == b' '
        || (r == 0x85
            || (r == 0xA0
                || (r == 0x1680
                    || (within 0x2000 0x200A r
                        || (r == 0x2028
                            || (r == 0x2029 || (r == 0x202F || (r == 0x205F || r == 0x3000)))))))))

-- The numbers count the bytes of the current rune that are still to be passed.
unfoldable pub trim_start : ℕ → Bytes → Bytes
unfolding is_space width rune
trim_start skip [] = []
trim_start (suc skip) (a ∷ s) = trim_start skip s
trim_start zero (a ∷ s) =
    let rest = trim_start (width a s - 1) s in if is_space (rune a s) then rest else a ∷ s

-- Up to the last rune that is no white space.
unfoldable pub trim_end : ℕ → Bytes → Bytes
unfolding trim_start width
trim_end skip [] = []
trim_end (suc skip) (a ∷ s) = a ∷ trim_end skip s
trim_end zero (a ∷ s) =
    let rest = trim_end (width a s - 1) s in
    if eq_bytes (trim_start 0 (a ∷ s)) [] then [] else a ∷ rest

-- strings.TrimSpace, bytes.TrimSpace
unfoldable pub trim_space : Bytes → Bytes
unfolding trim_start trim_end
trim_space s = trim_end 0 (trim_start 0 s)

-- strings.HasPrefix
unfoldable pub has_prefix : Bytes → Bytes → Bool
has_prefix s [] = true
has_prefix [] (p ∷ ps) = false
has_prefix (a ∷ s) (p ∷ ps) = a == p && has_prefix s ps

-- strings.Contains
unfoldable pub contains_text : Bytes → Bytes → Bool
unfolding has_prefix
contains_text [] needle = has_prefix [] needle
contains_text (a ∷ s) needle = has_prefix (a ∷ s) needle || contains_text s needle

-- strings.Cut at one byte: what stands before it and behind it.
unfoldable pub cut : ℕ → Bytes → Option (Bytes × Bytes)
cut sep [] = none
cut sep (a ∷ s) =
    if a == sep
    then some ([], s)
    else elim (cut sep s) [ none ↦ none | some (l, r) ↦ some (a ∷ l, r) ]

-- strings.ToUpper, of a text whose bytes are ASCII.
unfoldable pub to_upper : Bytes → Bytes
to_upper = map (λ c. if within b'a' b'z' c then c - 32 else c)

trim_space_runs : trim_space (codes " a b \n") ≡ codes "a b"
unfolding trim_space eq_bytes
trim_space_runs = refl
