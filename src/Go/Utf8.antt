-- ===== src/Go/Utf8.antt =====
-- unicode/utf8: `utf8.Valid`, `utf8.RuneLen`, and the runes that `range` yields over a string.
use surfacelock.Prelude.{
  ℕ, zero, suc, ◌+◌, ◌-◌, ◌*◌, ◌/◌, ◌%◌, Bool, true, not, ◌&&◌, List, [], ◌∷◌, ltb, ◌==◌, within,
  if◌then◌else◌,
}
use surfacelock.Prelude.Bytes.{Bytes}

-- A continuation byte.
abbrev is_tail : ℕ → Bool
is_tail = within 0x80 0xBF

-- The length of the valid UTF-8 sequence at the head of the input, 0 where there is none.
-- The ranges are those of Unicode 15, table 3-7: no overlong form, no surrogate, at most U+10FFFF.
abbrev width2 : ℕ → Bytes → ℕ
width2 a (b ∷ s) = if is_tail b then 2 else 0
width2 a [] = 0

abbrev width3 : ℕ → Bytes → ℕ
width3 a (b ∷ c ∷ s) =
    if (if a == 0xE0
        then within 0xA0 0xBF b
        else if a == 0xED
        then within 0x80 0x9F b
        else is_tail b)
      && is_tail c
    then 3
    else 0
width3 a _ = 0

abbrev width4 : ℕ → Bytes → ℕ
width4 a (b ∷ c ∷ d ∷ s) =
    if (if a == 0xF0
        then within 0x90 0xBF b
        else if a == 0xF4
        then within 0x80 0x8F b
        else is_tail b)
      && (is_tail c && is_tail d)
    then 4
    else 0
width4 a _ = 0

unfoldable pub width : ℕ → Bytes → ℕ
width a s =
    if ltb a 0x80
    then 1
    else if within 0xC2 0xDF a
    then width2 a s
    else if within 0xE0 0xEF a
    then width3 a s
    else if within 0xF0 0xF4 a
    then width4 a s
    else 0

-- The number counts the bytes of the current sequence that are still to be passed.
unfoldable pub valid_from : ℕ → Bytes → Bool
unfolding width
valid_from skip [] = true
valid_from (suc skip) (a ∷ s) = valid_from skip s
valid_from zero (a ∷ s) = let w = width a s in not (w == 0) && valid_from (w - 1) s

-- utf8.Valid
unfoldable pub valid : Bytes → Bool
unfolding valid_from
valid = valid_from 0

abbrev pub rune_error : ℕ
rune_error = 0xFFFD

abbrev nth : Bytes → ℕ → ℕ
nth [] i = 0
nth (b ∷ s) zero = b
nth (b ∷ s) (suc i) = nth s i

-- The rune at the head; an invalid byte is U+FFFD.
unfoldable pub rune : ℕ → Bytes → ℕ
unfolding width
rune a s =
    let w = width a s in
    if w == 1
    then a
    else if w == 2
    then (a - 0xC0) * 64 + (nth s 0 - 0x80)
    else if w == 3
    then (a - 0xE0) * 4096 + (nth s 0 - 0x80) * 64 + (nth s 1 - 0x80)
    else if w == 4
    then (a - 0xF0) * 262144 + (nth s 0 - 0x80) * 4096 + (nth s 1 - 0x80) * 64 + (nth s 2 - 0x80)
    else rune_error

unfoldable pub runes_from : ℕ → Bytes → List ℕ
unfolding width rune
runes_from skip [] = []
runes_from (suc skip) (a ∷ s) = runes_from skip s
runes_from zero (a ∷ s) = rune a s ∷ runes_from (width a s - 1) s

-- `for _, r := range s`
unfoldable pub runes : Bytes → List ℕ
unfolding runes_from
runes = runes_from 0

-- utf8.AppendRune, for a rune that is no surrogate.
unfoldable pub encode_rune : ℕ → Bytes
encode_rune r =
    if ltb r 0x80
    then r ∷ []
    else if ltb r 0x800
    then (0xC0 + r / 64) ∷ (0x80 + r % 64) ∷ []
    else if ltb r 0x10000
    then (0xE0 + r / 4096) ∷ (0x80 + r / 64 % 64) ∷ (0x80 + r % 64) ∷ []
    else (0xF0 + r / 262144) ∷ (0x80 + r / 4096 % 64) ∷ (0x80 + r / 64 % 64) ∷ (0x80 + r % 64) ∷ []
