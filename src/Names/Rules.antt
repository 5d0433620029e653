-- ===== src/Names/Rules.antt =====
-- `validName` against the rules of SPEC.md §6, stated on bytes.
use surfacelock.Prelude.{
  ℕ, zero, suc, ◌-◌, ◌≤◌, ◌≡◌, refl, ◌≢◌, ◌↔◌, true, false, none, [], ◌∷◌, arith, ◌==◌, length, any,
}
use surfacelock.Prelude.Bytes.{Bytes, eq_bytes_iff}
use surfacelock.Go.Utf8.{valid, runes, width, rune, valid_from, runes_from}
use surfacelock.Names.{is_control, valid_name}

-- The first `n` bytes are all above ASCII.
abbrev AboveAscii : ℕ → Bytes → Type 0
AboveAscii zero s = Unit {0}
AboveAscii (suc n) [] = Unit {0}
AboveAscii (suc n) (b ∷ s) = (0x80 ≤ b) × AboveAscii n s

width-AboveAscii : (a : ℕ) (s : Bytes) → AboveAscii (width a s - 1) s
unfolding width
width-AboveAscii a [] = ground arith
width-AboveAscii a (b ∷ []) = ground arith
width-AboveAscii a (b ∷ c ∷ []) = ground arith
width-AboveAscii a (b ∷ c ∷ d ∷ s) = ground arith

-- A rune is a control rune exactly when the first byte of its sequence is a control byte.
rune-is_control :
    (a : ℕ) (s : Bytes) → (width a s == 0) ≡ false → is_control (rune a s) ≡ is_control a
unfolding width rune
rune-is_control a [] h = ground arith
rune-is_control a (b ∷ []) h = ground arith
rune-is_control a (b ∷ c ∷ []) h = ground arith
rune-is_control a (b ∷ c ∷ d ∷ s) h = ground arith

runes_from-control :
    (n : ℕ) (s : Bytes)
    → AboveAscii n s
    → valid_from n s ≡ true
    → any is_control (runes_from n s) ≡ any is_control s
unfolding runes_from valid_from
runes_from-control zero [] a h = refl
runes_from-control (suc n) [] a h = refl
runes_from-control (suc n) (b ∷ s) a h = ground (arith, runes_from-control n s a.1)
runes_from-control zero (b ∷ s) a h =
    ground (arith, rune-is_control b s, runes_from-control (width b s - 1) s (width-AboveAscii b s))

-- The rules for a name.
pub record IsName (s : Bytes) (max_bytes : ℕ) : Type 0 where
  pub not_empty : s ≢ []
  pub short : length s ≤ max_bytes
  pub utf8 : valid s ≡ true
  pub printable : any is_control s ≡ false

-- validName accepts a name exactly when it is not empty, is within the byte cap, is valid UTF-8
-- and has no byte below 0x20 and no byte 0x7F.
pub valid_name_iff : (s : Bytes) (n : ℕ) → (valid_name s n ≡ none) ↔ IsName s n
unfolding valid_name valid runes
valid_name_iff s n = (
  λ h. record {
    not_empty = ground (arith, eq_bytes_iff s []);
    short = ground arith;
    utf8 = ground arith;
    printable = ground (arith, runes_from-control 0 s tt);
  },
  λ h. ground (arith, eq_bytes_iff s [], runes_from-control 0 s tt),
)
