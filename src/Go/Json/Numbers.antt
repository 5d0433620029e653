-- ===== src/Go/Json/Numbers.antt =====
-- encoding/json's grammar of numbers.
use surfacelock.Prelude.{
  Bool, true, false, ◌||◌, Option, none, some, [], ◌∷◌, ◌==◌, within, if◌then◌else◌,
}
use surfacelock.Prelude.Bytes.{Bytes}

-- The grammar of numbers: `digits` needs one digit at least.
skip_digits : Bytes → Bytes
skip_digits [] = []
skip_digits (c ∷ s) = let rest = skip_digits s in if within b'0' b'9' c then rest else c ∷ s

digits : Bytes → Option Bytes
unfolding skip_digits
digits [] = none
digits (c ∷ s) = if within b'0' b'9' c then some (skip_digits s) else none

exponent : Bytes → Bool
unfolding digits
exponent [] = true
exponent (c ∷ s) =
    if c == b'e' || c == b'E'
    then elim (digits (elim s [ [] ↦ [] | d ∷ r ↦ if d == b'+' || d == b'-' then r else d ∷ r ])) [
      | some [] ↦ true
      | _ ↦ false
    ]
    else false

fraction : Bytes → Bool
unfolding digits exponent
fraction [] = true
fraction (c ∷ s) =
    if c == b'.' then elim (digits s) [ none ↦ false | some r ↦ exponent r ] else exponent (c ∷ s)

integer : Bytes → Bool
unfolding skip_digits fraction
integer [] = false
integer (c ∷ s) =
    if c == b'0' then fraction s else if within b'1' b'9' c then fraction (skip_digits s) else false

unfoldable pub is_number : Bytes → Bool
unfolding integer
is_number [] = false
is_number (c ∷ s) = if c == b'-' then integer s else integer (c ∷ s)
