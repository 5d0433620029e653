-- ===== src/Prelude/Bytes.antt =====
-- Go's `string` and `[]byte`: lists of bytes, their equality and their byte-wise order.
use Prim.Native.Char.{code}
use Prim.Native.Nat.{ℕ}
use Prim.Native.String.{String}
use mathlib.Core.Path.{◌≡◌, refl}
use mathlib.Core.Logic.{◌↔◌}
use mathlib.Core.Bool.{Bool, true, false, ◌&&◌, ◌||◌}
use mathlib.Core.List.{List, [], ◌∷◌}
use native.Mathlib.Omega.{arith}
use surfacelock.Prelude.Tests.{ltb, ◌==◌}

abbrev pub Bytes : Type 0
Bytes = List ℕ

-- The bytes of an ASCII literal of the source.
abbrev pub codes : String → Bytes
codes String.[] = []
codes (String.◌∷◌ c s) = code c ∷ codes s

-- Go's `a == b` on strings.
unfoldable pub eq_bytes : Bytes → Bytes → Bool
eq_bytes [] [] = true
eq_bytes (x ∷ xs) (y ∷ ys) = x == y && eq_bytes xs ys
eq_bytes _ _ = false

pub eq_bytes_iff : (a b : Bytes) → (eq_bytes a b ≡ true) ↔ (a ≡ b)
unfolding eq_bytes
eq_bytes_iff [] [] = ground arith
eq_bytes_iff [] (y ∷ ys) = ground arith
eq_bytes_iff (x ∷ xs) [] = ground arith
eq_bytes_iff (x ∷ xs) (y ∷ ys) = ground (arith, eq_bytes_iff xs ys)

pub eq_bytes_refl : (a : Bytes) → eq_bytes a a ≡ true
eq_bytes_refl a = (eq_bytes_iff a a).1 refl

-- Go's `a < b` on strings: the first byte that differs decides, and a prefix comes first.
unfoldable pub lt_bytes : Bytes → Bytes → Bool
lt_bytes [] [] = false
lt_bytes [] (y ∷ ys) = true
lt_bytes (x ∷ xs) [] = false
lt_bytes (x ∷ xs) (y ∷ ys) = ltb x y || (x == y && lt_bytes xs ys)

pub lt_bytes_irrefl : (a : Bytes) → lt_bytes a a ≡ false
unfolding lt_bytes
lt_bytes_irrefl [] = refl
lt_bytes_irrefl (x ∷ xs) = ground (arith, lt_bytes_irrefl xs)

pub lt_bytes_trans :
    (a b c : Bytes) → lt_bytes a b ≡ true → lt_bytes b c ≡ true → lt_bytes a c ≡ true
unfolding lt_bytes
lt_bytes_trans [] [] c h k = ground arith
lt_bytes_trans [] (y ∷ ys) [] h k = ground arith
lt_bytes_trans [] (y ∷ ys) (z ∷ zs) h k = refl
lt_bytes_trans (x ∷ xs) [] c h k = ground arith
lt_bytes_trans (x ∷ xs) (y ∷ ys) [] h k = ground arith
lt_bytes_trans (x ∷ xs) (y ∷ ys) (z ∷ zs) h k = ground (arith, lt_bytes_trans xs ys zs)

-- Of two different texts one is the smaller.
pub lt_bytes_total :
    (a b : Bytes) → eq_bytes a b ≡ false → lt_bytes a b ≡ false → lt_bytes b a ≡ true
unfolding lt_bytes eq_bytes
lt_bytes_total [] [] h k = ground arith
lt_bytes_total [] (y ∷ ys) h k = ground arith
lt_bytes_total (x ∷ xs) [] h k = refl
lt_bytes_total (x ∷ xs) (y ∷ ys) h k = ground (arith, lt_bytes_total xs ys)

pub lt_bytes_asym : (a b : Bytes) → lt_bytes a b ≡ true → lt_bytes b a ≡ false
unfolding lt_bytes
lt_bytes_asym [] [] h = ground arith
lt_bytes_asym [] (y ∷ ys) h = refl
lt_bytes_asym (x ∷ xs) [] h = ground arith
lt_bytes_asym (x ∷ xs) (y ∷ ys) h = ground (arith, lt_bytes_asym xs ys)

-- Membership of a text in a list of texts.
unfoldable pub contains : List Bytes → Bytes → Bool
contains [] a = false
contains (x ∷ xs) a = eq_bytes x a || contains xs a
