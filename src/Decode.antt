-- ===== src/Decode.antt =====
-- decode.go: exact-key decoding of a JSON object, and the check for unpaired surrogate escapes.
pub mod Surrogates
use surfacelock.Prelude.{
  ℕ, zero, suc, Bool, true, false, not, ◌&&◌, ◌||◌, Option, none, some, List, [], ◌∷◌, map, ◌==◌,
  if◌then◌else◌, drop, any, Map,
}
use surfacelock.Prelude.Bytes.{Bytes, eq_bytes}
use surfacelock.Prelude.Results.{Result, ok, err}
use surfacelock.External.{External}
use surfacelock.Canonical.{canonicalize}
use surfacelock.Go.Utf8.{runes}
use surfacelock.Go.Json.Strings.{hex4, is_high, is_low}
use surfacelock.Go.Json.Unmarshal.{unmarshal_map}

pub data DecodeError : Type 0 where
  not_canonicalizable not_object case_variant : DecodeError

module _ ⦃ext : External⦄ where
  -- strings.EqualFold
  unfoldable pub equal_fold : Bytes → Bytes → Bool
  equal_fold s t = eq_bytes (map ext.fold (runes s)) (map ext.fold (runes t))

  -- `k != want && strings.EqualFold(k, want)`
  unfoldable pub is_variant : Bytes → Bytes → Bool
  unfolding equal_fold
  is_variant k want = not (eq_bytes k want) && equal_fold k want

  -- The inner loop over the consumed keys.
  unfoldable pub aliases : List Bytes → Bytes → Bool
  unfolding is_variant
  aliases consumed k = any (is_variant k) consumed

  -- The loop over the members of a decoded object.
  unfoldable pub has_alias : List Bytes → Map Bytes → Bool
  unfolding aliases
  has_alias consumed [] = false
  has_alias consumed ((k, v) ∷ m) = aliases consumed k || has_alias consumed m

  -- DecodeExact
  unfoldable pub decode_exact : Bytes → List Bytes → Result DecodeError (Map Bytes)
  unfolding has_alias
  decode_exact raw consumed = elim (canonicalize raw) [
    | none ↦ err not_canonicalizable
    | some _ ↦ elim (unmarshal_map raw) [
      | none ↦ err not_object
      | some obj ↦ if has_alias consumed obj then err case_variant else ok obj
    ]
  ]

-- `\u` and a low surrogate, directly behind the four digits of a high one: `raw[i+1]`, `raw[i+2]`
-- and `hex4(i + 3)`.
unfoldable pub low_follows : Bytes → Bool
low_follows (b ∷ u ∷ s) =
    b == 0x5C && (u == b'u' && elim (hex4 s) [ none ↦ false | some lo ↦ is_low lo ])
low_follows _ = false

-- One escape, given the bytes behind the backslash: how many of them the loop passes over, and
-- `none` where it returns false.
unfoldable pub escape_step : Bytes → Option ℕ
unfolding low_follows
escape_step [] = some 0
escape_step (c ∷ s) =
    if c == b'u'
    then elim (hex4 s) [
      | none ↦ none
      | some r ↦
          if is_high r
          then (if low_follows (drop 4 s) then some 11 else none)
          else if is_low r
          then none
          else some 5
    ]
    else some 1

-- The loop over the token; the number counts the bytes that `i` has still to pass.
unfoldable pub paired_from : ℕ → Bytes → Bool
unfolding escape_step
paired_from skip [] = true
paired_from (suc skip) (b ∷ s) = paired_from skip s
paired_from zero (b ∷ s) =
    let next = if b == 0x5C then escape_step s else some 0 in
    elim next [ none ↦ false | some skip ↦ paired_from skip s ]

-- PairedSurrogates
unfoldable pub paired_surrogates : Bytes → Bool
unfolding paired_from
paired_surrogates = paired_from 0
