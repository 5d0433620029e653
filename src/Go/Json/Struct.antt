-- ===== src/Go/Json/Struct.antt =====
-- `json.Unmarshal` into a struct: each member of the object goes to the field whose name is the
-- same up to case, one member after the other. `none` is a non-nil error.
use surfacelock.Prelude.{
  ℕ, zero, suc, ◌+◌, ◌-◌, ◌*◌, ◌^◌, ◌≡◌, refl, Bool, true, false, Option, none, some, List, [], ◌∷◌,
  ltb, ◌==◌, within, if◌then◌else◌, Map,
}
use surfacelock.Prelude.Bytes.{Bytes, codes}
use mathlib.Core.Option
use surfacelock.Go.Json.Value.{Value, Items, Fields, null, num, str, arr, obj}
use surfacelock.Go.Json.Scan.{scan}
use surfacelock.Go.Json.Unmarshal.{slice, raw_members}

-- An int64, as `-(n + 1)` or `n`.
pub data ℤ : Type 0 where
  pos : ℕ → ℤ
  negsuc : ℕ → ℤ

-- strconv.ParseInt in base 10, of a number literal.
digits_value : ℕ → Bytes → Option ℕ
digits_value n [] = some n
digits_value n (c ∷ s) =
    let rest = digits_value (n * 10 + (c - b'0')) s in if within b'0' b'9' c then rest else none

unfoldable pub parse_int : Bytes → Option ℤ
unfolding digits_value
parse_int [] = none
parse_int (c ∷ s) =
    if c == b'-'
    then elim (digits_value 0 s) [
      | none ↦ none
      | some zero ↦ some (pos 0)
      | some (suc n) ↦ if ltb n (2 ^ 63) then some (negsuc n) else none
    ]
    else elim (digits_value 0 (c ∷ s)) [
      | none ↦ none
      | some n ↦ if ltb n (2 ^ 63) then some (pos n) else none
    ]

-- A string field: `null` leaves it as it is.
unfoldable pub set_string : Bytes → Value → Option Bytes
set_string old (str s) = some s
set_string old null = some old
set_string old _ = none

-- An int64 field.
unfoldable pub set_int : ℤ → Value → Option ℤ
unfolding parse_int
set_int old (num t) = parse_int t
set_int old null = some old
set_int old _ = none

-- A field of type map[string]json.RawMessage: an object joins what the field holds.
unfoldable pub set_map : Bytes → Option (Map Bytes) → Value → Option (Option (Map Bytes))
unfolding raw_members
set_map raw old (obj fs) = some (some (raw_members raw (elim old [ none ↦ [] | some m ↦ m ]) fs))
set_map raw old null = some none
set_map raw old _ = none

-- A field of type []json.RawMessage, whose elements nothing reads.
unfoldable pub check_list : Value → Bool
check_list (arr xs) = true
check_list null = true
check_list _ = false

module _ {ℓ} {S : Type ℓ} where
  -- The members one after the other.
  unfoldable pub set_fields : (S → Bytes → Bytes → Value → Option S) → Bytes → S → Fields → Option S
  unfolding slice
  set_fields assign raw s Fields.end = some s
  set_fields assign raw s (Fields.field k p v fs) =
      Option.bind (assign s k (slice p raw) v) (λ t. set_fields assign raw t fs)

  -- The whole call, from the struct's zero value; the literal `null` changes nothing.
  unfoldable pub unmarshal_struct : (S → Bytes → Bytes → Value → Option S) → S → Bytes → Option S
  unfolding set_fields scan
  unmarshal_struct assign s raw = elim (scan raw) [
    | none ↦ none
    | some v ↦ elim v [ obj fs ↦ set_fields assign raw s fs | null ↦ some s | _ ↦ none ]
  ]

-- Into []map[string]json.RawMessage: the element `null` is a nil map.
map_items : Bytes → Items → Option (List (Map Bytes))
unfolding raw_members
map_items raw Items.nil = some []
map_items raw (Items.cons p v xs) =
    let rest = map_items raw xs in
    elim v [
      | obj fs ↦ Option.map (λ (ms : List (Map Bytes)). raw_members raw [] fs ∷ ms) rest
      | null ↦ Option.map (λ (ms : List (Map Bytes)). [] ∷ ms) rest
      | _ ↦ none
    ]

unfoldable pub unmarshal_maps : Bytes → Option (List (Map Bytes))
unfolding map_items scan
unmarshal_maps raw = elim (scan raw) [
  | none ↦ none
  | some v ↦ elim v [ arr xs ↦ map_items raw xs | null ↦ some [] | _ ↦ none ]
]

parse_int_runs : parse_int (codes "-32602") ≡ some (negsuc 32601)
unfolding parse_int
parse_int_runs = refl
