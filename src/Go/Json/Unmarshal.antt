-- ===== src/Go/Json/Unmarshal.antt =====
-- `json.Unmarshal` into the types that the source decodes into. `none` is a non-nil error.
-- The literal `null` is no error: it leaves a map or slice nil and a string empty.
use mathlib.Core.Option
use surfacelock.Prelude.{
  ◌-◌, ◌≡◌, refl, Option, none, some, List, [], ◌∷◌, if◌then◌else◌, take, drop, Map, insert,
}
use surfacelock.Prelude.Bytes.{Bytes, codes, eq_bytes, lt_bytes}
use surfacelock.Go.Json.Value.{
  Span, Value, Items, Fields, Any, Elements, Members, null, num, str, arr, obj, no_elements,
  element, no_members, member,
}
use surfacelock.Go.Json.Numbers.{is_number}
use surfacelock.Go.Json.Scan.{scan}

-- The bytes of the input that a value takes.
unfoldable pub slice : Span → Bytes → Bytes
slice p raw = take (p.stop - p.start) (drop p.start raw)

-- Into map[string]json.RawMessage: of members with one name the last stays.
unfoldable pub raw_members : Bytes → Map Bytes → Fields → Map Bytes
unfolding slice insert
raw_members raw m Fields.end = m
raw_members raw m (Fields.field k p v fs) = raw_members raw (insert k (slice p raw) m) fs

unfoldable pub unmarshal_map : Bytes → Option (Map Bytes)
unfolding raw_members scan
unmarshal_map raw = elim (scan raw) [
  | none ↦ none
  | some v ↦ elim v [ obj fs ↦ some (raw_members raw [] fs) | null ↦ some [] | _ ↦ none ]
]

-- Into []json.RawMessage.
raw_items : Bytes → Items → List Bytes
unfolding slice
raw_items raw Items.nil = []
raw_items raw (Items.cons p v xs) = slice p raw ∷ raw_items raw xs

unfoldable pub unmarshal_list : Bytes → Option (List Bytes)
unfolding raw_items scan
unmarshal_list raw = elim (scan raw) [
  | none ↦ none
  | some v ↦ elim v [ arr xs ↦ some (raw_items raw xs) | null ↦ some [] | _ ↦ none ]
]

-- Into a string.
unfoldable pub unmarshal_string : Bytes → Option Bytes
unfolding scan
unmarshal_string raw = elim (scan raw) [
  | none ↦ none
  | some v ↦ elim v [ str s ↦ some s | null ↦ some [] | _ ↦ none ]
]

-- Into []string.
string_items : Items → Option (List Bytes)
string_items Items.nil = some []
string_items (Items.cons p v xs) =
    let rest = string_items xs in
    elim v [
      | str s ↦ Option.map (λ (ss : List Bytes). s ∷ ss) rest
      | null ↦ Option.map (λ (ss : List Bytes). [] ∷ ss) rest
      | _ ↦ none
    ]

unfoldable pub unmarshal_strings : Bytes → Option (List Bytes)
unfolding string_items scan
unmarshal_strings raw = elim (scan raw) [
  | none ↦ none
  | some v ↦ elim v [ arr xs ↦ string_items xs | null ↦ some [] | _ ↦ none ]
]

-- Into a json.Number: a number, or a string that holds one.
unfoldable pub unmarshal_number : Bytes → Option Bytes
unfolding scan is_number
unmarshal_number raw = elim (scan raw) [
  | none ↦ none
  | some v ↦ elim v [
    | num t ↦ some t
    | str s ↦ if is_number s then some s else none
    | null ↦ some []
    | _ ↦ none
  ]
]

-- m[k] = v, in the order of the keys.
unfoldable pub put : Bytes → Any → Members → Members
put k v no_members = member k v no_members
put k v (member j w ms) =
    if eq_bytes j k
    then member k v ms
    else if lt_bytes k j
    then member k v (member j w ms)
    else member j w (put k v ms)

-- Into any. `float64` gives a text that stands for the nearest float64 of a number, and `none`
-- where the number is out of range, which fails the whole call.
module _ (float64 : Bytes → Option Bytes) where
  unfoldable mutual
    unfolding put

    pub any_of : Value → Option Any
    any_of Value.null = some Any.null
    any_of (Value.bool b) = some (Any.bool b)
    any_of (Value.num t) = Option.map Any.num (float64 t)
    any_of (Value.str s) = some (Any.str s)
    any_of (Value.arr xs) = Option.map Any.arr (elements_of xs)
    any_of (Value.obj fs) = Option.map Any.obj (members_of no_members fs)

    pub elements_of : Items → Option Elements
    elements_of Items.nil = some no_elements
    elements_of (Items.cons p v xs) =
        Option.bind (any_of v) (λ a. Option.map (element a) (elements_of xs))

    pub members_of : Members → Fields → Option Members
    members_of m Fields.end = some m
    members_of m (Fields.field k p v fs) = Option.bind (any_of v) (λ a. members_of (put k a m) fs)

  unfoldable pub unmarshal_any : Bytes → Option Any
  unfolding scan any_of
  unmarshal_any raw = Option.bind (scan raw) any_of

-- obj[k] of a map[string]any; nil where there is no such member.
unfoldable pub member_of : Bytes → Members → Any
member_of k no_members = Any.null
member_of k (member j v ms) = if eq_bytes j k then v else member_of k ms

-- `v.(map[string]any)`, an empty map where `v` is no object.
abbrev pub as_object : Any → Members
as_object (Any.obj ms) = ms
as_object _ = no_members

unmarshal_map_runs :
    unmarshal_map (codes "{\"a\": [1, null],\"b\":\"x\",\"a\":2}")
    ≡ some ((codes "a", codes "2") ∷ (codes "b", codes "\"x\"") ∷ [])
unfolding unmarshal_map eq_bytes
unmarshal_map_runs = refl
