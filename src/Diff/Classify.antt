-- ===== src/Diff/Classify.antt =====
-- diff.go: `classifyToolDrift` and `SafetyOrDisplayChanged`.
use surfacelock.Prelude.{
  ℕ, zero, suc, ◌+◌, ◌/◌, ◌%◌, Bool, true, false, not, ◌&&◌, ◌||◌, Option, none, some, List, [],
  ◌∷◌, ◌++◌, ltb, if◌then◌else◌, Map,
}
use surfacelock.Prelude.Bytes.{Bytes, codes, eq_bytes, lt_bytes}
use surfacelock.External.{External}
use surfacelock.Diff.Class.{Class, description, schema, metadata}
use surfacelock.Go.Json.Value.{
  Any, Elements, Members, null, bool, num, str, arr, obj, no_elements, element, no_members, member,
}
use surfacelock.Go.Json.Unmarshal.{unmarshal_any, member_of, as_object}

-- reflect.DeepEqual on `any` values.
unfoldable mutual
  unfolding eq_bytes

  pub deep_equal : Any → Any → Bool
  deep_equal null null = true
  deep_equal (bool true) (bool true) = true
  deep_equal (bool false) (bool false) = true
  deep_equal (num a) (num b) = eq_bytes a b
  deep_equal (str a) (str b) = eq_bytes a b
  deep_equal (arr xs) (arr ys) = equal_elements xs ys
  deep_equal (obj ms) (obj ns) = equal_members ms ns
  deep_equal _ _ = false

  pub equal_elements : Elements → Elements → Bool
  equal_elements no_elements no_elements = true
  equal_elements (element a xs) (element b ys) = deep_equal a b && equal_elements xs ys
  equal_elements _ _ = false

  pub equal_members : Members → Members → Bool
  equal_members no_members no_members = true
  equal_members (member j a ms) (member k b ns) =
      eq_bytes j k && (deep_equal a b && equal_members ms ns)
  equal_members _ _ = false

-- The decimal digits of an index, as `%d` prints them.
digits_from : ℕ → ℕ → Bytes → Bytes
digits_from zero n out = out
digits_from (suc fuel) n out =
    let out' = (b'0' + n % 10) ∷ out in
    let rest = digits_from fuel (n / 10) out' in if ltb n 10 then out' else rest

unfoldable pub decimal : ℕ → Bytes
unfolding digits_from
decimal n = digits_from (suc n) n []

-- A map[string]string in the order of its keys, so that DeepEqual is equality.
unfoldable pub put_text : Bytes → Bytes → Map Bytes → Map Bytes
put_text k v [] = (k, v) ∷ []
put_text k v ((j, w) ∷ m) =
    if eq_bytes j k
    then (k, v) ∷ m
    else if lt_bytes k j
    then (k, v) ∷ (j, w) ∷ m
    else (j, w) ∷ put_text k v m

-- The writes `out[p] = s`, made one after the other.
unfoldable pub write_all : Map Bytes → Map Bytes → Map Bytes
unfolding put_text
write_all out [] = out
write_all out ((p, s) ∷ ws) = write_all (put_text p s out) ws

unfoldable pub equal_texts : Map Bytes → Map Bytes → Bool
equal_texts [] [] = true
equal_texts ((j, v) ∷ m) ((k, w) ∷ n) = eq_bytes j k && (eq_bytes v w && equal_texts m n)
equal_texts _ _ = false

unfoldable pub concat : Map (Map Bytes) → Map Bytes
concat [] = []
concat ((k, ws) ∷ m) = ws ++ concat m

abbrev is_text : Any → Bool
is_text (str s) = true
is_text _ = false

-- A string-valued "description" member.
unfoldable pub is_description : Bytes → Any → Bool
is_description k v = eq_bytes k (codes "description") && is_text v

abbrev text_of : Any → Bytes
text_of (str s) = s
text_of _ = []

module _ ⦃ext : External⦄ where
  -- The closure `walk` of collectDescriptions: the writes it makes, in their order.
  unfoldable mutual
    unfolding is_description decimal concat

    pub walk : Any → Bytes → Map Bytes
    walk (obj ms) path = concat (ext.range (walk_members ms path))
    walk (arr xs) path = walk_elements 0 xs path
    walk _ path = []

    -- The writes of each member, under its key.
    pub walk_members : Members → Bytes → Map (Map Bytes)
    walk_members no_members path = []
    walk_members (member k v ms) path =
        let p = path ++ b'/' ∷ k in
        let below = walk v p in
        (k, if is_description k v then (p, text_of v) ∷ [] else below) ∷ walk_members ms path

    pub walk_elements : ℕ → Elements → Bytes → Map Bytes
    walk_elements i no_elements path = []
    walk_elements i (element v xs) path =
        walk v (path ++ b'/' ∷ decimal i) ++ walk_elements (i + 1) xs path

  -- collectDescriptions
  unfoldable pub collect_descriptions : Any → Map Bytes
  unfolding walk write_all
  collect_descriptions v = write_all [] (walk v [])

-- stripDescriptions
unfoldable mutual
  unfolding is_description

  pub strip_descriptions : Any → Any
  strip_descriptions (obj ms) = obj (strip_members ms)
  strip_descriptions (arr xs) = arr (strip_elements xs)
  strip_descriptions v = v

  pub strip_members : Members → Members
  strip_members no_members = no_members
  strip_members (member k v ms) =
      let rest = strip_members ms in
      let kept = member k (strip_descriptions v) rest in if is_description k v then rest else kept

  pub strip_elements : Elements → Elements
  strip_elements no_elements = no_elements
  strip_elements (element v xs) = element (strip_descriptions v) (strip_elements xs)

unfoldable pub residual_members : Members → Members
residual_members no_members = no_members
residual_members (member k v ms) =
    let rest = residual_members ms in
    if eq_bytes k (codes "inputSchema")
      || (eq_bytes k (codes "outputSchema") || eq_bytes k (codes "annotations"))
    then rest
    else member k v rest

-- residual; of a nil map it is nil.
unfoldable pub residual : Any → Any
unfolding residual_members strip_descriptions
residual (obj ms) = strip_descriptions (obj (residual_members ms))
residual _ = null

-- The test for one of "inputSchema" and "outputSchema".
unfoldable pub contract_changed : Bytes → Any → Any → Bool
unfolding strip_descriptions deep_equal member_of
contract_changed key old new = not (
    deep_equal (strip_descriptions (member_of key (as_object old)))
      (strip_descriptions (member_of key (as_object new))))

unfoldable pub member_changed : Bytes → Any → Any → Bool
unfolding deep_equal member_of
member_changed key old new =
    not (deep_equal (member_of key (as_object old)) (member_of key (as_object new)))

unfoldable pub schema_changed : Any → Any → Bool
unfolding contract_changed member_changed
schema_changed old new =
    contract_changed (codes "inputSchema") old new
    || (contract_changed (codes "outputSchema") old new
        || member_changed (codes "annotations") old new)

unfoldable pub metadata_changed : Any → Any → Bool
unfolding residual deep_equal
metadata_changed old new = not (deep_equal (residual old) (residual new))

-- The classes, from the three comparisons; metadata where none of them differs.
unfoldable pub classes_of : Bool → Bool → Bool → List Class
classes_of d s m =
    let found =
      (if d then description ∷ [] else [])
      ++ ((if s then schema ∷ [] else []) ++ (if m then metadata ∷ [] else [])) in
    elim found [ [] ↦ metadata ∷ [] | c ∷ cs ↦ c ∷ cs ]

module _ ⦃ext : External⦄ where
  unfoldable pub description_changed : Any → Any → Bool
  unfolding collect_descriptions equal_texts
  description_changed old new =
      not (equal_texts (collect_descriptions old) (collect_descriptions new))

  -- classifyToolDrift and ClassifyTool; `none` is an error.
  unfoldable pub classify : Bytes → Bytes → Option (List Class)
  classify old_raw new_raw = elim (unmarshal_any ext.float64 old_raw) [
    | none ↦ none
    | some old ↦ elim (unmarshal_any ext.float64 new_raw) [
      | none ↦ none
      | some new ↦ some (
          classes_of (description_changed old new) (schema_changed old new)
            (metadata_changed old new))
    ]
  ]

  -- SafetyOrDisplayChanged; `none` is an error.
  unfoldable pub safety_or_display_changed : Bytes → Bytes → Option Bool
  unfolding member_changed
  safety_or_display_changed old_raw new_raw = elim (unmarshal_any ext.float64 old_raw) [
    | none ↦ none
    | some old ↦ elim (unmarshal_any ext.float64 new_raw) [
      | none ↦ none
      | some new ↦
          some
            (member_changed (codes "annotations") old new || member_changed (codes "title") old new)
    ]
  ]
