-- ===== src/Surface/Keys.antt =====
-- surface.go: `checkAliasedToolKeys`, the walk over a tool object's member names.
use surfacelock.Prelude.{
  ℕ, Bool, true, false, ◌&&◌, ◌||◌, Option, none, some, List, [], ◌∷◌, map, if◌then◌else◌,
}
use surfacelock.Prelude.Bytes.{Bytes, codes, contains}
use surfacelock.External.{External}
use surfacelock.Go.Utf8.{runes}
use surfacelock.Go.Json.Value.{
  Any, Elements, Members, arr, obj, no_elements, element, no_members, member,
}
use surfacelock.Go.Json.Unmarshal.{unmarshal_any}
use surfacelock.Decode.{is_variant}

-- toolSensitiveKeys: the exact spelling, and whether it is sensitive at every depth.
abbrev pub tool_sensitive_keys : List (Bytes × Bool)
tool_sensitive_keys =
    (codes "name", false)
    ∷ (codes "description", true)
    ∷ (codes "title", true)
    ∷ (codes "inputSchema", false)
    ∷ (codes "outputSchema", false)
    ∷ (codes "annotations", false)
    ∷ []

pub data KeyError : Type 0 where
  not_json_object collision sensitive_variant : KeyError

module _ ⦃ext : External⦄ where
  -- foldKey, as the list of its runes.
  unfoldable pub fold_key : Bytes → List ℕ
  fold_key s = map ext.fold (runes s)

  -- The inner loop over `toolSensitiveKeys`.
  unfoldable pub shadows : Bool → Bytes → List (Bytes × Bool) → Bool
  shadows top k [] = false
  shadows top k ((canon, deep) ∷ rest) = ((top || deep) && is_variant k canon) || shadows top k rest

  -- The loop over the member names of one object.
  unfoldable pub check_keys : Bool → List (List ℕ) → Members → Option KeyError
  unfolding fold_key shadows
  check_keys top seen no_members = none
  check_keys top seen (member k v ms) =
      let rest = check_keys top (fold_key k ∷ seen) ms in
      if contains seen (fold_key k)
      then some collision
      else if shadows top k tool_sensitive_keys
      then some sensitive_variant
      else rest

  -- walkAliasedKeys
  unfoldable mutual
    unfolding check_keys

    pub walk_aliased_keys : Any → Bool → Option KeyError
    walk_aliased_keys (obj ms) top = elim (check_keys top [] ms) [
      | some e ↦ some e
      | none ↦ walk_aliased_members ms
    ]
    walk_aliased_keys (arr xs) top = walk_aliased_elements xs
    walk_aliased_keys _ top = none

    pub walk_aliased_members : Members → Option KeyError
    walk_aliased_members no_members = none
    walk_aliased_members (member k v ms) = elim (walk_aliased_keys v false) [
      | some e ↦ some e
      | none ↦ walk_aliased_members ms
    ]

    pub walk_aliased_elements : Elements → Option KeyError
    walk_aliased_elements no_elements = none
    walk_aliased_elements (element v xs) = elim (walk_aliased_keys v false) [
      | some e ↦ some e
      | none ↦ walk_aliased_elements xs
    ]

  -- checkAliasedToolKeys
  unfoldable pub check_aliased_tool_keys : Bytes → Option KeyError
  unfolding walk_aliased_keys
  check_aliased_tool_keys raw = elim (unmarshal_any ext.float64 raw) [
    | none ↦ some not_json_object
    | some v ↦ walk_aliased_keys v true
  ]
