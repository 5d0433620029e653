-- ===== src/Cli/Reflected.antt =====
-- cmd/surfacelock/headers.go: the refusal to write a lockfile that repeats a header's value.
pub mod Guard
use surfacelock.Prelude.{
  ℕ, ◌-◌, Bool, Option, none, some, List, [], ◌∷◌, ltb, if◌then◌else◌, length, take, drop, any,
}
use surfacelock.Prelude.Bytes.{Bytes, eq_bytes}
use surfacelock.Go.Text.{contains_text}
use surfacelock.Go.Json.Strings.{marshal_string}
use surfacelock.Headers.{Headers, sorted_entries}

-- reflectionMinLen
abbrev pub reflection_min_len : ℕ
reflection_min_len = 8

-- `enc[1 : len(enc)-1]`
abbrev pub json_spelling : Bytes → Bytes
json_spelling v = let enc = marshal_string v in take (length enc - 2) (drop 1 enc)

-- `needles`
unfoldable pub needles : Bytes → List Bytes
needles v = if eq_bytes (json_spelling v) v then v ∷ [] else v ∷ json_spelling v ∷ []

-- containsAny
unfoldable pub contains_any : Bytes → List Bytes → Bool
contains_any doc ns = any (contains_text doc) ns

-- The loop over the headers: the name of the one that is repeated.
unfoldable pub find_reflected : Bytes → Headers → Option Bytes
unfolding needles contains_any
find_reflected doc [] = none
find_reflected doc ((name, v) ∷ h) =
    let rest = find_reflected doc h in
    if ltb (length v) reflection_min_len
    then rest
    else if contains_any doc (needles v)
    then some name
    else rest

-- refuseReflectedCredential; `none` is a nil error.
unfoldable pub refuse_reflected_credential : Headers → Bytes → Option Bytes
unfolding find_reflected
refuse_reflected_credential headers rendered = find_reflected rendered (sorted_entries headers)
