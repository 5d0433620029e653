-- ===== src/Go/Json/Scan.antt =====
-- The scanner (encoding/json/scanner.go), one step for each byte, with a stack of the objects and
-- arrays that are open; here it also builds the value that it passes over.
use surfacelock.Go.Json.Numbers.{is_number}
use surfacelock.Prelude.{
  ℕ, zero, suc, ◌+◌, ◌≡◌, refl, Bool, true, false, ◌||◌, Option, none, some, List, [], ◌∷◌, ◌++◌,
  ltb, leb, ◌==◌, within, if◌then◌else◌, length,
}
use surfacelock.Prelude.Bytes.{Bytes, codes, eq_bytes}
use surfacelock.Go.Json.Strings.{hex_digit, escaped, unquote}
use mathlib.Core.Option
use surfacelock.Go.Json.Value.{Value, Items, Fields, push_item, push_field}

-- What the scanner expects next.
pub data Mode : Type 0 where
  value item_or_close key key_or_close colon after_value : Mode
  -- In a string: whether it is a member's name, where in an escape it stands (0 for outside,
  -- 1 behind the backslash, 2 to 5 before the digits of `\u`), and the body so far.
  text : Bool → ℕ → Bytes → Mode
  -- A number or `true`, `false`, `null`.
  scalar : Bytes → Mode
  complete : Value → Mode

-- An open array, or an open object with the name of the member that is being read.
pub data Opened : Type 0 where
  array : ℕ → Items → Opened
  object : ℕ → Bytes → Fields → Opened

pub record State : Type 0 where
  pub mode : Mode
  pub frames : List Opened
  pub start : ℕ
  pub pos : ℕ

-- maxNestingDepth
abbrev max_nesting_depth : ℕ
max_nesting_depth = 10000

is_space : ℕ → Bool
is_space c = c == b' ' || (c == 9 || (c == 10 || c == 13))

literal : Bytes → Option Value
unfolding is_number eq_bytes
literal t =
    if eq_bytes t (codes "null")
    then some Value.null
    else if eq_bytes t (codes "true")
    then some (Value.bool true)
    else if eq_bytes t (codes "false")
    then some (Value.bool false)
    else if is_number t
    then some (Value.num t)
    else none

-- A value has ended before `stop`: it goes into the innermost open array or object.
close : State → ℕ → ℕ → Value → State
unfolding push_item push_field
close st start stop v = elim st.frames [
  | [] ↦ record st { mode = complete v }
  | array a xs ∷ fs ↦ record st {
    mode = after_value;
    frames = array a (push_item xs (record { start = start; stop = stop }) v) ∷ fs;
  }
  | object a k ms ∷ fs ↦ record st {
    mode = after_value;
    frames = object a [] (push_field ms k (record { start = start; stop = stop }) v) ∷ fs;
  }
]

open_frame : State → Opened → Mode → Option State
open_frame st f m =
    if leb (length st.frames + 1) max_nesting_depth
    then some (record st { mode = m; frames = f ∷ st.frames })
    else none

begin_value : State → ℕ → Option State
unfolding is_space open_frame
begin_value st c =
    if is_space c
    then some st
    else if c == b'{'
    then open_frame st (object st.pos [] Fields.end) key_or_close
    else if c == b'['
    then open_frame st (array st.pos Items.nil) item_or_close
    else if c == b'"'
    then some (record st { mode = text false 0 []; start = st.pos })
    else if c == b'-' || (within b'0' b'9' c || (c == b't' || (c == b'f' || c == b'n')))
    then some (record st { mode = scalar (c ∷ []); start = st.pos })
    else none

-- A closing bracket at `st.pos`.
end_array : State → Option State
unfolding close
end_array st = elim st.frames [
  | array a xs ∷ fs ↦ some (close (record st { frames = fs }) a (st.pos + 1) (Value.arr xs))
  | _ ↦ none
]

end_object : State → Option State
unfolding close
end_object st = elim st.frames [
  | object a k ms ∷ fs ↦ some (close (record st { frames = fs }) a (st.pos + 1) (Value.obj ms))
  | _ ↦ none
]

begin_key : State → ℕ → Option State
unfolding is_space
begin_key st c =
    if is_space c
    then some st
    else if c == b'"'
    then some (record st { mode = text true 0 []; start = st.pos })
    else none

end_value : State → ℕ → Option State
unfolding is_space end_array end_object
end_value st c =
    if is_space c
    then some st
    else if c == b','
    then elim st.frames [
      | [] ↦ none
      | array a xs ∷ fs ↦ some (record st { mode = value })
      | object a k ms ∷ fs ↦ some (record st { mode = key })
    ]
    else if c == b']'
    then end_array st
    else if c == b'}'
    then end_object st
    else none

end_text : State → Bool → Bytes → Option State
unfolding close unquote
end_text st true body = elim st.frames [
  | object a k ms ∷ fs ↦ some (record st { mode = colon; frames = object a (unquote body) ms ∷ fs })
  | _ ↦ none
]
end_text st false body = some (close st st.start (st.pos + 1) (Value.str (unquote body)))

in_text : State → Bool → ℕ → Bytes → ℕ → Option State
unfolding end_text hex_digit escaped
in_text st name zero body c =
    if c == b'"'
    then end_text st name body
    else if ltb c 0x20
    then none
    else some (record st { mode = text name (if c == 0x5C then 1 else 0) (body ++ c ∷ []) })
in_text st name (suc zero) body c =
    if c == b'u'
    then some (record st { mode = text name 5 (body ++ c ∷ []) })
    else elim (escaped c) [
      | none ↦ none
      | some _ ↦ some (record st { mode = text name 0 (body ++ c ∷ []) })
    ]
in_text st name (suc (suc n)) body c = elim (hex_digit c) [
  | none ↦ none
  | some _ ↦ some (record st { mode = text name (if n == 0 then 0 else n + 1) (body ++ c ∷ []) })
]

is_scalar_byte : ℕ → Bool
is_scalar_byte c =
    within b'0' b'9' c
    || (within b'a' b'z' c || (c == b'E' || (c == b'+' || (c == b'-' || c == b'.'))))

-- What follows a value that is complete: white space only.
after : State → ℕ → Option State
unfolding is_space end_value
after st c = elim st.mode [ complete v ↦ if is_space c then some st else none | _ ↦ end_value st c ]

in_scalar : State → Bytes → ℕ → Option State
unfolding is_scalar_byte literal close after
in_scalar st t c =
    if is_scalar_byte c
    then some (record st { mode = scalar (t ++ c ∷ []) })
    else elim (literal t) [ none ↦ none | some v ↦ after (close st st.start st.pos v) c ]

step_mode : Mode → State → ℕ → Option State
unfolding begin_value begin_key end_value in_text in_scalar after end_array end_object
step_mode value st c = begin_value st c
step_mode item_or_close st c = if c == b']' then end_array st else begin_value st c
step_mode key st c = begin_key st c
step_mode key_or_close st c = if c == b'}' then end_object st else begin_key st c
step_mode colon st c =
    if is_space c then some st else if c == b':' then some (record st { mode = value }) else none
step_mode after_value st c = end_value st c
step_mode (text name esc body) st c = in_text st name esc body c
step_mode (scalar t) st c = in_scalar st t c
step_mode (complete v) st c = if is_space c then some st else none

finish_mode : Mode → List Opened → Option Value
unfolding literal
finish_mode (complete v) fs = some v
finish_mode (scalar t) [] = literal t
finish_mode _ _ = none

run_bytes : Option State → Bytes → Option Value
unfolding step_mode finish_mode
run_bytes none s = none
run_bytes (some st) [] = finish_mode st.mode st.frames
run_bytes (some st) (c ∷ s) =
    run_bytes (Option.map (λ (t : State). record t { pos = t.pos + 1 }) (step_mode st.mode st c)) s

-- `checkValid`, with the value that the text holds.
unfoldable pub scan : Bytes → Option Value
unfolding run_bytes
scan = run_bytes (some (record { mode = value; frames = []; start = 0; pos = 0 }))

scan_runs :
    scan (codes " {\"a\": [1, null],\"b\":\"x\"} ")
    ≡ some (
        Value.obj (
          Fields.field
            (codes "a")
            (record { start = 7; stop = 16 })
            (Value.arr (
              Items.cons
                (record { start = 8; stop = 9 })
                (Value.num (codes "1"))
                (Items.cons (record { start = 11; stop = 15 }) Value.null Items.nil)))
            (Fields.field
              (codes "b")
              (record { start = 21; stop = 24 })
              (Value.str (codes "x"))
              Fields.end)))
unfolding scan
scan_runs = refl

scan_refuses : scan (codes "{\"a\":01}") ≡ none
unfolding scan
scan_refuses = refl
