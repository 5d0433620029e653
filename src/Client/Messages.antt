-- ===== src/Client/Messages.antt =====
-- client/client.go: how a call finds its answer among what a server sends, on stdio, in one JSON
-- body and in an event stream.
pub mod Answered
use surfacelock.Prelude.{
  ℕ, zero, suc, ◌+◌, ◌-◌, ◌*◌, ◌/◌, ◌%◌, ◌^◌, ◌≤◌, ◌<◌, ◌≡◌, refl, sym, ap, ◌∙◌, subst, ◌≢◌, ◌↔◌,
  ◌⊎◌, inl, inr, Bool, true, false, not, ◌&&◌, ◌||◌, Option, none, some, List, [], ◌∷◌, ◌++◌, map,
  arith, ltb, leb, ◌==◌, within, if◌then◌else◌, ltb→lt, lt→ltb, leb→le, ==_iff, Bool-cases,
  Option-cases, length, take, drop, all, any, length-append, All, All-append, Map, lookup, insert,
  remove, lookup-insert, lookup-remove, length-insert, length-remove,
}
use surfacelock.Prelude.Bytes.{
  Bytes, codes, eq_bytes, eq_bytes_iff, eq_bytes_refl, lt_bytes, lt_bytes_irrefl, lt_bytes_trans,
  lt_bytes_total, lt_bytes_asym, contains,
}
use surfacelock.Prelude.Results.{Result, ok, err, ◌>>=◌, ◌>>◌, refuse_if, >>=-eq-ok, Result-cases}
use mathlib.Core.Option
use surfacelock.External.{External}
use surfacelock.Decode.{equal_fold}
use surfacelock.Go.Text.{has_prefix, trim_space}
use surfacelock.Go.Json.Value.{Value}
use surfacelock.Go.Json.Scan.{scan}
use surfacelock.Go.Json.Unmarshal.{unmarshal_string}
use surfacelock.Go.Json.Struct.{ℤ, pos, negsuc, set_int, set_string, unmarshal_struct}
use surfacelock.Diff.Classify.{decimal}
use surfacelock.Conformance.View.{RpcError, set_error}
use surfacelock.Client.Session.{CallError, inadmissible_answer, failed}

-- envelope; [] is a nil json.RawMessage.
pub record Message : Type 0 where
  pub id : Bytes
  pub method : Bytes
  pub result : Bytes
  pub error : Option RpcError

abbrev empty_message : Message
empty_message = record { id = []; method = []; result = []; error = none }

-- How what a server sends ends: one line is longer than the cap, or anything else that ends it,
-- the deadline included.
pub data Ending : Type 0 where
  too_long over : Ending

abbrev pub ending_error : Ending → CallError
ending_error too_long = inadmissible_answer
ending_error over = failed

-- What the call of an http session reads of its response; none where reading the body fails, and
-- the lines of an event stream.
pub record Reply : Type 0 where
  pub status : ℕ
  pub content_type : Bytes
  pub body : Option Bytes
  pub lines : List Bytes
  pub ending : Ending

module _ ⦃ext : External⦄ where
  -- The field of a member: id and result keep the bytes, `null` included.
  assign_message : Bytes → Message → Bytes → Bytes → Value → Option Message
  assign_message whole m k raw v =
      if equal_fold k (codes "id")
      then some (record m { id = raw })
      else if equal_fold k (codes "method")
      then Option.map (λ (s : Bytes). record m { method = s }) (set_string m.method v)
      else if equal_fold k (codes "result")
      then some (record m { result = raw })
      else if equal_fold k (codes "error")
      then Option.map (λ (e : Option RpcError). record m { error = e }) (set_error whole m.error v)
      else some m

  unfoldable pub decode_message : Bytes → Option Message
  unfolding assign_message
  decode_message raw = unmarshal_struct (assign_message raw) empty_message raw

  -- idMatches
  unfoldable pub id_matches : Bytes → ℕ → Bool
  unfolding scan set_int
  id_matches raw id =
      if eq_bytes raw [] then false else elim (Option.bind (scan raw) (set_int (pos 0))) [
        | some (pos n) ↦ n == id
        | some (negsuc n) ↦ false
        | none ↦ elim (unmarshal_string raw) [ none ↦ false | some s ↦ eq_bytes s (decimal id) ]
      ]

  -- `if env.Error != nil { return nil, ... }; return env.Result, nil`
  unfoldable pub answer_of : Message → Result CallError Bytes
  answer_of m = elim m.error [ none ↦ ok m.result | some e ↦ err failed ]

  -- resultFromMessage
  unfoldable pub result_from_message : Bytes → ℕ → Result CallError Bytes
  result_from_message raw id = elim (decode_message raw) [
    | none ↦ err failed
    | some m ↦ if id_matches m.id id then answer_of m else err failed
  ]

  -- What the reader of a stdio session makes of a line.
  unfoldable pub line_message : Bytes → Option Message
  line_message line =
      let text = trim_space line in
      if has_prefix text (codes "{") then decode_message text else none

  -- The message of a line, where it answers the call.
  unfoldable pub answering : (Bytes → Option Message) → ℕ → Bytes → Option Message
  answering read id line = elim (read line) [
    | none ↦ none
    | some m ↦ if id_matches m.id id then some m else none
  ]

  -- call of a stdio session, from the lines that the server writes.
  unfoldable pub stdio_call : ℕ → Ending → List Bytes → Result CallError Bytes
  stdio_call id ending [] = err (ending_error ending)
  stdio_call id ending (line ∷ lines) = elim (answering line_message id line) [
    | none ↦ stdio_call id ending lines
    | some m ↦ answer_of m
  ]

  -- readCapped
  unfoldable pub read_capped : ℕ → Option Bytes → Result CallError Bytes
  read_capped limit none = err failed
  read_capped limit (some b) = if ltb limit (length b) then err inadmissible_answer else ok b

  -- The data of an event, where it answers the call.
  unfoldable pub flush : ℕ → Bytes → Option Message
  flush id payload = if eq_bytes payload [] then none else answering decode_message id payload

  -- readSSE, from the lines that the scanner finds and the data of the event so far.
  unfoldable pub read_sse : ℕ → ℕ → Ending → Bytes → List Bytes → Result CallError Bytes
  read_sse limit id ending payload [] = elim (flush id payload) [
    | none ↦ err (ending_error ending)
    | some m ↦ answer_of m
  ]
  read_sse limit id ending payload (line ∷ lines) =
      let value = drop 5 line in
      let added = payload ++ (if has_prefix value (codes " ") then drop 1 value else value) in
      let reset = read_sse limit id ending [] lines in
      let extended = read_sse limit id ending added lines in
      let same = read_sse limit id ending payload lines in
      if eq_bytes line []
      then elim (flush id payload) [ none ↦ reset | some m ↦ answer_of m ]
      else if has_prefix line (codes "data:")
      then if ltb limit (length payload + length value) then err inadmissible_answer else extended
      else same

  -- call of an http session, from the response to it.
  unfoldable pub http_call : ℕ → ℕ → Reply → Result CallError Bytes
  http_call limit id r =
      if ltb r.status 200 || ltb 299 r.status
      then err failed
      else if has_prefix r.content_type (codes "application/json")
      then (read_capped limit r.body >>= λ raw. result_from_message raw id)
      else if has_prefix r.content_type (codes "text/event-stream")
      then read_sse limit id r.ending [] r.lines
      else err failed
