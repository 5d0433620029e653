-- ===== src/Client/Session.antt =====
-- client/fetch.go: the requests that a fetch sends, over a session whose other end is a parameter.
use surfacelock.Prelude.{Bool, ◌||◌, Option, List, ◌∷◌, if◌then◌else◌}
use surfacelock.Prelude.Bytes.{Bytes, codes}
use surfacelock.Prelude.Results.{Result}

-- What a fetch does to the outside, in order. A call has its method; the offered revision in
-- `_meta`, on a stateless request; the revision that initialize offers; the cursor, "" for none; and
-- the fields `proto` and `stateless` of an http session at that time.
pub data Step : Type 0 where
  opened : Step
  called :
      (method : Bytes)
      → (meta : Option Bytes) → (offered cursor proto : Bytes) → (stateless : Bool) → Step
  notified : (method proto : Bytes) → Step
  closed : Step

-- How `call` fails: ErrInadmissible for an answer over the byte cap, or else.
pub data CallError : Type 0 where
  inadmissible_answer failed : CallError

-- The server and the transport to it: whether a session can be opened, what a call is answered, and
-- whether a notification is delivered, given what went before, the latest first.
pub record Peer : Type 0 where
  pub opens : List Step → Bool
  pub answer : List Step → Result CallError Bytes
  pub delivers : List Step → Bool

-- The variable `sess`, with what was sent so far; only an http session has headers to set.
pub record Session : Type 0 where
  pub http : Bool
  pub proto : Bytes
  pub stateless : Bool
  pub sent : List Step

-- The methods' names.
abbrev pub discover_method : Bytes
discover_method = codes "server/discover"

abbrev pub initialize_method : Bytes
initialize_method = codes "initialize"

abbrev pub initialized_method : Bytes
initialized_method = codes "notifications/initialized"

abbrev pub list_method : Bytes
list_method = codes "tools/list"

-- The session after a call, whose answer is `peer.answer` of what it has sent.
abbrev pub with_call : Session → Bytes → Option Bytes → Bytes → Bytes → Session
with_call s method meta offered cursor = record s {
  sent = called method meta offered cursor s.proto s.stateless ∷ s.sent;
}

-- `h.proto`, on an http session.
abbrev pub with_proto : Session → Bytes → Session
with_proto s proto = record s { proto = if s.http then proto else s.proto }

-- `h.proto, h.stateless = offered, true`, on an http session.
abbrev pub with_stateless : Session → Bytes → Session
with_stateless s offered = record s {
  proto = if s.http then offered else s.proto;
  stateless = s.http || s.stateless;
}

-- The session after a notification.
abbrev pub with_notice : Session → Bytes → Session
with_notice s method = record s { sent = notified method s.proto ∷ s.sent }
