-- ===== src/Proxy/State.antt =====
-- proxy/proxy.go: the session's state, and what a handler does besides changing it.
use surfacelock.Prelude.{
  ℕ, Bool, true, false, ◌||◌, Option, none, some, [], ◌==◌, if◌then◌else◌, Map,
}
use surfacelock.Prelude.Bytes.{Bytes, codes}
use surfacelock.Surface.Tool.{Limits}
use surfacelock.Lockfile.Entry.{ServerLock}
use surfacelock.Proxy.Verifier.{Verifier, Verdict, new_verifier, revoke_calls}
use surfacelock.Proxy.Enumeration.{Enumeration}

-- maxPending, maxTrackedCursors
abbrev pub max_pending : ℕ
max_pending = 256

abbrev pub max_tracked_cursors : ℕ
max_tracked_cursors = 1024

-- pendingReq; `enum` is the identity of the enumeration, 0 for a nil pointer.
pub record PendingReq : Type 0 where
  pub method : Bytes
  pub era : Bytes
  pub enum : ℕ

-- core. An enumeration is shared by pointer between `pending` and `cursors`: here both hold its
-- identity, and `enums` is the store.
pub record Core : Type 0 where
  pub verifier : Verifier
  pub pending : Map PendingReq
  pub cursors : Map ℕ
  pub enums : ℕ → Enumeration
  pub drift : Bool
  pub inadmissible : Bool
  pub transport : Bool

abbrev no_enumeration : Enumeration
no_enumeration = record {
  id = 0;
  era = [];
  orphan = true;
  poisoned = false;
  warned = false;
  complete = false;
  page_tools = [];
  seen_cursors = [];
  names = [];
  tools = [];
  bytes = 0;
  pages = 0;
}

-- The core that Run builds.
unfoldable pub new_core : ServerLock → Bytes → Bool → Limits → Core
new_core entry name warn lim = record {
  verifier = new_verifier entry name warn lim;
  pending = [];
  cursors = [];
  enums = λ id. no_enumeration;
  drift = false;
  inadmissible = false;
  transport = false;
}

-- What a handler does besides: frames written to the client, error frames by their id and code,
-- frames sent upstream, and the two calls of an http backend.
pub data Effect : Type 0 where
  to_client : Bytes → Effect
  refusal : Bytes → ℕ → Effect
  to_upstream : Bytes → Effect
  set_proto : Bytes → Effect
  start_notification_stream : Effect

-- How `Backend.Send` ends; `cancelled` is an error under a cancelled context.
pub data Sent : Type 0 where
  delivered cancelled failed : Sent

-- The id of an error frame.
abbrev pub id_or_null : Option Bytes → Bytes
id_or_null none = codes "null"
id_or_null (some raw) = raw

unfoldable pub store : ℕ → Enumeration → (ℕ → Enumeration) → ℕ → Enumeration
store id en enums k = if k == id then en else enums k

-- applyVerdictLocked
unfoldable pub apply_verdict : Core → Verdict → Core
apply_verdict c vd = record c {
  verifier = if vd.refuse then revoke_calls c.verifier else c.verifier;
  drift = c.drift || vd.drift;
  inadmissible = c.inadmissible || vd.inadmissible;
}
