-- ===== src/Conformance/Probe.antt =====
-- conformance/probe.go: the exchanges that a probe run records, with a target that is a parameter.
pub mod Plan
pub mod Steps
pub mod ReadOnly
pub mod Recorded
pub mod Bounded
use surfacelock.Prelude.{
  ℕ, zero, suc, ◌+◌, ◌-◌, ◌*◌, ◌/◌, ◌%◌, ◌^◌, ◌≤◌, ◌<◌, ◌≡◌, refl, sym, ap, ◌∙◌, subst, ◌≢◌, ◌↔◌,
  ◌⊎◌, inl, inr, Bool, true, false, not, ◌&&◌, ◌||◌, Option, none, some, List, [], ◌∷◌, ◌++◌, map,
  arith, ltb, leb, ◌==◌, within, if◌then◌else◌, ltb→lt, lt→ltb, leb→le, ==_iff, Bool-cases,
  Option-cases, length, take, drop, all, any, length-append, All, All-append, Map, lookup, insert,
  remove, lookup-insert, lookup-remove, length-insert, length-remove,
}
use surfacelock.Prelude.Bytes.{
  Bytes, codes, eq_bytes, eq_bytes_iff, eq_bytes_refl, lt_bytes, lt_bytes_irrefl, lt_bytes_trans,
  lt_bytes_total, lt_bytes_asym, contains,
}
use surfacelock.Prelude.Results.{Result, ok, err, ◌>>=◌, ◌>>◌, refuse_if, >>=-eq-ok, Result-cases}
use surfacelock.External.{External}
use surfacelock.Conformance.Exchange.{Exchange, Capture, eras, stateless_era, header}
use surfacelock.Conformance.View.{result_string, result_strings}
use surfacelock.Conformance.Tools.{page_probes}
use surfacelock.Conformance.Classic.{session_header, has_version_header}

-- The params of a request: the revision that initialize offers, the one of the `_meta` envelope,
-- and the cursor; "" for none.
pub record AskParams : Type 0 where
  pub offer : Bytes
  pub envelope : Bytes
  pub cursor : Bytes

-- What a run does to the target: it dials, sends a request, a notification (id 0) or a batch of two
-- requests under its id and the next, or a GET.
pub data Ask : Type 0 where
  dialed : Ask
  sent : (probe method : Bytes) → AskParams → (headers : Map Bytes) → (id : ℕ) → Ask
  sent_batch : (probe method : Bytes) → AskParams → (headers : Map Bytes) → (id : ℕ) → Ask
  sent_get : (probe : Bytes) → (headers : Map Bytes) → Ask

-- The dialer and its connections: whether a dial succeeds and what an exchange records, given what
-- the run has done, the latest first. Nothing that closing a connection does is recorded.
pub record Wire : Type 0 where
  pub kind : Bytes
  pub dials : List Ask → Bool
  pub answer : List Ask → Exchange

-- What a run has done, and `cap.Exchanges`.
pub record Probing : Type 0 where
  pub asks : List Ask
  pub exchanges : List Exchange

abbrev pub plain_params : AskParams
plain_params = record { offer = []; envelope = []; cursor = [] }

-- `base[name] = value`, where there is a value.
abbrev pub with_header : Bytes → Bytes → Map Bytes → Map Bytes
with_header name value h = if eq_bytes value [] then h else insert name value h

-- The method and the names of the headers.
abbrev pub list_tools : Bytes
list_tools = codes "tools/list"

abbrev pub version_header : Bytes
version_header = codes "MCP-Protocol-Version"

-- invalidCursor
abbrev pub invalid_cursor : Bytes
invalid_cursor = codes "surfacelock-era-invalid-cursor"

-- hdrFor
abbrev pub stateless_headers : Bytes → Map Bytes
stateless_headers method = (version_header, stateless_era) ∷ (codes "Mcp-Method", method) ∷ []

module _ (wire : Wire) where
  -- The exchange that follows an ask, under the probe's name.
  abbrev pub answered : Probing → Ask → Bytes → Exchange
  answered s ask probe = record (wire.answer (ask ∷ s.asks)) { probe = probe }

  -- Roundtrip or Get, and the append to `cap.Exchanges`.
  unfoldable pub roundtrip : Probing → Ask → Bytes → Probing
  roundtrip s ask probe = record {
    asks = ask ∷ s.asks;
    exchanges = s.exchanges ++ answered s ask probe ∷ [];
  }

  -- The probes on a session of their own: the dial, and nothing more where it fails.
  unfoldable pub on_fresh : Probing → (Probing → Probing) → Probing
  on_fresh s probe =
      let t = record s { asks = dialed ∷ s.asks } in if wire.dials s.asks then probe t else t
