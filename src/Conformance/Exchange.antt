-- ===== src/Conformance/Exchange.antt =====
-- conformance/wire.go and conformance/probe.go: the exchanges of a capture, and the revisions.
use surfacelock.Prelude.{ℕ, Bool, Option, none, some, List, [], ◌∷◌, if◌then◌else◌, Map, lookup}
use surfacelock.Prelude.Bytes.{Bytes, codes, eq_bytes}

-- Exchange, with what grading reads of it: the request's side is left out.
pub record Exchange : Type 0 where
  pub probe : Bytes
  pub status : ℕ
  pub resp_hdr : Map Bytes
  pub body : Bytes
  pub message : Bytes
  pub truncated : Bool
  pub transport_error : Bytes

-- Capture, without the time and the notes.
pub record Capture : Type 0 where
  pub target : Bytes
  pub kind : Bytes
  pub era : Bytes
  pub exchanges : List Exchange

-- errSilence
abbrev pub silence : Bytes
silence = codes "no response before the exchange timeout"

-- maxPages
abbrev pub max_pages : ℕ
max_pages = 8

-- Eras
abbrev pub eras : List Bytes
eras =
    codes "2024-11-05"
    ∷ codes "2025-03-26"
    ∷ codes "2025-06-18"
    ∷ codes "2025-11-25"
    ∷ codes "2026-07-28"
    ∷ []

-- StatelessEra
abbrev pub stateless_era : Bytes
stateless_era = codes "2026-07-28"

unfoldable pub find_in : List Exchange → Bytes → Option Exchange
find_in [] probe = none
find_in (ex ∷ exs) probe = if eq_bytes ex.probe probe then some ex else find_in exs probe

-- Capture.find
unfoldable pub find : Capture → Bytes → Option Exchange
unfolding find_in
find capture probe = find_in capture.exchanges probe

-- A header of a response; "" where there is none.
unfoldable pub header : Exchange → Bytes → Bytes
header ex name = elim (lookup name ex.resp_hdr) [ none ↦ [] | some v ↦ v ]

unfoldable pub is_http : Capture → Bool
is_http capture = eq_bytes capture.kind (codes "http")
