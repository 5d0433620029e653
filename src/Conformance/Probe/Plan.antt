-- ===== src/Conformance/Probe/Plan.antt =====
-- conformance/probe.go: `probeClassic`, `probeStateless` and `Probe`.
use surfacelock.Prelude.{
  ℕ, ◌+◌, not, ◌&&◌, ◌||◌, Option, none, some, List, [], ◌∷◌, ◌++◌, if◌then◌else◌, drop, Map,
  insert,
}
use surfacelock.Prelude.Bytes.{Bytes, codes, eq_bytes, contains}
use surfacelock.Prelude.Results.{Result, ok, err, ◌>>=◌}
use surfacelock.External.{External}
use surfacelock.Lockfile.Entry.{ServerLock}
use surfacelock.Conformance.Exchange.{Capture, eras, stateless_era, header}
use surfacelock.Conformance.View.{result_string, result_strings}
use surfacelock.Conformance.Tools.{page_probes}
use surfacelock.Conformance.Classic.{session_header, has_version_header}
use surfacelock.Conformance.Grade.{
  Report, ClaimError, unknown_era, dial_failed, not_probeable, grade, validate_era_claim,
}
use surfacelock.Conformance.Probe.{
  AskParams, dialed, sent, sent_batch, sent_get, Wire, Probing, plain_params, with_header,
  list_tools, version_header, invalid_cursor, stateless_headers, answered, roundtrip, on_fresh,
}

-- The results of classicSession, and the run after it.
pub record Opening : Type 0 where
  pub session_id : Bytes
  pub negotiated : Bytes
  pub after : Probing

-- A walk over the pages: the run after it, and the next id.
pub record Paging : Type 0 where
  pub after : Probing
  pub next_id : ℕ

-- The first revision that the server does not list.
unfoldable pub first_missing : List Bytes → List Bytes → Bytes
first_missing listed [] = []
first_missing listed (e ∷ es) = if contains listed e then first_missing listed es else e

module _ ⦃ext : External⦄ where
  module _ (wire : Wire) where
    -- classicSession
    unfoldable pub classic_session : Probing → Bytes → Bytes → Opening
    unfolding roundtrip
    classic_session s offered probe =
        let ask = sent probe (codes "initialize") (record plain_params { offer = offered }) [] 1 in
        let ex = answered wire s ask probe in
        let t = roundtrip wire s ask probe in
        let session = header ex session_header in
        let got = result_string ex.message (codes "protocolVersion") in
        let named = probe ++ codes ".initialized" in
        let notice =
          sent named (codes "notifications/initialized") plain_params
            (with_header session_header session []) 0 in
        record {
          session_id = session;
          negotiated = got;
          after = if eq_bytes got [] then t else roundtrip wire t notice named;
        }

    -- The loop over the pages, under the probes of those that are left.
    unfoldable pub page_walk : AskParams → Map Bytes → Probing → Bytes → ℕ → List Bytes → Paging
    unfolding roundtrip
    page_walk params headers s cursor id [] = record { after = s; next_id = id }
    page_walk params headers s cursor id (probe ∷ probes) =
        let ask = sent probe list_tools (record params { cursor = cursor }) headers id in
        let next = result_string (answered wire s ask probe).message (codes "nextCursor") in
        let t = roundtrip wire s ask probe in
        let rest = page_walk params headers t next (id + 1) probes in
        if eq_bytes next [] then record { after = t; next_id = id + 1 } else rest

    -- T2 and B1, on a session's headers: the next id is three more.
    unfoldable pub cursor_and_batch : AskParams → Map Bytes → Probing → ℕ → Probing
    unfolding roundtrip
    cursor_and_batch params headers s id =
        let t =
          roundtrip wire s
            (sent (codes "T2.badcursor") list_tools (record params { cursor = invalid_cursor })
              headers id)
            (codes "T2.badcursor") in
        roundtrip wire t (sent_batch (codes "B1.batch") list_tools params headers (id + 1))
          (codes "B1.batch")

    -- V1's exchange without the version, on HTTP.
    unfoldable pub version_probe : Bytes → Map Bytes → Paging → Paging
    unfolding roundtrip
    version_probe era base p =
        let ask =
          sent (codes "V1.noheader") list_tools plain_params (insert version_header [] base)
            p.next_id in
        if has_version_header era && eq_bytes wire.kind (codes "http")
        then record {
          after = roundtrip wire p.after ask (codes "V1.noheader");
          next_id = p.next_id + 1;
        }
        else p

    -- S1's exchange without the session, on HTTP.
    unfoldable pub session_probe : Bytes → Opening → Probing → ℕ → Probing
    unfolding roundtrip
    session_probe era o s id =
        let version = if has_version_header era then o.negotiated else [] in
        let ask =
          sent (codes "S1.nosession") list_tools plain_params
            (with_header version_header version ((session_header, []) ∷ [])) id in
        if not (eq_bytes o.session_id []) && eq_bytes wire.kind (codes "http")
        then roundtrip wire s ask (codes "S1.nosession")
        else s

    -- H2, H3 and D1.
    unfoldable pub newer_probe : Probing → Probing
    newer_probe s = (classic_session s stateless_era (codes "H2.newer")).after

    unfoldable pub cold_probe : Probing → Probing
    cold_probe s =
        roundtrip wire s (sent (codes "H3.cold") list_tools plain_params [] 1) (codes "H3.cold")

    unfoldable pub discover_probe : Probing → Probing
    discover_probe s =
        let params = record plain_params { envelope = stateless_era } in
        roundtrip wire s (sent (codes "D1.discover") (codes "server/discover") params [] 1)
          (codes "D1.discover")

    -- They run each on a session of its own.
    unfoldable pub fresh_probes : Probing → Probing
    unfolding newer_probe cold_probe discover_probe
    fresh_probes s =
        on_fresh wire (on_fresh wire (on_fresh wire s newer_probe) cold_probe) discover_probe

    -- G1
    unfoldable pub get_probe : Probing → Probing
    get_probe s =
        roundtrip wire s
          (sent_get (codes "G1.get") ((codes "Accept", codes "text/event-stream") ∷ []))
          (codes "G1.get")

    -- probeClassic
    unfoldable pub probe_classic : Bytes → Probing → Probing
    probe_classic era s =
        let o = classic_session s era (codes "H1.init") in
        let version = if has_version_header era then o.negotiated else [] in
        let base =
          with_header version_header version (with_header session_header o.session_id []) in
        let walk = page_walk plain_params base o.after [] 10 page_probes in
        let versions = version_probe era base walk in
        let t = cursor_and_batch plain_params base versions.after versions.next_id in
        let u = session_probe era o t (versions.next_id + 3) in get_probe (fresh_probes u)

    -- V2, where there is a revision that the server does not list.
    unfoldable pub mismatch_probe : List Bytes → Probing → ℕ → Probing
    mismatch_probe listed s id =
        let mismatch = first_missing listed eras in
        let ask =
          sent (codes "V2.mismatch") list_tools (record plain_params { envelope = mismatch })
            ((version_header, mismatch) ∷ (codes "Mcp-Method", list_tools) ∷ []) id in
        if eq_bytes mismatch [] then s else roundtrip wire s ask (codes "V2.mismatch")

    -- D1, D2 and H1 of the stateless revision.
    unfoldable pub stateless_opening : Probing → Probing
    stateless_opening s =
        let discover = codes "server/discover" in
        let t =
          roundtrip wire s
            (sent (codes "D1.discover") discover (record plain_params { envelope = stateless_era })
              (stateless_headers discover) 1)
            (codes "D1.discover") in
        let u =
          roundtrip wire t
            (sent (codes "D2.nometa") discover plain_params (stateless_headers discover) 2)
            (codes "D2.nometa") in
        roundtrip wire u
          (sent (codes "H1.init") (codes "initialize")
            (record plain_params { offer = codes "2025-11-25" }) [] 3)
          (codes "H1.init")

    -- The revisions that the first exchange lists.
    unfoldable pub listed_eras : Probing → List Bytes
    listed_eras s =
        let discover = codes "server/discover" in
        let ask =
          sent (codes "D1.discover") discover (record plain_params { envelope = stateless_era })
            (stateless_headers discover) 1 in
        result_strings (answered wire s ask (codes "D1.discover")).message
          (codes "supportedVersions")

    -- probeStateless
    unfoldable pub probe_stateless : Probing → Probing
    probe_stateless s =
        let params = record plain_params { envelope = stateless_era } in
        let headers = stateless_headers list_tools in
        let walk =
          page_walk params headers (stateless_opening s) [] 10
            (codes "H3.cold" ∷ drop 1 page_probes) in
        let t = cursor_and_batch params headers walk.after walk.next_id in
        get_probe (mismatch_probe (listed_eras s) t (walk.next_id + 3))

    -- What Probe does once the first dial succeeds.
    unfoldable pub probe_run : Bytes → Probing
    probe_run era =
        let s : Probing = record { asks = dialed ∷ []; exchanges = [] } in
        if eq_bytes era stateless_era then probe_stateless s else probe_classic era s

    -- Probe
    unfoldable pub probe : Bytes → Bytes → Option Capture
    probe target era =
        let end = probe_run era in
        if wire.dials []
        then some
            (record { target = target; kind = wire.kind; era = era; exchanges = end.exchanges })
        else none

    -- Check
    unfoldable pub check : Bytes → Bytes → Result ClaimError Report
    check target era =
        if not (contains eras era)
        then err unknown_era
        else elim (probe target era) [ none ↦ err dial_failed | some c ↦ ok (grade c) ]

    -- CheckLockEntry, given what the entry's transport and target dial.
    unfoldable pub check_lock_entry : ServerLock → Result ClaimError (Unit {0})
    check_lock_entry e =
        if eq_bytes e.transport (codes "http") || eq_bytes e.transport (codes "stdio")
        then check e.target e.protocol.era >>= validate_era_claim
        else err not_probeable
