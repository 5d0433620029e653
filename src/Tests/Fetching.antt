-- ===== src/Tests/Fetching.antt =====
-- The theorems on the fetch at a concrete server.
use surfacelock.Prelude.{
  List, ◌↔◌, ◌+◌, ◌*◌, ◌≤◌, ◌≡◌, refl, true, false, none, [], ◌∷◌, if◌then◌else◌, length,
}
use surfacelock.Prelude.Bytes.{Bytes, codes, eq_bytes}
use surfacelock.Prelude.Results.{ok, err}
use surfacelock.Go.Json.Struct.{set_fields, unmarshal_struct, check_list}
use surfacelock.Headers.{validate_headers, sorted_entries, check_entries}
use surfacelock.Surface.Tool.{default_limits}
use surfacelock.Surface.Admit.{RawSurface, flow_stateless}
use surfacelock.Client.Session.{
  Step, called, Peer, Session, failed, discover_method, initialize_method, with_call, list_method,
}
use surfacelock.Client.Pages.{fetch_pages, read_turn, next_of, assign_page}
use surfacelock.Client.Pages.Walk.{Walk, fetch_pages_iff}
use surfacelock.Client.Fetch.{
  Ref, modern_revision, fetch, fetch_either, fetch_once, fetch_classic, greet, negotiated_era,
  fetch_modern, discover, supported_of, fetch_surface,
}
use surfacelock.Client.Fetch.Commit.{fetch-committed}
use surfacelock.Client.Fetch.Bounds.{fetch-sent}
use surfacelock.Client.Fetch.Fetched.{IsFetched, fetch-IsFetched}
use surfacelock.Go.Text.{trim_space, trim_start, trim_end, has_prefix, is_space}
use surfacelock.Go.Json.Struct.{set_int, set_string, parse_int}
use surfacelock.Diff.Classify.{decimal}
use surfacelock.Client.Messages.{
  over, decode_message, id_matches, answer_of, line_message, answering, stdio_call,
}
use surfacelock.Client.Messages.Answered.{FirstAnswer, stdio_call_iff}
use surfacelock.Tests.Fixtures.{demo, root_code}

-- What a run of a fetch computes with.
unfoldable pub fetch_code : Unit {0}
unfolding root_code set_fields unmarshal_struct check_list validate_headers sorted_entries
    check_entries fetch_pages read_turn next_of assign_page fetch fetch_either fetch_once
    fetch_classic greet negotiated_era fetch_modern discover supported_of fetch_surface
fetch_code = tt

-- A server that answers both handshakes and has one page with one tool.
abbrev discover_text : Bytes
discover_text = codes "{\"supportedVersions\":[\"2026-07-28\"]}"

abbrev initialize_text : Bytes
initialize_text = codes "{\"protocolVersion\":\"2025-06-18\"}"

abbrev page_text : Bytes
page_text = codes "{\"tools\":[{\"name\":\"echo\"}]}"

abbrev reply : Bytes → Bytes
unfolding eq_bytes
reply method =
    if eq_bytes method discover_method
    then discover_text
    else if eq_bytes method initialize_method
    then initialize_text
    else page_text

abbrev pub server : Peer
unfolding eq_bytes
server = record {
  opens = λ sent. true;
  answer = λ sent. elim sent [
    | called method meta offered cursor proto stateless ∷ before ↦ ok (reply method)
    | _ ↦ err failed
  ];
  delivers = λ sent. true;
}

abbrev start : Session
start = record { http = false; proto = []; stateless = false; sent = [] }

fetch_pages_iff_example :
    Walk server default_limits none start [] []
      (page_text ∷ [])
      (with_call start list_method none [] [])
    × (1 ≤ default_limits.max_pages)
unfolding fetch_code
fetch_pages_iff_example =
    (fetch_pages_iff server default_limits none start (with_call start list_method none [] [])
        (page_text ∷ [])).0
      refl

abbrev ref : Ref
ref = record { transport = codes "http"; offered = []; flow = []; headers = [] }

fetch-committed_example :
    fetch server default_limits (record ref { offered = modern_revision; flow = [] }) []
    ≡ fetch server default_limits
        (record ref { offered = modern_revision; flow = flow_stateless })
        []
unfolding fetch_code
fetch-committed_example =
    fetch-committed server default_limits ref []
      ((codes "supportedVersions", codes "[\"2026-07-28\"]") ∷ []) refl

fetch-sent_example :
    length (fetch server default_limits ref []).1
    ≤ length {A = Step} [] + 2 * (default_limits.max_pages + 4)
fetch-sent_example = fetch-sent server default_limits ref []

abbrev fetched : RawSurface
fetched = record {
  offered = modern_revision;
  era = modern_revision;
  flow = flow_stateless;
  instructions = none;
  server_info = none;
  pages = page_text ∷ [];
}

fetch-IsFetched_example : IsFetched default_limits fetched
unfolding fetch_code
fetch-IsFetched_example = fetch-IsFetched server default_limits ref [] fetched refl

-- A log line, a notification, and the answer to the call with the id 1.
abbrev written : List Bytes
written =
    codes "starting"
    ∷ codes "{\"method\":\"notifications/message\"}"
    ∷ codes "{\"id\":1,\"result\":{}}"
    ∷ []

written_answered : stdio_call 1 over written ≡ ok (codes "{}")
unfolding fetch_code trim_space trim_start trim_end has_prefix is_space set_int set_string parse_int
    decimal decode_message id_matches answer_of line_message answering stdio_call
written_answered = refl

stdio_call_iff_example :
    stdio_call 1 over written ≡ ok (codes "{}") ↔ FirstAnswer 1 written (codes "{}")
stdio_call_iff_example = stdio_call_iff 1 over written (codes "{}")
