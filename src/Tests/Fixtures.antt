-- ===== src/Tests/Fixtures.antt =====
-- A lockfile entry with one tool, and concrete stand-ins for the canonicalizer and the hash.
use surfacelock.Prelude.{
  ℕ, ◌-◌, ◌≡◌, refl, Option, none, some, [], ◌∷◌, ◌==◌, within, if◌then◌else◌, lookup, insert,
  remove,
}
use surfacelock.Prelude.Bytes.{Bytes, codes, eq_bytes, lt_bytes, contains}
use surfacelock.Prelude.Results.{ok}
use surfacelock.External.{External}
use surfacelock.Canonical.{absent_sentinel, canonicalize, hash_bytes, hash_canonical}
use surfacelock.Decode.{decode_exact, has_alias, aliases, is_variant, equal_fold, paired_surrogates}
use surfacelock.Names.{valid_name, check_era}
use surfacelock.Go.Utf8.{valid, runes}
use surfacelock.Go.Json.Strings.{marshal_string}
use surfacelock.Go.Json.Scan.{scan}
use surfacelock.Go.Json.Unmarshal.{
  unmarshal_map, unmarshal_list, unmarshal_string, unmarshal_strings, unmarshal_number,
  unmarshal_any, member_of,
}
use surfacelock.Surface.Keys.{check_aliased_tool_keys}
use surfacelock.Surface.Tool.{
  Tool, default_limits, hash_tool, admit_tool, desc_hash, schema_hash, present,
}
use surfacelock.Surface.Admit.{
  RawSurface, Surface, admit, admit_instructions, admit_pages, admit_page, admit_all, admit_one,
  page_variant, page_tools, sort_tools, insert_tool, sanitize_server_info, flow_classic,
}
use surfacelock.Surface.Rollup.{preimage, surface_hash}
use surfacelock.Lockfile.Entry.{ServerLock, entry_from_surface, lock_tool}
use surfacelock.Lockfile.Validate.{validate, check_instructions, check_tools, check_tool}
use surfacelock.Diff.Class.{severity, rank, is_empty}
use surfacelock.Diff.Classify.{
  classify, description_changed, schema_changed, metadata_changed, classes_of,
  safety_or_display_changed,
}
use surfacelock.Diff.Surfaces.{
  diff, changed_tools, added_tools, old_by_name, live_by_name, sort_diffs, insert_diff,
}
use surfacelock.Proxy.Frame.{check_envelope, parse_frame, is_request, check_members}
use surfacelock.Proxy.Params.{
  list_params, params_cursor, meta_era, discover_params_era, call_tool_name, page_next_cursor,
}
use surfacelock.Proxy.Verifier.{
  new_verifier, forward_verdict, inadmissible_verdict, resolve_drift, revoke_calls,
}
use surfacelock.Proxy.Handshake.{
  read_handshake, read_classic, read_stateless, supported_versions, flow_mismatch, conclude,
  verify_handshake,
}
use surfacelock.Proxy.Enumeration.{new_enumeration, name_and_hash, removed_drifts, refuse_page}
use surfacelock.Proxy.Page.{
  tool_drift, list_tool, page_loop, page_cursor, page_drifted, page_complete, page_conclude,
  all_drifts, page_verdict, check_tools_page, verify_tools_page,
}
use surfacelock.Proxy.State.{new_core, store, apply_verdict}
use surfacelock.Proxy.Requests.{
  forward_upstream, start_enumeration, open_enumeration, test_request, test_stateless,
  prepare_tools_list, admit_call, admit_request, client_request, handle_client_frame,
}
use surfacelock.Proxy.Core.{
  drop_frame, surface_bearing, judge_page, judge, surface_response, unverifiable, server_response,
  route_frame, handle_server_frame,
}
use surfacelock.Proxy.Core.Session.{step, run}

abbrev pub demo_transform : Bytes → Option Bytes
unfolding scan
demo_transform raw = elim (scan raw) [ none ↦ none | some v ↦ some raw ]

-- The least member of a case-fold orbit, for ASCII letters and the two others that fold to them.
abbrev pub demo_fold : ℕ → ℕ
demo_fold c =
    if within b'a' b'z' c
    then c - 32
    else if c == 0x17F
    then b'S'
    else if c == 0x212A
    then b'K'
    else c

-- Bytes that are canonical already, and a hash without collisions.
instance abbrev pub demo : External
demo = record {
  transform = demo_transform;
  sum256 = λ b. b;
  fold = demo_fold;
  float64 = some;
  range = λ m. m;
}

abbrev pub echo_object : Bytes
echo_object = codes "{\"name\":\"echo\"}"

abbrev pub era_text : Bytes
era_text = codes "2025-06-18"

abbrev pub echo_tool : Tool
echo_tool = record {
  name = codes "echo";
  canon = echo_object;
  h_tool = codes "sha256:{\"name\":\"echo\"}";
  h_schema = absent_sentinel;
  h_desc = absent_sentinel;
}

abbrev pub echo_surface : Surface
echo_surface = record {
  offered = era_text;
  era = era_text;
  flow = flow_classic;
  instructions = none;
  h_instr = absent_sentinel;
  tools = echo_tool ∷ [];
  server_info = none;
}

abbrev pub rollup_text : Bytes
rollup_text =
    codes
      "sha256:{\"era\":\"2025-06-18\",\"h_instructions\":\"absent\",\"tools\":[{\"h_tool\":\"sha256:{\\\"name\\\":\\\"echo\\\"}\",\"name\":\"echo\"}]}"

abbrev pub echo_entry : ServerLock
echo_entry = record {
  transport = codes "stdio";
  target = codes "echo-server";
  args = some [];
  protocol = record { offered = era_text; era = era_text; flow = flow_classic };
  server_info = none;
  instructions = none;
  h_instr = absent_sentinel;
  surface_hash = rollup_text;
  tools = some (
      record {
        name = codes "echo";
        h_desc = absent_sentinel;
        h_schema = absent_sentinel;
        h_tool = codes "sha256:{\"name\":\"echo\"}";
        tool = echo_object;
      }
      ∷ []);
}

abbrev pub or_else {ℓ} : {A : Type ℓ} → A → Option A → A
or_else a none = a
or_else a (some b) = b

-- What a run of the package root computes with.
unfoldable pub root_code : Unit {0}
unfolding mathlib.Core.Option.bind eq_bytes lt_bytes contains lookup insert remove lock_tool
    canonicalize hash_bytes hash_canonical decode_exact has_alias aliases is_variant equal_fold
    paired_surrogates valid_name check_era valid runes marshal_string scan unmarshal_map
    unmarshal_list unmarshal_string unmarshal_strings unmarshal_number unmarshal_any member_of
    check_aliased_tool_keys hash_tool admit_tool desc_hash schema_hash present admit
    admit_instructions admit_pages admit_page admit_all admit_one page_variant page_tools sort_tools
    insert_tool sanitize_server_info preimage surface_hash entry_from_surface validate
    check_instructions check_tools check_tool severity rank is_empty classify description_changed
    schema_changed metadata_changed classes_of safety_or_display_changed diff changed_tools
    added_tools old_by_name live_by_name sort_diffs insert_diff
root_code = tt

-- What a run of the proxy computes with.
unfoldable pub session_code : Unit {0}
unfolding root_code parse_frame check_envelope is_request check_members list_params params_cursor
    meta_era discover_params_era call_tool_name page_next_cursor new_verifier forward_verdict
    inadmissible_verdict resolve_drift revoke_calls read_handshake read_classic read_stateless
    supported_versions flow_mismatch conclude verify_handshake new_enumeration name_and_hash
    removed_drifts refuse_page tool_drift list_tool page_loop page_cursor page_drifted page_complete
    page_conclude all_drifts page_verdict check_tools_page verify_tools_page new_core store
    apply_verdict forward_upstream start_enumeration open_enumeration test_request test_stateless
    drop_frame prepare_tools_list admit_call admit_request client_request handle_client_frame
    surface_bearing judge_page judge surface_response unverifiable server_response route_frame
    handle_server_frame step run
session_code = tt

abbrev pub echo_page : Bytes
echo_page = codes "{\"tools\":[{\"name\":\"echo\"}]}"

abbrev pub echo_raw : RawSurface
echo_raw = record {
  offered = era_text;
  era = era_text;
  flow = flow_classic;
  instructions = none;
  server_info = none;
  pages = echo_page ∷ [];
}

pub echo_admitted : admit echo_raw default_limits ≡ ok echo_surface
unfolding root_code
echo_admitted = refl

pub echo_locked :
    entry_from_surface (codes "stdio") (codes "echo-server") none echo_surface ≡ some echo_entry
unfolding root_code
echo_locked = refl

pub echo_valid : validate echo_entry ≡ ok tt
unfolding root_code
echo_valid = refl
