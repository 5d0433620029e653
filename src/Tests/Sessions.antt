-- ===== src/Tests/Sessions.antt =====
-- The theorems on the proxy along one session with the echo server.
use surfacelock.Prelude.{
  Option, inr, ◌≡◌, refl, ◌⊎◌, true, false, none, some, List, [], ◌∷◌, ◌++◌, arith, any, All,
  lookup,
}
use surfacelock.Prelude.Bytes.{Bytes, codes}
use surfacelock.Prelude.Results.{ok, err}
use surfacelock.Surface.Tool.{default_limits}
use surfacelock.Surface.Admit.{Surface, admit}
use surfacelock.Lockfile.Entry.{tools_of, lock_tool}
use surfacelock.Diff.Surfaces.{old_by_name}
use surfacelock.Go.Json.Value.{Fields, Value}
use surfacelock.Go.Json.Scan.{scan}
use surfacelock.Surface.Tool.{trim_left}
use surfacelock.Proxy.Frame.Trusted.{IsTrusted}
use surfacelock.Proxy.Frame.{Frame, parse_frame, opens_object}
use surfacelock.Proxy.Params.{call_tool_name}
use surfacelock.Proxy.Verifier.{Verifier, new_verifier}
use surfacelock.Proxy.Handshake.{
  Reading, classic, read_handshake, handshake_surface, verify_handshake,
}
use surfacelock.Proxy.Handshake.Match.{Agrees, verify_handshake-forwards}
use surfacelock.Proxy.Enumeration.{Enumeration, new_enumeration, page_surface}
use surfacelock.Proxy.Page.{verify_tools_page}
use surfacelock.Proxy.Page.Acceptable.{Acceptable}
use surfacelock.Proxy.Page.Listing.{names}
use surfacelock.Proxy.Page.Served.{verify_tools_page-serves}
use surfacelock.Proxy.Page.Complete.{IsClean, ever_clean-IsClean}
use surfacelock.Proxy.State.{Core, PendingReq, new_core, delivered}
use surfacelock.Proxy.Requests.{handle_client_frame}
use surfacelock.Proxy.Core.{handle_server_frame}
use surfacelock.Proxy.Core.Session.{Event, client, server, step, run}
use surfacelock.Proxy.Core.Gate.{IsCallable, is_upstream, tools_call_gate}
use surfacelock.Proxy.Core.Revoke.{refusal_revokes, untrusted_line_revokes}
use surfacelock.Proxy.Core.Correlate.{response_correlates}
use surfacelock.Proxy.Core.Bounds.{IsBounded, session-IsBounded}
use surfacelock.Proxy.Core.Pinned.{IsPinned}
use surfacelock.Proxy.Core.Strict.{strict_session_calls-IsPinned}
use surfacelock.Proxy.Verifier.{forward_verdict}
use surfacelock.Proxy.Page.Matching.{verify_tools_page-matching}
use surfacelock.Tests.Fixtures.{
  echo_tool, echo_surface, demo, session_code, echo_entry, echo_page, era_text,
}

abbrev no_frame : Frame
no_frame = record { raw = []; obj = []; id_key = []; id_raw = none; method = [] }

abbrev the_frame : Bytes → Frame
unfolding session_code
the_frame line = elim (parse_frame line) [ ok f ↦ f | err e ↦ no_frame ]

abbrev initialize_line : Bytes
initialize_line = codes "{\"jsonrpc\":\"2.0\",\"id\":1,\"method\":\"initialize\",\"params\":{}}"

abbrev initialized_line : Bytes
initialized_line =
    codes "{\"jsonrpc\":\"2.0\",\"id\":1,\"result\":{\"protocolVersion\":\"2025-06-18\"}}"

abbrev list_line : Bytes
list_line = codes "{\"jsonrpc\":\"2.0\",\"id\":2,\"method\":\"tools/list\"}"

abbrev listed_line : Bytes
listed_line = codes "{\"jsonrpc\":\"2.0\",\"id\":2,\"result\":{\"tools\":[{\"name\":\"echo\"}]}}"

abbrev drifted_line : Bytes
drifted_line =
    codes
      "{\"jsonrpc\":\"2.0\",\"id\":2,\"result\":{\"tools\":[{\"name\":\"echo\",\"title\":\"x\"}]}}"

abbrev call_line : Bytes
call_line =
    codes "{\"jsonrpc\":\"2.0\",\"id\":3,\"method\":\"tools/call\",\"params\":{\"name\":\"echo\"}}"

abbrev start : Core
start = new_core echo_entry (codes "echo") false default_limits

abbrev asked : List Event
asked = client delivered initialize_line ∷ server initialized_line ∷ client delivered list_line ∷ []

abbrev served : List Event
served = asked ++ server listed_line ∷ []

-- The call of the served tool goes upstream.
served_calls : any is_upstream (handle_client_frame (run start served) delivered call_line).1 ≡ true
unfolding session_code
served_calls = refl

strict_session_calls-IsPinned_example :
    (tool : Bytes) × (call_tool_name (lookup (codes "params") (the_frame call_line).obj)
      ≡ some tool)
    × IsPinned (old_by_name [] (tools_of echo_entry)) tool
unfolding session_code
strict_session_calls-IsPinned_example =
    strict_session_calls-IsPinned echo_entry (codes "echo") default_limits served delivered
      call_line (the_frame call_line) refl refl served_calls

tools_call_gate_example : IsCallable (run start served) (the_frame call_line)
unfolding session_code
tools_call_gate_example =
    (tools_call_gate (run start served) delivered call_line (the_frame call_line) refl refl).0
      served_calls

abbrev verifier : Verifier
verifier = new_verifier echo_entry (codes "echo") false default_limits

abbrev enumeration : Enumeration
unfolding session_code
enumeration = (new_enumeration verifier era_text false).1

verify_tools_page-serves_example :
    (s : Surface) × (admit (page_surface enumeration.era echo_page) default_limits ≡ ok s)
    × All (Acceptable verifier) s.tools
    × ((verify_tools_page verifier enumeration echo_page).verifier.callable ≡ names s.tools ++ [])
unfolding session_code
verify_tools_page-serves_example = verify_tools_page-serves verifier enumeration echo_page refl

ever_clean-IsClean_example :
    IsClean verifier (verify_tools_page verifier enumeration echo_page).enum
unfolding session_code
ever_clean-IsClean_example = ever_clean-IsClean verifier enumeration echo_page refl refl

refusal_revokes_example : (step (run start asked) (server drifted_line)).0.verifier.callable ≡ []
unfolding session_code
refusal_revokes_example = refusal_revokes (run start asked) (server drifted_line) refl

abbrev handshake_result : Bytes
handshake_result = codes "{\"protocolVersion\":\"2025-06-18\"}"

verify_handshake-forwards_example :
    (r : Reading) × (s : Surface) × (read_handshake classic handshake_result [] ≡ some r)
    × (admit (handshake_surface r) default_limits ≡ ok s)
    × (s.h_instr ≡ echo_entry.h_instr)
    × ((verify_handshake verifier classic handshake_result []).1.handshake_era ≡ r.era)
    × (Agrees verifier classic r ⊎ (false ≡ true))
unfolding session_code
verify_handshake-forwards_example =
    verify_handshake-forwards verifier classic handshake_result [] refl

response_correlates_example :
    (p : PendingReq) × (lookup (the_frame listed_line).id_key (run start asked).pending ≡ some p)
    × (lookup
          (the_frame listed_line).id_key
          (handle_server_frame (run start asked) listed_line).0.pending
        ≡ none)
unfolding session_code
response_correlates_example =
    response_correlates (run start asked) listed_line (the_frame listed_line) refl refl refl

session-IsBounded_example : IsBounded (run start served)
session-IsBounded_example = session-IsBounded echo_entry (codes "echo") false default_limits served

-- A line whose "id" member is given twice.
abbrev twice_line : Bytes
twice_line = codes "{\"jsonrpc\":\"2.0\",\"id\":2,\"id\":2,\"result\":{}}"

abbrev fields_of : Option Value → Fields
fields_of (some (Value.obj fs)) = fs
fields_of _ = Fields.end

abbrev twice_fields : Fields
unfolding session_code
twice_fields = fields_of (scan twice_line)

untrusted_line_revokes_example :
    IsTrusted twice_line
    ⊎ (((handle_server_frame (run start served) twice_line).1 ≡ [])
        × ((handle_server_frame (run start served) twice_line).0.inadmissible ≡ true)
        × ((handle_server_frame (run start served) twice_line).0.verifier.callable ≡ []))
unfolding session_code opens_object trim_left
untrusted_line_revokes_example =
    untrusted_line_revokes (run start served) twice_line refl (inr (twice_fields, refl))

abbrev continued_page : Bytes
continued_page = codes "{\"tools\":[{\"name\":\"echo\"}],\"nextCursor\":\"p2\"}"

verify_tools_page-matching_example :
    ((verify_tools_page verifier enumeration continued_page).verdict ≡ forward_verdict [])
    × ((verify_tools_page verifier enumeration continued_page).next ≡ codes "p2")
unfolding session_code
verify_tools_page-matching_example =
    verify_tools_page-matching verifier enumeration continued_page (codes "p2")
      (record echo_surface { flow = [] }) (ground arith) refl
      (record { pin = lock_tool echo_tool; pinned = refl; same = refl }, tt)
      (record { fresh = (refl, tt); bytes = omega arith; count = omega arith }) refl
      (λ e. absurd (ground arith)) (omega arith) refl
