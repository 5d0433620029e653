-- ===== src/Tests/Commands.antt =====
-- The theorems on the command line at a concrete lockfile and server.
use surfacelock.Prelude.{
  ℕ, zero, suc, ◌≤◌, ◌≡◌, refl, ◌↔◌, ◌⊎◌, true, false, Option, none, some, List, [], ◌∷◌, ◌==◌,
  length, all, any, All, Map, lookup,
}
use surfacelock.Prelude.Bytes.{Bytes, codes, eq_bytes, contains}
use surfacelock.Prelude.Results.{ok, err}
use surfacelock.External.{External}
use surfacelock.Go.Text.{
  cut, trim_space, trim_start, trim_end, to_upper, contains_text, has_prefix, is_space,
}
use surfacelock.Go.Utf8.{rune, width}
use surfacelock.Headers.{
  Headers, validate_headers, sorted_entries, insert_entry, check_entries, check_entry,
  valid_header_name,
}
use surfacelock.Headers.Rules.{is_safe, all_differ, validate_headers_iff}
use surfacelock.Surface.Tool.{default_limits}
use surfacelock.Surface.Admit.{RawSurface, flow_classic}
use surfacelock.Lockfile.Entry.{ServerLock, Lockfile}
use surfacelock.Lockfile.Shape.{
  check_document, servers_shape, validate_shape, valid_hash, cut_prefix, tool_shape, tools_shape,
  protocol_shape, content_shape,
}
use surfacelock.Lockfile.Validate.{validate_all}
use surfacelock.Diff.Class.{class_name, surface_severity}
use surfacelock.Cli.Exit.{
  exit_ok, exit_drift, exit_usage, exit_inadmissible, exit_rank, worse, exit_for,
  wraps_inadmissible, outcome_for, session_exit,
}
use surfacelock.Cli.Exit.Order.{session_exit-worse}
use surfacelock.Cli.Flags.{
  Parsing, parse_headers, parse_each, parse_literal, parse_from_env, add_header,
}
use surfacelock.Cli.Flags.Kept.{IsKept, parse_headers-Kept}
use surfacelock.Cli.Reflected.{refuse_reflected_credential, find_reflected, needles, contains_any}
use surfacelock.Cli.Reflected.Guard.{IsUnseen}
use surfacelock.Cli.Lock.Written.{write_lockfile_iff}
use surfacelock.Cli.Select.{
  Document, decoded, no_file, read_lockfile, select_entries, refuses_headers, not_http,
  sorted_names, insert_name, servers_of, present_entries, ref_from_entry, fetch_surface_of,
}
use surfacelock.Cli.Compare.{
  Options, finish, fail, judge_entry, compare_entry, compare_entries, compare_servers, diff_to_json,
}
use surfacelock.Cli.Compare.Clean.{AllSame, compare_servers-clean}
use surfacelock.Cli.Compare.Worst.{outcomes, compare_servers-worst}
use surfacelock.Cli.Compare.Delivered.{comes_to_refusal, compare_servers-documents}
use surfacelock.Cli.Lock.{
  Platform, TargetFlags, Target, target_ref, url_target, write_lockfile, read_or_new, lock_target,
  lock,
}
use surfacelock.Cli.Lock.Added.{IsAdded, lock-adds}
use surfacelock.Cli.Pin.{pin, pin_entries, pin_entry}
use surfacelock.Cli.Pin.Kept.{KeepsUpstreams, pin-keeps}
use surfacelock.Tests.Fixtures.{root_code, demo_transform, demo_fold, era_text}
use surfacelock.Tests.Fetching.{server, fetch_code}
use surfacelock.Surface.Admit.{Surface, admit}
use surfacelock.Lockfile.Entry.{entry_from_surface}

-- As `demo`, with a hash that has the length of SHA-256's.
abbrev digits : ℕ → Bytes
digits zero = []
digits (suc n) = b'a' ∷ digits n

instance abbrev plain : External
plain = record {
  transform = demo_transform;
  sum256 = λ b. digits 64;
  fold = demo_fold;
  float64 = some;
  range = λ m. m;
}

-- What a run of a command computes with.
unfoldable command_code : Unit {0}
unfolding fetch_code root_code cut trim_space trim_start trim_end is_space rune width to_upper
    contains_text has_prefix validate_headers sorted_entries insert_entry check_entries check_entry
    valid_header_name check_document servers_shape validate_shape valid_hash cut_prefix tool_shape
    tools_shape protocol_shape content_shape validate_all class_name surface_severity exit_rank
    worse exit_for wraps_inadmissible outcome_for parse_headers parse_each parse_literal
    parse_from_env add_header refuse_reflected_credential find_reflected needles contains_any
    read_lockfile select_entries refuses_headers not_http sorted_names insert_name servers_of
    present_entries ref_from_entry fetch_surface_of finish fail judge_entry compare_entry
    compare_entries compare_servers diff_to_json AllSame outcomes comes_to_refusal target_ref
    url_target write_lockfile read_or_new lock_target lock pin pin_entries pin_entry
command_code = tt

abbrev no_surface : Surface
no_surface = record {
  offered = [];
  era = [];
  flow = [];
  instructions = none;
  h_instr = [];
  tools = [];
  server_info = none;
}

-- The surface of the server, and its entry in the lockfile.
abbrev served : RawSurface
served = record {
  offered = era_text;
  era = era_text;
  flow = flow_classic;
  instructions = none;
  server_info = none;
  pages = codes "{\"tools\":[{\"name\":\"echo\"}]}" ∷ [];
}

abbrev surface : Surface
unfolding command_code
surface = elim (admit served default_limits) [ ok s ↦ s | err e ↦ no_surface ]

abbrev entry_at : Bytes → Option ServerLock
unfolding command_code
entry_at transport = entry_from_surface transport (codes "echo-server") (some []) surface

abbrev lockfile_of : Option ServerLock → Lockfile
lockfile_of e = record { lockfile_version = 1; servers = some ((codes "echo", e) ∷ []) }

abbrev entries_of : Option ServerLock → Map ServerLock
entries_of none = []
entries_of (some e) = (codes "echo", e) ∷ []

abbrev file : Document
unfolding command_code
file = decoded (lockfile_of (entry_at (codes "stdio")))

abbrev options : Options
options = record { name = []; json_out = true; headers = []; writable = true }

clean_runs : (compare_servers options false server file []).exit ≡ exit_ok
unfolding command_code
clean_runs = refl

abbrev entries : Map ServerLock
unfolding command_code
entries = entries_of (entry_at (codes "stdio"))

compare_servers-clean_example :
    (m : Map ServerLock) × (names : List Bytes) × (read_lockfile file ≡ ok m)
    × (select_entries [] m ≡ ok names)
    × AllSame server [] m [] names
compare_servers-clean_example = compare_servers-clean options false server file [] clean_runs

compare_servers-worst_example :
    All (λ code. exit_rank code ≤ exit_rank exit_ok) (exit_ok ∷ [])
    × ((exit_ok ≡ exit_ok) ⊎ (any (λ code. code == exit_ok) (exit_ok ∷ []) ≡ true))
unfolding command_code
compare_servers-worst_example =
    compare_servers-worst options false server file [] entries (codes "echo" ∷ []) refl refl refl
      refl

-- A credential for an entry that is not http.
abbrev with_header : Options
with_header = record options { headers = (codes "X-Api-Key", codes "secret") ∷ [] }

compare_servers-documents_example :
    (length (compare_servers with_header false server file []).documents ≡ 0)
    × All (λ d. d.exit ≡ exit_usage) (compare_servers with_header false server file []).documents
    × ((true ≡ true) → (compare_servers with_header false server file []).exit ≡ exit_usage)
unfolding command_code
compare_servers-documents_example =
    compare_servers-documents with_header false server file [] refl refl

abbrev platform : Platform
platform = record {
  parse_url = λ url.
      some (record { scheme = codes "https"; host = codes "echo.example"; has_user = false });
  base = λ path. path;
  render = λ m. some (codes "{}");
  writes = λ doc. true;
}

-- A header's value of eight bytes, which JSON spells otherwise.
abbrev secrets : Headers
secrets = (codes "X-Api-Key", codes "0123\"567") ∷ []

abbrev secret_options : Options
secret_options = record options { headers = secrets }

abbrev flags : TargetFlags
flags = record { url = codes "https://echo.example"; argv = []; offer = era_text }

abbrev added : Map ServerLock
unfolding command_code
added = elim (entry_from_surface (codes "http") (codes "https://echo.example") none surface) [
  | none ↦ []
  | some e ↦ (codes "echo.example", e) ∷ []
]

lock-adds_example :
    (t : Target) × (name : Bytes) × (before : Map ServerLock) × (target_ref platform flags secrets
      ≡ ok t)
    × (read_or_new no_file ≡ ok before)
    × (lookup name before ≡ none)
    × ((k : Bytes) → eq_bytes name k ≡ false → lookup k added ≡ lookup k before)
    × IsAdded secret_options server t [] name before added (codes "{}")
unfolding command_code
lock-adds_example =
    lock-adds secret_options platform flags server no_file [] added (codes "{}") refl

abbrev http_file : Document
unfolding command_code
http_file = decoded (lockfile_of (entry_at (codes "http")))

abbrev http_entries : Map ServerLock
unfolding command_code
http_entries = entries_of (entry_at (codes "http"))

pin-keeps_example :
    (before : Map ServerLock) × (names : List Bytes) × (read_lockfile http_file ≡ ok before)
    × (select_entries [] before ≡ ok names)
    × ((pin [] secrets platform server http_file []).exit ≡ exit_ok)
    × ((k : Bytes) → contains names k ≡ false → lookup k http_entries ≡ lookup k before)
    × KeepsUpstreams before http_entries
    × All (IsUnseen (codes "{}")) secrets
unfolding command_code
pin-keeps_example = pin-keeps [] secrets platform server http_file [] http_entries (codes "{}") refl

abbrev literal : List Bytes
literal = codes "X-Api-Key: se:cret" ∷ []

abbrev parsed : Parsing
parsed = record {
  headers = (codes "X-Api-Key", codes "se:cret") ∷ [];
  seen = codes "X-API-KEY" ∷ [];
  warned = codes "X-Api-Key" ∷ [];
}

parse_headers-Kept_example : (validate_headers parsed.headers ≡ none) × All (IsKept parsed) literal
unfolding command_code
parse_headers-Kept_example = parse_headers-Kept (λ name. none) literal [] parsed refl

write_lockfile_iff_example : (write_lockfile platform secrets [] ≡ some (codes "{}")) ↔ (
    (platform.render [] ≡ some (codes "{}"))
    × All (IsUnseen (codes "{}")) secrets
    × (platform.writes (codes "{}") ≡ true))
write_lockfile_iff_example = write_lockfile_iff platform secrets [] (codes "{}")

-- JSON's spelling of the value is found.
reflected_runs :
    refuse_reflected_credential secrets (codes "\"key 0123\\\"567\"") ≡ some (codes "X-Api-Key")
unfolding command_code
reflected_runs = refl

validate_headers_iff_example :
    (all is_safe parsed.headers ≡ true) × (all_differ parsed.headers ≡ true)
unfolding command_code
validate_headers_iff_example = (validate_headers_iff parsed.headers).0 refl

session_exit-worse_example :
    session_exit true false true ≡ worse exit_drift (worse exit_ok exit_inadmissible)
unfolding command_code
session_exit-worse_example = session_exit-worse true false true
