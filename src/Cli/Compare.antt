-- ===== src/Cli/Compare.antt =====
-- cmd/surfacelock/main.go and json.go: `compare`, which is verify and diff.
pub mod Clean
pub mod Worst
pub mod Delivered
use surfacelock.Prelude.{
  ℕ, Bool, true, false, not, Option, none, some, List, [], ◌∷◌, map, if◌then◌else◌, length, Map,
  lookup, insert,
}
use surfacelock.Prelude.Bytes.{Bytes, codes}
use surfacelock.Prelude.Results.{ok, err}
use surfacelock.External.{External}
use surfacelock.Headers.{Headers}
use surfacelock.Surface.Admit.{Surface}
use surfacelock.Surface.Rollup.{surface_hash}
use surfacelock.Lockfile.Entry.{ServerLock, tools_of}
use surfacelock.Diff.Class.{ToolDiff, SurfaceDiff, class_name, is_empty, surface_severity}
use surfacelock.Diff.Surfaces.{diff}
use surfacelock.Client.Session.{Step, Peer}
use surfacelock.Cli.Exit.{
  exit_ok, exit_drift, exit_usage, exit_transport, exit_lockfile, exit_for, worse, outcome_for,
}
use surfacelock.Cli.Select.{
  Document, read_lockfile, select_entries, refuses_headers, ref_from_entry, fetch_surface_of,
}

-- jsonToolDiff
pub record JsonToolDiff : Type 0 where
  pub name : Bytes
  pub classes : List Bytes

-- jsonDiff; the severity is a rank, which Class.String names.
pub record JsonDiff : Type 0 where
  pub severity : ℕ
  pub era_changed : Bool
  pub old_era : Bytes
  pub new_era : Bytes
  pub instructions_changed : Bool
  pub tools : List JsonToolDiff

-- jsonObserved
pub record JsonObserved : Type 0 where
  pub tools : ℕ
  pub era : Bytes
  pub surface_hash : Bytes

-- jsonServer, without the text of its error.
pub record JsonServer : Type 0 where
  pub outcome : Bytes
  pub tools : Option ℕ
  pub era : Bytes
  pub diff : Option JsonDiff
  pub observed : Option JsonObserved

-- jsonReport, without the file's path and the text of its error; what only lock fills is left out.
pub record JsonReport : Type 0 where
  pub verb : Bytes
  pub exit : ℕ
  pub failed : Bool
  pub servers : Map JsonServer

-- diffToJSON
unfoldable pub diff_to_json : SurfaceDiff → JsonDiff
unfolding class_name surface_severity
diff_to_json d = record {
  severity = surface_severity d;
  era_changed = d.era_changed;
  old_era = d.old_era;
  new_era = d.new_era;
  instructions_changed = d.instructions_changed;
  tools =
      map (λ (t : ToolDiff). record { name = t.name; classes = map class_name t.classes }) d.tools;
}

-- What of `cli` a comparison reads, and whether stdout takes what is written to it.
pub record Options : Type 0 where
  pub name : Bytes
  pub json_out : Bool
  pub headers : Headers
  pub writable : Bool

-- A command's exit code, the documents on stdout, and what it has sent.
pub record Run : Type 0 where
  pub exit : ℕ
  pub documents : List JsonReport
  pub sent : List Step

-- finish
unfoldable pub finish : Options → JsonReport → ℕ → List Step → Run
unfolding worse
finish c rep code sent =
    if not c.json_out
    then record { exit = code; documents = []; sent = sent }
    else if c.writable
    then record { exit = code; documents = record rep { exit = code } ∷ []; sent = sent }
    else record { exit = worse code exit_transport; documents = []; sent = sent }

-- fail
unfoldable pub fail : Options → JsonReport → ℕ → List Step → Run
unfolding finish
fail c rep code sent = finish c (record rep { failed = true }) code sent

-- newReport
abbrev pub new_report : Bool → JsonReport
new_report verbose = record {
  verb = if verbose then codes "diff" else codes "verify";
  exit = 0;
  failed = false;
  servers = [];
}

abbrev failed_server : ℕ → JsonServer
failed_server code = record {
  outcome = outcome_for code;
  tools = none;
  era = [];
  diff = none;
  observed = none;
}

module _ ⦃ext : External⦄ where
  -- The end of one turn of the loop, from what Diff returns: the code that `worse` takes, and the
  -- server's report.
  unfoldable pub judge_entry : ServerLock → Surface → Option SurfaceDiff → ℕ × JsonServer
  unfolding is_empty diff_to_json outcome_for
  judge_entry entry live none = (exit_transport, failed_server exit_transport)
  judge_entry entry live (some d) =
      if is_empty d
      then (
        exit_ok,
        record {
          outcome = codes "ok";
          tools = some (length (tools_of entry));
          era = entry.protocol.era;
          diff = none;
          observed = none;
        },
      )
      else (
        exit_drift,
        record {
          outcome = codes "drift";
          tools = none;
          era = [];
          diff = some (diff_to_json d);
          observed = elim (surface_hash live.era live.h_instr live.tools) [
            | none ↦ none
            | some h ↦ some (record { tools = length live.tools; era = live.era; surface_hash = h })
          ];
        },
      )

  -- One turn of the loop.
  unfoldable pub compare_entry :
      Peer → Headers → ServerLock → List Step → (ℕ × JsonServer) × List Step
  unfolding judge_entry
  compare_entry peer headers entry sent =
      let got = fetch_surface_of peer (ref_from_entry entry headers) sent in
      (
        elim got.0 [
          | err e ↦ (exit_for e, failed_server (exit_for e))
          | ok live ↦ judge_entry entry live (diff entry live)
        ],
        got.1,
      )

  -- The variables of the loop: `worst`, `rep.Servers`, and what was sent.
  pub record Comparison : Type 0 where
    pub worst_code : ℕ
    pub servers : Map JsonServer
    pub sent : List Step

  -- A selected entry is there.
  unfoldable pub compare_entries :
      Peer → Headers → Map ServerLock → Comparison → List Bytes → Comparison
  unfolding compare_entry worse
  compare_entries peer headers m s [] = s
  compare_entries peer headers m s (name ∷ names) = elim (lookup name m) [
    | none ↦ compare_entries peer headers m s names
    | some entry ↦
        let r = compare_entry peer headers entry s.sent in
        compare_entries peer headers m
          (record {
            worst_code = worse s.worst_code r.0.0;
            servers = insert name r.0.1 s.servers;
            sent = r.1;
          })
          names
  ]

  -- compare
  unfoldable pub compare_servers : Options → Bool → Peer → Document → List Step → Run
  unfolding compare_entries fail
  compare_servers c verbose peer file sent =
      let rep = new_report verbose in
      elim (read_lockfile file) [
        | err e ↦ fail c rep exit_lockfile sent
        | ok m ↦ elim (select_entries c.name m) [
          | err code ↦ fail c rep code sent
          | ok names ↦
              if refuses_headers c.headers m names
              then record { exit = exit_usage; documents = []; sent = sent }
              else let s =
                  compare_entries peer c.headers m
                    (record { worst_code = exit_ok; servers = []; sent = sent }) names in
                finish c (record rep { servers = s.servers }) s.worst_code s.sent
        ]
      ]
