-- ===== src/Cli/Compare/Delivered.antt =====
-- How many documents a comparison writes with --json.
use surfacelock.Prelude.{
  ℕ, ◌≡◌, refl, inl, inr, Bool, true, false, List, [], arith, if◌then◌else◌, Bool-cases, length,
  All,
}
use surfacelock.Prelude.Results.{ok, err, Result-cases}
use surfacelock.External.{External}
use surfacelock.Client.Session.{Step, Peer}
use surfacelock.Cli.Exit.{exit_ok, exit_usage, exit_lockfile}
use surfacelock.Cli.Select.{Document, read_lockfile, select_entries, refuses_headers}
use surfacelock.Cli.Compare.{
  JsonReport, Options, Comparison, new_report, finish, fail, compare_entries, compare_servers,
}

module _ ⦃ext : External⦄ where
  -- Whether a comparison comes to the refusal of its headers.
  unfoldable pub comes_to_refusal : Options → Document → Bool
  comes_to_refusal c file = elim (read_lockfile file) [
    | err e ↦ false
    | ok m ↦ elim (select_entries c.name m) [
      | err code ↦ false
      | ok names ↦ refuses_headers c.headers m names
    ]
  ]

  finish-document :
      (c : Options) (rep : JsonReport) (code : ℕ) (sent : List Step)
      → c.json_out ≡ true
      → c.writable ≡ true
      → (length (finish c rep code sent).documents ≡ 1)
        × All (λ d. d.exit ≡ (finish c rep code sent).exit) (finish c rep code sent).documents
  unfolding finish
  finish-document c rep code sent j w = rw (finish, j, w) (refl, (refl, tt))

  -- With --json and a stdout that takes what is written, verify and diff write one document, whose
  -- exit code is the process's, on every path but one: where the headers are refused for the
  -- selected entries, nothing is written, and the exit code is that of a usage error.
  pub compare_servers-documents :
      (c : Options) (verbose : Bool) (peer : Peer) (file : Document) (sent : List Step)
      → c.json_out ≡ true
      → c.writable ≡ true
      → let run = compare_servers c verbose peer file sent in
        (length run.documents ≡ (if comes_to_refusal c file then 0 else 1))
        × All (λ d. d.exit ≡ run.exit) run.documents
        × ((comes_to_refusal c file ≡ true) → run.exit ≡ exit_usage)
  unfolding compare_servers comes_to_refusal fail
  compare_servers-documents c verbose peer file sent j w =
      let rep = new_report verbose in
      elim (Result-cases (read_lockfile file)) [
        | inr (e, er) ↦
            let d = finish-document c (record rep { failed = true }) exit_lockfile sent j w in
            rw (compare_servers, comes_to_refusal, er, fail)
              (d.0, d.1, λ h. absurd (ground (arith, h)))
        | inl (m, er) ↦ elim (Result-cases (select_entries c.name m)) [
          | inr (code, es) ↦
              let d = finish-document c (record rep { failed = true }) code sent j w in
              rw (compare_servers, comes_to_refusal, er, es, fail)
                (d.0, d.1, λ h. absurd (ground (arith, h)))
          | inl (names, es) ↦ elim (Bool-cases (refuses_headers c.headers m names)) [
            | inl eh ↦ rw (compare_servers, comes_to_refusal, er, es, eh) (refl, tt, λ h. refl)
            | inr eh ↦
                let start : Comparison = record {
                  worst_code = exit_ok;
                  servers = [];
                  sent = sent;
                } in
                let end = compare_entries peer c.headers m start names in
                let d =
                  finish-document c (record rep { servers = end.servers }) end.worst_code end.sent j
                    w in
                rw (compare_servers, comes_to_refusal, er, es, eh)
                  (d.0, d.1, λ h. absurd (ground (arith, h)))
          ]
        ]
      ]
