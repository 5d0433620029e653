-- ===== src/Cli/Compare/Clean.antt =====
-- What a clean exit of verify and diff says of the servers.
use surfacelock.Prelude.{
  ℕ, ◌≡◌, refl, ◌≢◌, inl, inr, Bool, true, none, some, List, [], ◌∷◌, arith, Bool-cases,
  Option-cases, Map, lookup, insert,
}
use surfacelock.Prelude.Bytes.{Bytes}
use surfacelock.Prelude.Results.{ok, err, Result-cases}
use surfacelock.External.{External}
use surfacelock.Headers.{Headers}
use surfacelock.Surface.Admit.{Surface}
use surfacelock.Lockfile.Entry.{ServerLock, tools_of}
use surfacelock.Diff.Class.{is_empty}
use surfacelock.Diff.Surfaces.{diff, old_by_name, live_by_name}
use surfacelock.Diff.Surfaces.Clean.{SameTool, diff-clean}
use surfacelock.Client.Session.{Step, Peer}
use surfacelock.Cli.Exit.{
  SurfaceError, not_fetched, not_admitted, exit_ok, exit_transport, exit_lockfile, exit_rank,
  exit_for, worse,
}
use surfacelock.Cli.Exit.Order.{worse_lem, exit_rank-zero}
use surfacelock.Cli.Select.{
  Document, read_lockfile, select_entries, refuses_headers, ref_from_entry, fetch_surface_of,
}
use surfacelock.Cli.Compare.{
  JsonReport, Options, Comparison, new_report, finish, fail, judge_entry, compare_entry,
  compare_entries, compare_servers,
}

module _ ⦃ext : External⦄ where
  -- The server was fetched, its surface admitted, and the surface is the locked one: the same
  -- revision, the same hash of the instructions, and under every name the same tool or none.
  pub record IsSame (peer : Peer) (headers : Headers) (entry : ServerLock) (sent : List Step)
      : Type 0 where
    pub live : Surface
    pub served : (fetch_surface_of peer (ref_from_entry entry headers) sent).0 ≡ ok live
    pub same_era : entry.protocol.era ≡ live.era
    pub same_instructions : entry.h_instr ≡ live.h_instr
    pub same_tools :
        (n : Bytes)
        → SameTool
            (lookup n (old_by_name [] (tools_of entry)))
            (lookup n (live_by_name [] live.tools))

  -- Every selected entry, one after the other, each on what was sent before.
  unfoldable pub AllSame : Peer → Headers → Map ServerLock → List Step → List Bytes → Type 0
  AllSame peer headers m sent [] = Unit {0}
  AllSame peer headers m sent (name ∷ names) = elim (lookup name m) [
    | none ↦ AllSame peer headers m sent names
    | some entry ↦
        IsSame peer headers entry sent
        × AllSame peer headers m (compare_entry peer headers entry sent).1 names
  ]

  exit_for-fails : (e : SurfaceError) → exit_for e ≢ exit_ok
  unfolding exit_for
  exit_for-fails (not_fetched e) h = ground (arith, h)
  exit_for-fails (not_admitted e) h = ground (arith, h)

  compare_entry-IsSame :
      (peer : Peer) (headers : Headers) (entry : ServerLock) (sent : List Step)
      → (compare_entry peer headers entry sent).0.0 ≡ exit_ok
      → IsSame peer headers entry sent
  unfolding compare_entry judge_entry
  compare_entry-IsSame peer headers entry sent h =
      let got = fetch_surface_of peer (ref_from_entry entry headers) sent in
      elim (Result-cases got.0) [
        | inr (e, eg) ↦ absurd (exit_for-fails e (rw (compare_entry, eg) at h))
        | inl (live, eg) ↦ elim (Option-cases (diff entry live)) [
          | inl ed ↦ absurd (ground (arith, rw (compare_entry, eg, judge_entry, ed) at h))
          | inr (d, ed) ↦ elim (Bool-cases (is_empty d)) [
            | inr en ↦ absurd (ground (arith, rw (compare_entry, eg, judge_entry, ed, en) at h))
            | inl en ↦
                let (era, instructions, tools) = diff-clean entry live d ed en in
                record {
                  live = live;
                  served = eg;
                  same_era = era;
                  same_instructions = instructions;
                  same_tools = tools;
                }
          ]
        ]
      ]

  -- A worst outcome of rank 0 leaves rank 0 to both.
  worse-ok : (a b : ℕ) → worse a b ≡ exit_ok → (a ≡ exit_ok) × (b ≡ exit_ok)
  unfolding exit_rank
  worse-ok a b h =
      let (either, left, right) = worse_lem a b in
      let zero_out : exit_rank (worse a b) ≡ 0 = rw (h) refl in
      (
        exit_rank-zero a (omega (arith, left, zero_out)),
        exit_rank-zero b (omega (arith, right, zero_out)),
      )

  compare_entries-AllSame :
      (peer : Peer) (headers : Headers) (m : Map ServerLock) (s : Comparison) (names : List Bytes)
      → (compare_entries peer headers m s names).worst_code ≡ exit_ok
      → (s.worst_code ≡ exit_ok) × AllSame peer headers m s.sent names
  unfolding compare_entries AllSame
  compare_entries-AllSame peer headers m s [] h = (h, tt)
  compare_entries-AllSame peer headers m s (name ∷ names) h = elim (Option-cases (lookup name m)) [
    | inl e ↦
        rw (AllSame, e)
          (compare_entries-AllSame peer headers m s names (rw (compare_entries, e) at h))
    | inr (entry, e) ↦
        let r = compare_entry peer headers entry s.sent in
        let next : Comparison = record {
          worst_code = worse s.worst_code r.0.0;
          servers = insert name r.0.1 s.servers;
          sent = r.1;
        } in
        let rest =
          compare_entries-AllSame peer headers m next names (rw (compare_entries, e) at h) in
        let (before, now) = worse-ok s.worst_code r.0.0 rest.0 in
        rw (AllSame, e) (before, (compare_entry-IsSame peer headers entry s.sent now, rest.1))
  ]

  -- The code with which a comparison without a way to deliver its report ends.
  finish-ok :
      (c : Options) (rep : JsonReport) (code : ℕ) (sent : List Step)
      → (finish c rep code sent).exit ≡ exit_ok
      → code ≡ exit_ok
  unfolding finish
  finish-ok c rep code sent h = ground (arith, h, worse-ok code exit_transport)

  select_entries-fails :
      (name : Bytes) (m : Map ServerLock) (code : ℕ)
      → select_entries name m ≡ err code
      → code ≢ exit_ok
  unfolding select_entries
  select_entries-fails name m code h z = ground (arith, h, z)

  -- When verify or diff exits with 0, whatever the servers did, the lockfile was read and
  -- validated, entries were selected, and for every one of them the server was fetched and its
  -- surface admitted, with the locked revision, the locked hash of the instructions, and under
  -- every name the locked tool or none on both sides.
  pub compare_servers-clean :
      (c : Options) (verbose : Bool) (peer : Peer) (file : Document) (sent : List Step)
      → (compare_servers c verbose peer file sent).exit ≡ exit_ok
      → (m : Map ServerLock) × (names : List Bytes) × (read_lockfile file ≡ ok m)
        × (select_entries c.name m ≡ ok names)
        × AllSame peer c.headers m sent names
  unfolding compare_servers fail
  compare_servers-clean c verbose peer file sent h =
      let rep = new_report verbose in
      elim (Result-cases (read_lockfile file)) [
        | inr (e, er) ↦ absurd (
            ground (
              arith,
              finish-ok c (record rep { failed = true }) exit_lockfile sent
                  (rw (compare_servers, er, fail) at h),
            ))
        | inl (m, er) ↦ elim (Result-cases (select_entries c.name m)) [
          | inr (code, es) ↦ absurd (
              select_entries-fails c.name m code es (
                finish-ok c (record rep { failed = true }) code sent
                  (rw (compare_servers, er, es, fail) at h)))
          | inl (names, es) ↦ elim (Bool-cases (refuses_headers c.headers m names)) [
            | inl eh ↦ absurd (ground (arith, rw (compare_servers, er, es, eh) at h))
            | inr eh ↦
                let start : Comparison = record {
                  worst_code = exit_ok;
                  servers = [];
                  sent = sent;
                } in
                let end = compare_entries peer c.headers m start names in
                let zero_code =
                  finish-ok c (record rep { servers = end.servers }) end.worst_code end.sent
                    (rw (compare_servers, er, es, eh) at h) in
                (
                  m,
                  names,
                  er,
                  es,
                  (compare_entries-AllSame peer c.headers m start names zero_code).1,
                )
          ]
        ]
      ]
