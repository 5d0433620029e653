-- ===== src/Cli/Compare/Worst.antt =====
-- The exit code of a comparison against the outcomes of its entries.
use surfacelock.Prelude.{
  ℕ, ◌≤◌, ◌≡◌, refl, ◌⊎◌, inl, inr, Bool, true, false, not, ◌||◌, none, some, List, [], ◌∷◌, arith,
  ◌==◌, Option-cases, any, All, Map, lookup, insert,
}
use surfacelock.Prelude.Bytes.{Bytes}
use surfacelock.Prelude.Results.{ok}
use surfacelock.External.{External}
use surfacelock.Headers.{Headers}
use surfacelock.Lockfile.Entry.{ServerLock}
use surfacelock.Client.Session.{Step, Peer}
use surfacelock.Cli.Exit.{exit_ok, exit_rank, worse}
use surfacelock.Cli.Exit.Order.{worse_lem}
use surfacelock.Cli.Select.{Document, read_lockfile, select_entries, refuses_headers}
use surfacelock.Cli.Compare.{
  Options, Comparison, finish, compare_entry, compare_entries, compare_servers,
}

module _ ⦃ext : External⦄ where
  module _ (peer : Peer) (headers : Headers) (m : Map ServerLock) where
    -- The codes of the entries one after the other.
    unfoldable pub outcomes : List Step → List Bytes → List ℕ
    outcomes sent [] = []
    outcomes sent (name ∷ names) = elim (lookup name m) [
      | none ↦ outcomes sent names
      | some entry ↦ let r = compare_entry peer headers entry sent in r.0.0 ∷ outcomes r.1 names
    ]

    -- What the loop makes of a code and those that follow: the worst of them.
    record IsWorst (first out : ℕ) (codes : List ℕ) : Type 0 where
      start : exit_rank first ≤ exit_rank out
      others : All (λ c. exit_rank c ≤ exit_rank out) codes
      found : (out ≡ first) ⊎ (any (λ c. c == out) codes ≡ true)

    All-rank :
        (a b : ℕ) (codes : List ℕ)
        → a ≤ b
        → All (λ c. exit_rank c ≤ a) codes
        → All (λ c. exit_rank c ≤ b) codes
    All-rank a b [] le h = tt
    All-rank a b (c ∷ cs) le h = (omega (arith, le, h.0), All-rank a b cs le h.1)

    compare_entries-IsWorst :
        (s : Comparison) (names : List Bytes)
        → IsWorst s.worst_code
            (compare_entries peer headers m s names).worst_code
            (outcomes s.sent names)
    unfolding compare_entries outcomes
    compare_entries-IsWorst s [] = record { start = omega arith; others = tt; found = inl refl }
    compare_entries-IsWorst s (name ∷ names) = elim (Option-cases (lookup name m)) [
      | inl e ↦ rw (compare_entries, outcomes, e) (compare_entries-IsWorst s names)
      | inr (entry, e) ↦
          let r = compare_entry peer headers entry s.sent in
          let next : Comparison = record {
            worst_code = worse s.worst_code r.0.0;
            servers = insert name r.0.1 s.servers;
            sent = r.1;
          } in
          let rest = compare_entries-IsWorst next names in
          let (either, left, right) = worse_lem s.worst_code r.0.0 in
          let out = (compare_entries peer headers m next names).worst_code in
          rw (compare_entries, outcomes, e)
            (record {
              start = omega (arith, left, rest.start);
              others = (omega (arith, right, rest.start), rest.others);
              found = ground (arith, either, rest.found);
            })
    ]

  -- A comparison whose lockfile can be read, whose selection succeeds and whose headers are not
  -- refused, and which writes no document or whose stdout takes it, exits with the worst outcome of the selected entries: with no other code than that of
  -- one of them or success, and none of them is worse. So no entry's failure or drift hides behind
  -- another's success.
  pub compare_servers-worst :
      (c : Options) (verbose : Bool) (peer : Peer) (file : Document) (sent : List Step)
      (m : Map ServerLock) (names : List Bytes)
      → read_lockfile file ≡ ok m
      → select_entries c.name m ≡ ok names
      → refuses_headers c.headers m names ≡ false
      → not c.json_out || c.writable ≡ true
      → let out = (compare_servers c verbose peer file sent).exit in
        let codes_of = outcomes peer c.headers m sent names in
        All (λ code. exit_rank code ≤ exit_rank out) codes_of
        × ((out ≡ exit_ok) ⊎ (any (λ code. code == out) codes_of ≡ true))
  unfolding compare_servers finish
  compare_servers-worst c verbose peer file sent m names read select allow deliver =
      let start : Comparison = record { worst_code = exit_ok; servers = []; sent = sent } in
      let w = compare_entries-IsWorst peer c.headers m start names in
      let end = compare_entries peer c.headers m start names in
      let exits : (compare_servers c verbose peer file sent).exit ≡ end.worst_code =
        rw (compare_servers, read, select, allow) ground (arith, deliver) in
      rw (exits) (w.others, w.found)
