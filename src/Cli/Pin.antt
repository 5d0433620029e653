-- ===== src/Cli/Pin.antt =====
-- cmd/surfacelock/main.go: `pin`, which locks entries again, and the entry that `proxy` serves.
pub mod Kept
use surfacelock.Prelude.{
  ℕ, not, ◌&&◌, Option, none, some, List, [], ◌∷◌, ltb, ◌==◌, if◌then◌else◌, length, Map, lookup,
  insert,
}
use surfacelock.Prelude.Bytes.{Bytes, codes, eq_bytes}
use surfacelock.Prelude.Results.{Result, ok, err}
use surfacelock.External.{External}
use surfacelock.Headers.{Headers}
use surfacelock.Lockfile.Entry.{ServerLock, entry_from_surface}
use surfacelock.Client.Session.{Step, Peer}
use surfacelock.Cli.Exit.{exit_ok, exit_usage, exit_transport, exit_lockfile, exit_for}
use surfacelock.Cli.Select.{
  Document, read_lockfile, select_entries, refuses_headers, ref_from_entry, fetch_surface_of,
}
use surfacelock.Cli.Lock.{Platform, write_lockfile}

-- What pin leaves: its exit code, and the entries and the text that it wrote.
pub record Pinned : Type 0 where
  pub exit : ℕ
  pub written : Option (Map ServerLock × Bytes)
  pub sent : List Step

module _ ⦃ext : External⦄ where
  -- One entry fetched again: the new entry, or the exit code.
  unfoldable pub pin_entry :
      Peer → Headers → ServerLock → List Step → Result ℕ ServerLock × List Step
  pin_entry peer headers old sent =
      let got = fetch_surface_of peer (ref_from_entry old headers) sent in
      (
        elim got.0 [
          | err e ↦ err (exit_for e)
          | ok live ↦ elim (entry_from_surface old.transport old.target old.args live) [
            | none ↦ err exit_transport
            | some entry ↦ ok entry
          ]
        ],
        got.1,
      )

  -- The loop: the entries after it, or the exit code that ends the command.
  unfoldable pub pin_entries :
      Peer
      → Headers
      → Map ServerLock
      → List Step
      → List Bytes
      → Result ℕ (Map ServerLock) × List Step
  unfolding pin_entry
  pin_entries peer headers m sent [] = (ok m, sent)
  pin_entries peer headers m sent (name ∷ names) = elim (lookup name m) [
    | none ↦ pin_entries peer headers m sent names
    | some old ↦
        let r = pin_entry peer headers old sent in
        elim r.0 [
          | err code ↦ (err code, r.1)
          | ok entry ↦ pin_entries peer headers (insert name entry m) r.1 names
        ]
  ]

  -- pin, given `c.name` and `c.headers`.
  unfoldable pub pin : Bytes → Headers → Platform → Peer → Document → List Step → Pinned
  unfolding pin_entries write_lockfile
  pin only headers p peer file sent = elim (read_lockfile file) [
    | err e ↦ record { exit = exit_lockfile; written = none; sent = sent }
    | ok m ↦ elim (select_entries only m) [
      | err code ↦ record { exit = code; written = none; sent = sent }
      | ok names ↦
          if refuses_headers headers m names
          then record { exit = exit_usage; written = none; sent = sent }
          else let r = pin_entries peer headers m sent names in
            elim r.0 [
              | err code ↦ record { exit = code; written = none; sent = r.1 }
              | ok after ↦ elim (write_lockfile p headers after) [
                | none ↦ record { exit = exit_lockfile; written = none; sent = r.1 }
                | some doc ↦ record { exit = exit_ok; written = some (after, doc); sent = r.1 }
              ]
            ]
    ]
  ]

-- The entry that proxy serves, given `c.name` and `c.headers`; an error is an exit code.
unfoldable pub proxy_entry : Bytes → Headers → Map ServerLock → Result ℕ (Bytes × ServerLock)
proxy_entry only headers m =
    let chosen : Option Bytes =
      if not (eq_bytes only [])
      then some only
      else elim m [ [] ↦ none | e ∷ es ↦ if length es == 0 then some e.0 else none ] in
    elim chosen [
      | none ↦ err exit_usage
      | some name ↦ elim (lookup name m) [
        | none ↦ err exit_usage
        | some entry ↦
            if ltb 0 (length headers) && not (eq_bytes entry.transport (codes "http"))
            then err exit_usage
            else ok (name, entry)
      ]
    ]
