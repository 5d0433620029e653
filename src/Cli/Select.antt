-- ===== src/Cli/Select.antt =====
-- cmd/surfacelock/main.go: the lockfile that a command reads, and the entries that it selects.
use surfacelock.Prelude.{
  ℕ, Bool, true, false, not, Option, none, some, List, [], ◌∷◌, ltb, ◌==◌, if◌then◌else◌, length,
  any, Map, lookup,
}
use surfacelock.Prelude.Bytes.{Bytes, codes, eq_bytes, lt_bytes}
use surfacelock.Prelude.Results.{Result, ok, err}
use surfacelock.External.{External}
use surfacelock.Headers.{Headers}
use surfacelock.Surface.Tool.{default_limits}
use surfacelock.Surface.Admit.{Surface, admit}
use surfacelock.Lockfile.Entry.{Lockfile, ServerLock}
use surfacelock.Lockfile.Shape.{ShapeError, check_document}
use surfacelock.Lockfile.Validate.{Corrupt, validate_all}
use surfacelock.Client.Session.{Step, Peer}
use surfacelock.Client.Fetch.{Ref, fetch}
use surfacelock.Cli.Exit.{SurfaceError, not_fetched, not_admitted, exit_usage, exit_lockfile}

-- What the file holds: `os.ReadFile` and the decoder of Parse fail, or there is a document.
pub data Document : Type 0 where
  no_file not_decoded : Document
  decoded : Lockfile → Document

-- readLockfile's errors; of them only `missing` is os.ErrNotExist.
pub data ReadError : Type 0 where
  missing unreadable : ReadError
  bad_shape : ShapeError → ReadError
  inconsistent : Corrupt → ReadError

-- `lf.Servers`; Validate lets no nil entry pass.
unfoldable pub present_entries : Map (Option ServerLock) → Map ServerLock
present_entries [] = []
present_entries ((name, none) ∷ m) = present_entries m
present_entries ((name, some e) ∷ m) = (name, e) ∷ present_entries m

unfoldable pub servers_of : Lockfile → Map (Option ServerLock)
servers_of lf = elim lf.servers [ none ↦ [] | some m ↦ m ]

-- sort.Strings
unfoldable pub insert_name : Bytes → List Bytes → List Bytes
insert_name n [] = n ∷ []
insert_name n (k ∷ ks) = if lt_bytes n k then n ∷ k ∷ ks else k ∷ insert_name n ks

unfoldable pub sorted_names : Map ServerLock → List Bytes
unfolding insert_name
sorted_names [] = []
sorted_names ((n, e) ∷ m) = insert_name n (sorted_names m)

-- selectEntries, given `c.name`; an error is an exit code.
unfoldable pub select_entries : Bytes → Map ServerLock → Result ℕ (List Bytes)
unfolding sorted_names
select_entries name m =
    if not (eq_bytes name [])
    then elim (lookup name m) [ none ↦ err exit_usage | some e ↦ ok (name ∷ []) ]
    else if length m == 0
    then err exit_lockfile
    else ok (sorted_names m)

-- The loop of checkHeaderTransports: an entry that is not http.
unfoldable pub not_http : Map ServerLock → Bytes → Bool
not_http m name = elim (lookup name m) [
  | none ↦ false
  | some e ↦ not (eq_bytes e.transport (codes "http"))
]

-- checkHeaderTransports: whether it refuses.
unfoldable pub refuses_headers : Headers → Map ServerLock → List Bytes → Bool
unfolding not_http
refuses_headers headers m names =
    if length headers == 0
    then false
    else if ltb 1 (length names)
    then true
    else any (not_http m) names

-- refFromEntry
unfoldable pub ref_from_entry : ServerLock → Headers → Ref
ref_from_entry e headers = record {
  transport = e.transport;
  offered = e.protocol.offered;
  flow = e.protocol.flow;
  headers = headers;
}

module _ ⦃ext : External⦄ where
  -- readLockfile
  unfoldable pub read_lockfile : Document → Result ReadError (Map ServerLock)
  unfolding servers_of present_entries
  read_lockfile no_file = err missing
  read_lockfile not_decoded = err unreadable
  read_lockfile (decoded lf) = elim (check_document lf) [
    | some e ↦ err (bad_shape e)
    | none ↦ elim (validate_all (servers_of lf)) [
      | err e ↦ err (inconsistent e)
      | ok _ ↦ ok (present_entries (servers_of lf))
    ]
  ]

  -- fetchSurface, with what it has sent.
  unfoldable pub fetch_surface_of : Peer → Ref → List Step → Result SurfaceError Surface × List Step
  fetch_surface_of peer ref sent =
      let r = fetch peer default_limits ref sent in
      (
        elim r.0 [
          | err e ↦ err (not_fetched e)
          | ok raw ↦ elim (admit raw default_limits) [ err e ↦ err (not_admitted e) | ok s ↦ ok s ]
        ],
        r.1,
      )
