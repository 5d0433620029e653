-- ===== src/Cli/Lock.antt =====
-- cmd/surfacelock/main.go: `lock`, which adds an entry to the lockfile.
pub mod Written
pub mod Added
use surfacelock.Prelude.{
  Bool, false, not, ◌&&◌, ◌||◌, Option, none, some, List, [], ◌∷◌, ltb, if◌then◌else◌, length, Map,
  lookup, insert,
}
use surfacelock.Prelude.Bytes.{Bytes, codes, eq_bytes}
use surfacelock.Prelude.Results.{Result, ok, err}
use surfacelock.External.{External}
use surfacelock.Headers.{Headers}
use surfacelock.Lockfile.Entry.{ServerLock, entry_from_surface}
use surfacelock.Client.Session.{Step, Peer}
use surfacelock.Client.Fetch.{Ref}
use surfacelock.Cli.Exit.{exit_ok, exit_usage, exit_transport, exit_lockfile, exit_for}
use surfacelock.Cli.Reflected.{refuse_reflected_credential}
use surfacelock.Cli.Select.{Document, ReadError, missing, read_lockfile, fetch_surface_of}
use surfacelock.Cli.Compare.{JsonReport, Options, Run, finish, fail}

-- url.URL, as far as targetRef reads it.
pub record Url : Type 0 where
  pub scheme : Bytes
  pub host : Bytes
  pub has_user : Bool

-- What the command takes from outside: `url.Parse`, `filepath.Base`, the text that Render makes of
-- the entries, and whether `os.WriteFile` succeeds on a text.
pub record Platform : Type 0 where
  pub parse_url : Bytes → Option Url
  pub base : Bytes → Bytes
  pub render : Map ServerLock → Option Bytes
  pub writes : Bytes → Bool

-- The target's flags and arguments.
pub record TargetFlags : Type 0 where
  pub url : Bytes
  pub argv : List Bytes
  pub offer : Bytes

pub data TargetError : Type 0 where
  both_targets not_http_url has_userinfo headers_for_stdio no_target : TargetError

-- What targetRef returns: the Ref, its Target and Args, and the name.
pub record Target : Type 0 where
  pub ref : Ref
  pub target : Bytes
  pub args : Option (List Bytes)
  pub default_name : Bytes

abbrev pub is_http_scheme : Bytes → Bool
is_http_scheme s = eq_bytes s (codes "http") || eq_bytes s (codes "https")

-- The case of --url.
unfoldable pub url_target : Platform → TargetFlags → Headers → Result TargetError Target
url_target p f headers = elim (p.parse_url f.url) [
  | none ↦ err not_http_url
  | some u ↦
      if eq_bytes u.host [] || not (is_http_scheme u.scheme)
      then err not_http_url
      else if u.has_user
      then err has_userinfo
      else ok (record {
        ref = record { transport = codes "http"; offered = f.offer; flow = []; headers = headers };
        target = f.url;
        args = none;
        default_name = u.host;
      })
]

-- targetRef
unfoldable pub target_ref : Platform → TargetFlags → Headers → Result TargetError Target
unfolding url_target
target_ref p f headers =
    if not (eq_bytes f.url []) && ltb 0 (length f.argv)
    then err both_targets
    else if not (eq_bytes f.url [])
    then url_target p f headers
    else elim f.argv [
      | [] ↦ err no_target
      | command ∷ args ↦
          if ltb 0 (length headers)
          then err headers_for_stdio
          else ok (record {
            ref = record { transport = codes "stdio"; offered = f.offer; flow = []; headers = [] };
            target = command;
            args = some args;
            default_name = p.base command;
          })
    ]

-- writeLockfile: the text that was written, `none` for an error.
unfoldable pub write_lockfile : Platform → Headers → Map ServerLock → Option Bytes
write_lockfile p headers m = elim (p.render m) [
  | none ↦ none
  | some doc ↦ elim (refuse_reflected_credential headers doc) [
    | some name ↦ none
    | none ↦ if p.writes doc then some doc else none
  ]
]

-- A run that may have written the lockfile: the entries that it then holds, and its text.
pub record Writing : Type 0 where
  pub run : Run
  pub written : Option (Map ServerLock × Bytes)

abbrev lock_report : JsonReport
lock_report = record { verb = codes "lock"; exit = 0; failed = false; servers = [] }

module _ ⦃ext : External⦄ where
  -- The entries to which lock adds one: none where there is no file.
  unfoldable pub read_or_new : Document → Result ReadError (Map ServerLock)
  read_or_new file = elim (read_lockfile file) [ ok m ↦ ok m | err missing ↦ ok [] | err e ↦ err e ]

  -- lock, behind its checks: the fetch, the entry and the file.
  unfoldable pub lock_target :
      Options → Platform → Peer → Target → Bytes → Map ServerLock → List Step → Writing
  unfolding write_lockfile
  lock_target c p peer t name m sent =
      let got = fetch_surface_of peer t.ref sent in
      elim got.0 [
        | err e ↦ record { run = fail c lock_report (exit_for e) got.1; written = none }
        | ok live ↦ elim (entry_from_surface t.ref.transport t.target t.args live) [
          | none ↦ record { run = fail c lock_report exit_transport got.1; written = none }
          | some entry ↦ elim (write_lockfile p c.headers (insert name entry m)) [
            | none ↦ record { run = fail c lock_report exit_lockfile got.1; written = none }
            | some doc ↦ record {
              run = finish c lock_report exit_ok got.1;
              written = some (insert name entry m, doc);
            }
          ]
        ]
      ]

  -- lock
  unfoldable pub lock : Options → Platform → TargetFlags → Peer → Document → List Step → Writing
  unfolding lock_target read_or_new target_ref
  lock c p f peer file sent = elim (target_ref p f c.headers) [
    | err e ↦ record { run = fail c lock_report exit_usage sent; written = none }
    | ok t ↦
        let name = if eq_bytes c.name [] then t.default_name else c.name in
        elim (read_or_new file) [
          | err e ↦ record { run = fail c lock_report exit_lockfile sent; written = none }
          | ok m ↦ elim (lookup name m) [
            | some e ↦ record { run = fail c lock_report exit_usage sent; written = none }
            | none ↦ lock_target c p peer t name m sent
          ]
        ]
  ]
