-- ===== src/Cli/Exit.antt =====
-- cmd/surfacelock/main.go and json.go: the exit codes and their order.
pub mod Order
use surfacelock.Prelude.{ℕ, Bool, true, false, ◌||◌, ltb, ◌==◌, if◌then◌else◌}
use surfacelock.Prelude.Bytes.{Bytes, codes}
use surfacelock.Prelude.Results.{ok}
use surfacelock.Surface.Tool.{Inadmissible}
use surfacelock.Client.Session.{inadmissible_answer}
use surfacelock.Client.Pages.{
  FetchError, bad_offer, bad_era, not_called, too_many_pages, page_not_parsed, cursor_not_string,
  cursor_too_long, cursor_repeated, pre_commit, both,
}

abbrev pub exit_ok : ℕ
exit_ok = 0

abbrev pub exit_drift : ℕ
exit_drift = 1

abbrev pub exit_usage : ℕ
exit_usage = 2

abbrev pub exit_transport : ℕ
exit_transport = 3

abbrev pub exit_lockfile : ℕ
exit_lockfile = 4

abbrev pub exit_inadmissible : ℕ
exit_inadmissible = 5

-- `rank` of `worse`.
unfoldable pub exit_rank : ℕ → ℕ
exit_rank code =
    if code == exit_ok
    then 0
    else if code == exit_drift
    then 1
    else if code == exit_transport
    then 2
    else if code == exit_inadmissible
    then 3
    else if code == exit_lockfile
    then 4
    else 5

-- worse
unfoldable pub worse : ℕ → ℕ → ℕ
unfolding exit_rank
worse a b = if ltb (exit_rank a) (exit_rank b) then b else a

-- What fetchSurface returns an error for.
pub data SurfaceError : Type 0 where
  not_fetched : FetchError → SurfaceError
  not_admitted : Inadmissible → SurfaceError

-- `errors.Is(err, ErrInadmissible)`, of an error of Fetch.
unfoldable pub wraps_inadmissible : FetchError → Bool
wraps_inadmissible (bad_offer e) = true
wraps_inadmissible (bad_era e) = true
wraps_inadmissible (not_called method inadmissible_answer) = true
wraps_inadmissible too_many_pages = true
wraps_inadmissible page_not_parsed = true
wraps_inadmissible cursor_not_string = true
wraps_inadmissible cursor_too_long = true
wraps_inadmissible cursor_repeated = true
wraps_inadmissible (pre_commit e) = wraps_inadmissible e
wraps_inadmissible (both a b) = wraps_inadmissible a || wraps_inadmissible b
wraps_inadmissible _ = false

-- exitFor, of an error of fetchSurface, none of which is ErrLockfile.
unfoldable pub exit_for : SurfaceError → ℕ
unfolding wraps_inadmissible
exit_for (not_admitted e) = exit_inadmissible
exit_for (not_fetched e) = if wraps_inadmissible e then exit_inadmissible else exit_transport

-- outcomeFor
unfoldable pub outcome_for : ℕ → Bytes
outcome_for code =
    if code == exit_ok
    then codes "ok"
    else if code == exit_drift
    then codes "drift"
    else if code == exit_lockfile
    then codes "lockfile"
    else if code == exit_inadmissible
    then codes "inadmissible"
    else codes "transport"

-- The exit code of a session of the proxy, from the three flags of its Outcome.
unfoldable pub session_exit : Bool → Bool → Bool → ℕ
session_exit drift transport inadmissible =
    let first = if drift then exit_drift else exit_ok in
    let second = if transport then exit_transport else first in
    if inadmissible then exit_inadmissible else second
