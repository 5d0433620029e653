-- ===== src/Client/Pages.antt =====
-- client/fetch.go: `fetchPages`, the pagination of tools/list.
pub mod Walk
use surfacelock.Prelude.{
  ℕ, zero, suc, Option, none, some, List, [], ◌∷◌, ltb, if◌then◌else◌, length,
}
use surfacelock.Prelude.Bytes.{Bytes, codes, eq_bytes, contains}
use surfacelock.Prelude.Results.{Result, ok, err, ◌>>=◌, ◌>>◌}
use mathlib.Core.Option
use surfacelock.External.{External}
use surfacelock.Decode.{DecodeError, equal_fold}
use surfacelock.Names.{NameError}
use surfacelock.Headers.{HeaderError}
use surfacelock.Go.Json.Value.{Value}
use surfacelock.Go.Json.Unmarshal.{unmarshal_string}
use surfacelock.Go.Json.Struct.{check_list, unmarshal_struct}
use surfacelock.Surface.Tool.{Limits}
use surfacelock.Client.Session.{Peer, Session, CallError, list_method, with_call}

-- What Fetch returns an error for; `pre_commit` is errPreCommit, and `both` joins the errors of
-- both attempts.
pub data FetchError : Type 0 where
  bad_offer : NameError → FetchError
  bad_headers : HeaderError → FetchError
  headers_not_http unknown_flow unknown_transport not_opened not_confirmed not_strings no_era
        not_notified :
      FetchError
  not_called : Bytes → CallError → FetchError
  not_decoded : Bytes → DecodeError → FetchError
  bad_era : NameError → FetchError
  too_many_pages page_not_parsed cursor_not_string cursor_too_long cursor_repeated : FetchError
  pre_commit : FetchError → FetchError
  both : FetchError → FetchError → FetchError

-- toolsListPage, without the tools, which nothing here reads; `none` is a nil RawMessage.
pub record PageFields : Type 0 where
  pub next_cursor : Option Bytes

module _ ⦃ext : External⦄ where
  unfoldable pub assign_page : PageFields → Bytes → Bytes → Value → Option PageFields
  assign_page p k raw v =
      if equal_fold k (codes "tools")
      then (if check_list v then some p else none)
      else if equal_fold k (codes "nextCursor")
      then some (record { next_cursor = some raw })
      else some p

  -- What a page asks for next: "" is the end of the list.
  unfoldable pub next_of : Bytes → Result FetchError Bytes
  unfolding assign_page
  next_of page = elim (unmarshal_struct assign_page (record { next_cursor = none }) page) [
    | none ↦ err page_not_parsed
    | some p ↦ elim p.next_cursor [
      | none ↦ ok []
      | some raw ↦ elim (unmarshal_string raw) [
        | none ↦ err cursor_not_string
        | some next ↦ ok next
      ]
    ]
  ]

  module _ (peer : Peer) (lim : Limits) where
    -- What is done with the answer to one request: the page and the cursor of the next one.
    unfoldable pub read_turn : Session → List Bytes → Result FetchError (Bytes × Bytes)
    read_turn t seen = elim (peer.answer t.sent) [
      | err e ↦ err (not_called list_method e)
      | ok page ↦ elim (next_of page) [
        | err e ↦ err e
        | ok next ↦
            if eq_bytes next []
            then ok (page, [])
            else if ltb lim.max_cursor_bytes (length next)
            then err cursor_too_long
            else if contains seen next
            then err cursor_repeated
            else ok (page, next)
      ]
    ]

    -- fetchPages: the pages and what was sent. The number is lim.MaxPages - len(raw.Pages).
    unfoldable pub fetch_pages :
        Option Bytes → ℕ → Session → Bytes → List Bytes → Result FetchError (List Bytes) × Session
    fetch_pages meta zero s cursor seen = (err too_many_pages, s)
    fetch_pages meta (suc room) s cursor seen =
        let t = with_call s list_method meta [] cursor in
        elim (read_turn t seen) [
          | err e ↦ (err e, t)
          | ok (page, next) ↦
              let rest = fetch_pages meta room t next (next ∷ seen) in
              if eq_bytes next []
              then (ok (page ∷ []), t)
              else (rest.0 >>= (λ pages. ok (page ∷ pages)), rest.1)
        ]
