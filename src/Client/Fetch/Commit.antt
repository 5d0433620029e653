-- ===== src/Client/Fetch/Commit.antt =====
-- The commit point: what a confirmed server/discover decides.
use surfacelock.Prelude.{
  ℕ, zero, suc, ◌≡◌, refl, sym, inl, inr, Bool, true, false, not, ◌&&◌, Option, some, List, [], ◌∷◌,
  arith, ltb, Bool-cases, Option-cases, length, Map,
}
use surfacelock.Prelude.Bytes.{Bytes, codes, eq_bytes}
use surfacelock.Prelude.Results.{Result, ok, err, ◌>>=◌, Result-cases}
use surfacelock.External.{External}
use surfacelock.Names.{check_era}
use surfacelock.Headers.{validate_headers}
use surfacelock.Surface.Tool.{Limits}
use surfacelock.Surface.Admit.{RawSurface, flow_stateless}
use surfacelock.Client.Session.{Step, Peer, Session, list_method, with_call}
use surfacelock.Client.Pages.{FetchError, fetch_pages, next_of, read_turn}
use surfacelock.Client.Fetch.{
  Ref, modern_revision, surface_of, asked_session, fresh_session, fetch_surface, discover,
  is_pre_commit, fetch_modern, fetch_once, fetch_either, fetch,
}

-- An error that leaves no second attempt, or no error.
abbrev is_terminal {ℓ} : {A : Type ℓ} → Result FetchError A → Bool
is_terminal (ok a) = true
is_terminal (err e) = not (is_pre_commit e)

is_terminal->>= {ℓ κ} :
    {A : Type ℓ} {B : Type κ} (r : Result FetchError A) (f : A → B)
    → is_terminal r ≡ true
    → is_terminal (r >>= λ a. ok (f a)) ≡ true
is_terminal->>= (ok a) f h = refl
is_terminal->>= (err e) f h = h

module _ ⦃ext : External⦄ where
  next_of-terminal : (page : Bytes) → is_terminal (next_of page) ≡ true
  unfolding next_of
  next_of-terminal page = ground arith

  module _ (peer : Peer) (lim : Limits) where
    read_turn-terminal :
        (t : Session) (seen : List Bytes) → is_terminal (read_turn peer lim t seen) ≡ true
    unfolding read_turn
    read_turn-terminal t seen = elim (Result-cases (peer.answer t.sent)) [
      | inr (e, ea) ↦ ground arith
      | inl (p, ea) ↦ ground (arith, next_of-terminal p)
    ]

    fetch_pages-terminal :
        (meta : Option Bytes) (room : ℕ) (s : Session) (cursor : Bytes) (seen : List Bytes)
        → is_terminal (fetch_pages peer lim meta room s cursor seen).0 ≡ true
    unfolding fetch_pages
    fetch_pages-terminal meta zero s cursor seen = refl
    fetch_pages-terminal meta (suc room) s cursor seen =
        let u = with_call s list_method meta [] cursor in
        let first = read_turn-terminal u seen in
        elim (Result-cases (read_turn peer lim u seen)) [
          | inr (e, er) ↦ rw (fetch_pages, er) ground (arith, first, er)
          | inl ((page, next), er) ↦
              let rest = fetch_pages peer lim meta room u next (next ∷ seen) in
              let later =
                is_terminal->>= rest.0 (λ ps. page ∷ ps)
                  (fetch_pages-terminal meta room u next (next ∷ seen)) in
              elim (Bool-cases (eq_bytes next [])) [
                | inl en ↦ rw (fetch_pages, er, en) refl
                | inr en ↦ rw (fetch_pages, er, en) later
              ]
        ]

    fetch_surface-terminal :
        (meta : Option Bytes) (s : Session) (raw : RawSurface)
        → is_terminal (fetch_surface peer lim meta s raw).0 ≡ true
    unfolding fetch_surface
    fetch_surface-terminal meta s raw =
        is_terminal->>= (fetch_pages peer lim meta lim.max_pages s [] []).0
          (λ ps. record raw { pages = ps }) (fetch_pages-terminal meta lim.max_pages s [] [])

    fetch_modern-terminal :
        (s : Session) (offered : Bytes) (obj : Map Bytes)
        → discover peer lim (asked_session s offered).sent offered ≡ ok obj
        → is_terminal (fetch_modern peer lim s offered).0 ≡ true
    unfolding fetch_modern
    fetch_modern-terminal s offered obj h =
        rw (fetch_modern, h)
          (fetch_surface-terminal (some offered) (asked_session s offered)
            (surface_of offered offered flow_stateless obj))

    fetch_once-terminal :
        (ref : Ref) (sent : List Step) (offered : Bytes) (obj : Map Bytes)
        → discover peer lim (asked_session (fresh_session ref sent) offered).sent offered ≡ ok obj
        → is_terminal (fetch_once peer lim ref sent offered true).0 ≡ true
    unfolding fetch_once
    fetch_once-terminal ref sent offered obj h =
        ground (arith, fetch_modern-terminal (fresh_session ref sent) offered obj h)

    fetch_either-terminal :
        (ref : Ref) (sent : List Step) (offered : Bytes)
        → is_terminal (fetch_once peer lim ref sent offered true).0 ≡ true
        → fetch_either peer lim ref sent offered ≡ fetch_once peer lim ref sent offered true
    unfolding fetch_either fetch_once
    fetch_either-terminal ref sent offered h =
        elim (Result-cases (fetch_once peer lim ref sent offered true).0) [
          | inl (raw, e) ↦ rw (fetch_either, e) refl
          | inr (problem, e) ↦
              let stays : is_pre_commit problem ≡ false = ground (arith, h, e) in
              rw (fetch_either, e, stays) refl
        ]

    -- One attempt does not read the pinned flow.
    fetch_once-flow :
        (ref : Ref) (flow : Bytes) (sent : List Step) (offered : Bytes) (stateless : Bool)
        → fetch_once peer lim (record ref { flow = flow }) sent offered stateless
          ≡ fetch_once peer lim ref sent offered stateless
    unfolding fetch_once
    fetch_once-flow ref flow sent offered stateless = refl

    -- Once a server/discover has confirmed the offered revision, the choice of the flow is made: a
    -- fetch that may fall back to the handshake sends and returns what a fetch pinned to the
    -- stateless flow does, whatever the server answers from there on.
    pub fetch-committed :
        (ref : Ref) (sent : List Step) (obj : Map Bytes)
        → discover peer lim
            (asked_session (fresh_session ref sent) modern_revision).sent
            modern_revision
          ≡ ok obj
        → fetch peer lim (record ref { offered = modern_revision; flow = [] }) sent
          ≡ fetch peer lim (record ref { offered = modern_revision; flow = flow_stateless }) sent
    unfolding fetch eq_bytes
    fetch-committed ref sent obj h =
        let free = record ref { offered = modern_revision; flow = [] } in
        let pinned = record ref { offered = modern_revision; flow = flow_stateless } in
        let once =
          fetch_either-terminal free sent modern_revision
            (fetch_once-terminal free sent modern_revision obj h) in
        let same = fetch_once-flow free flow_stateless sent modern_revision true in
        elim (Option-cases (check_era modern_revision)) [
          | inr (e, ee) ↦ rw (fetch, ee) refl
          | inl ee ↦ elim (Option-cases (validate_headers ref.headers)) [
            | inr (e, eh) ↦ rw (fetch, ee, eh) refl
            | inl eh ↦
                elim (Bool-cases
                  (ltb 0 (length ref.headers) && not (eq_bytes ref.transport (codes "http")))) [
                    | inl et ↦ rw (fetch, ee, eh, et) refl
                    | inr et ↦ rw (fetch, ee, eh, et, once) (sym same)
                  ]
          ]
        ]
