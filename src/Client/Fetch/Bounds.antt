-- ===== src/Client/Fetch/Bounds.antt =====
-- How much a fetch sends, and what it hands to Admit.
use surfacelock.Prelude.{
  ℕ, zero, suc, ◌+◌, ◌*◌, ◌≤◌, inl, inr, Bool, true, false, Option, none, some, List, [], ◌∷◌,
  arith, if◌then◌else◌, Bool-cases, length,
}
use surfacelock.Prelude.Bytes.{Bytes, eq_bytes}
use surfacelock.Prelude.Results.{Result-cases}
use surfacelock.External.{External}
use surfacelock.Surface.Tool.{Limits}
use surfacelock.Surface.Admit.{RawSurface, flow_stateless, flow_classic}
use surfacelock.Client.Session.{
  Step, Peer, Session, discover_method, initialize_method, initialized_method, list_method,
  with_call, with_proto, with_stateless, with_notice,
}
use surfacelock.Client.Pages.{fetch_pages, read_turn}
use surfacelock.Client.Fetch.{
  Ref, modern_revision, surface_of, fresh_session, greet, fetch_surface, discover, fetch_modern,
  fetch_classic, fetch_once, fetch_either, fetch,
}

module _ ⦃ext : External⦄ where
  module _ (peer : Peer) (lim : Limits) where
    fetch_pages-sent :
        (meta : Option Bytes) (room : ℕ) (s : Session) (cursor : Bytes) (seen : List Bytes)
        → length (fetch_pages peer lim meta room s cursor seen).1.sent ≤ length s.sent + room
    unfolding fetch_pages
    fetch_pages-sent meta zero s cursor seen = omega arith
    fetch_pages-sent meta (suc room) s cursor seen =
        let u = with_call s list_method meta [] cursor in
        elim (Result-cases (read_turn peer lim u seen)) [
          | inr (e, er) ↦ rw (fetch_pages, er) omega arith
          | inl ((page, next), er) ↦ elim (Bool-cases (eq_bytes next [])) [
            | inl en ↦ rw (fetch_pages, er, en) omega arith
            | inr en ↦
                let rest = fetch_pages-sent meta room u next (next ∷ seen) in
                rw (fetch_pages, er, en) omega (arith, rest)
          ]
        ]

    fetch_surface-sent :
        (meta : Option Bytes) (s : Session) (raw : RawSurface)
        → length (fetch_surface peer lim meta s raw).1.sent ≤ length s.sent + lim.max_pages
    unfolding fetch_surface
    fetch_surface-sent meta s raw = fetch_pages-sent meta lim.max_pages s [] []

    fetch_modern-sent :
        (s : Session) (offered : Bytes)
        → length (fetch_modern peer lim s offered).1.sent ≤ length s.sent + (lim.max_pages + 1)
    unfolding fetch_modern
    fetch_modern-sent s offered =
        let t = with_call (with_stateless s offered) discover_method (some offered) [] [] in
        elim (Result-cases (discover peer lim t.sent offered)) [
          | inr (e, ed) ↦ rw (fetch_modern, ed) omega arith
          | inl (obj, ed) ↦
              let raw = surface_of offered offered flow_stateless obj in
              rw (fetch_modern, ed) omega (arith, fetch_surface-sent (some offered) t raw)
        ]

    fetch_classic-sent :
        (s : Session) (offered : Bytes)
        → length (fetch_classic peer lim s offered).1.sent ≤ length s.sent + (lim.max_pages + 2)
    unfolding fetch_classic
    fetch_classic-sent s offered =
        let t = with_call s initialize_method none offered [] in
        elim (Result-cases (greet peer lim t.sent)) [
          | inr (e, eg) ↦ rw (fetch_classic, eg) omega arith
          | inl ((obj, era), eg) ↦
              let v = with_notice (with_proto t era) initialized_method in
              elim (Bool-cases (peer.delivers v.sent)) [
                | inl ev ↦
                    rw (fetch_classic, eg, ev) omega
                      (arith, fetch_surface-sent none v (surface_of offered era flow_classic obj))
                | inr ev ↦ rw (fetch_classic, eg, ev) omega arith
              ]
        ]

    fetch_once-sent :
        (ref : Ref) (sent : List Step) (offered : Bytes) (stateless : Bool)
        → length (fetch_once peer lim ref sent offered stateless).1
          ≤ length sent + (lim.max_pages + 4)
    unfolding fetch_once
    fetch_once-sent ref sent offered stateless =
        let s = fresh_session ref sent in
        ground (arith, fetch_modern-sent s offered, fetch_classic-sent s offered)

    fetch_either-sent :
        (ref : Ref) (sent : List Step) (offered : Bytes)
        → length (fetch_either peer lim ref sent offered).1 ≤ length sent + 2 * (lim.max_pages + 4)
    unfolding fetch_either
    fetch_either-sent ref sent offered =
        let modern = fetch_once peer lim ref sent offered true in
        ground
          (arith, fetch_once-sent ref sent offered true, fetch_once-sent ref modern.1 offered false)

    -- Whatever a server answers, a fetch ends after at most two sessions of MaxPages + 4 steps
    -- each: opening, two for the handshake, one for each page, and closing.
    pub fetch-sent :
        (ref : Ref) (sent : List Step)
        → length (fetch peer lim ref sent).1 ≤ length sent + 2 * (lim.max_pages + 4)
    unfolding fetch
    fetch-sent ref sent =
        let offered = if eq_bytes ref.offered [] then modern_revision else ref.offered in
        ground (
          arith,
          fetch_once-sent ref sent offered true,
          fetch_once-sent ref sent offered false,
          fetch_either-sent ref sent offered,
        )
