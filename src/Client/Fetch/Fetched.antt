-- ===== src/Client/Fetch/Fetched.antt =====
-- What a fetch hands to Admit.
use surfacelock.Prelude.{
  ◌≤◌, ◌≡◌, refl, ◌⊎◌, inl, inr, Bool, true, false, Option, none, some, List, [], ◌∷◌, arith,
  if◌then◌else◌, Bool-cases, Option-cases, length, Map,
}
use surfacelock.Prelude.Bytes.{Bytes, codes, eq_bytes}
use surfacelock.Prelude.Results.{ok, >>=-eq-ok, Result-cases}
use surfacelock.External.{External}
use surfacelock.Decode.{decode_exact}
use surfacelock.Names.{check_era}
use surfacelock.Surface.Tool.{Limits}
use surfacelock.Surface.Admit.{RawSurface, flow_stateless, flow_classic}
use surfacelock.Client.Session.{
  Step, Peer, Session, initialize_method, initialized_method, with_call, with_proto, with_notice,
}
use surfacelock.Client.Pages.{fetch_pages}
use surfacelock.Client.Fetch.{
  Ref, modern_revision, surface_of, asked_session, fresh_session, greet, fetch_surface, discover,
  fetch_modern, negotiated_era, fetch_classic, fetch_once, fetch_either, fetch,
}
use surfacelock.Client.Pages.Walk.{fetch_pages_iff}

-- The revision obeys the name rules, the flow is one of the two, and the pages are within the cap.
abbrev pub IsFetched : Limits → RawSurface → Type 0
IsFetched lim raw =
    (check_era raw.era ≡ none)
    × ((raw.flow ≡ flow_stateless) ⊎ (raw.flow ≡ flow_classic))
    × (length raw.pages ≤ lim.max_pages)

module _ ⦃ext : External⦄ where
  module _ (peer : Peer) (lim : Limits) where
    fetch_surface-pages :
        (meta : Option Bytes) (s : Session) (raw out : RawSurface)
        → (fetch_surface peer lim meta s raw).0 ≡ ok out
        → (pages : List Bytes) × (out ≡ record raw { pages = pages })
          × (length pages ≤ lim.max_pages)
    unfolding fetch_surface
    fetch_surface-pages meta s raw out h =
        let got = fetch_pages peer lim meta lim.max_pages s [] [] in
        let (pages, found, made) = >>=-eq-ok got.0 (λ ps. ok (record raw { pages = ps })) h in
        let walk = (fetch_pages_iff peer lim meta s got.1 pages).0 (λ i. (found i, got.1)) in
        (pages, ground (arith, made), walk.1)

    surface-IsFetched :
        (meta : Option Bytes) (s : Session) (offered era flow : Bytes) (obj : Map Bytes)
        (out : RawSurface)
        → check_era era ≡ none
        → (flow ≡ flow_stateless) ⊎ (flow ≡ flow_classic)
        → (fetch_surface peer lim meta s (surface_of offered era flow obj)).0 ≡ ok out
        → IsFetched lim out
    surface-IsFetched meta s offered era flow obj out named known h =
        let (pages, is, short) =
          fetch_surface-pages meta s (surface_of offered era flow obj) out h in
        rw (is) (named, known, short)

    modern-IsFetched :
        (s : Session) (offered : Bytes) (out : RawSurface)
        → check_era offered ≡ none
        → (fetch_modern peer lim s offered).0 ≡ ok out
        → IsFetched lim out
    unfolding fetch_modern
    modern-IsFetched s offered out named h =
        let t = asked_session s offered in
        elim (Result-cases (discover peer lim t.sent offered)) [
          | inr (e, ed) ↦ absurd (ground (arith, h, ed))
          | inl (obj, ed) ↦
              surface-IsFetched (some offered) t offered offered flow_stateless obj out named
                (inl refl) (rw (fetch_modern, ed) at h)
        ]

    negotiated_era-named :
        (obj : Map Bytes) (era : Bytes) → negotiated_era obj ≡ ok era → check_era era ≡ none
    unfolding negotiated_era
    negotiated_era-named obj era h = ground (arith, h)

    greet-named :
        (sent : List Step) (obj : Map Bytes) (era : Bytes)
        → greet peer lim sent ≡ ok (obj, era)
        → check_era era ≡ none
    unfolding greet
    greet-named sent obj era h = elim (Result-cases (peer.answer sent)) [
      | inr (e, ea) ↦ absurd (ground (arith, h, ea))
      | inl (raw, ea) ↦
          elim (Result-cases (
            decode_exact raw
              (codes "protocolVersion" ∷ codes "serverInfo" ∷ codes "instructions" ∷ []))) [
                | inr (e, ed) ↦ absurd (ground (arith, h, ea, ed))
                | inl (got, ed) ↦ elim (Result-cases (negotiated_era got)) [
                  | inr (e, en) ↦ absurd (ground (arith, h, ea, ed, en))
                  | inl (named, en) ↦
                      ground (arith, h, ea, ed, en, negotiated_era-named got named en)
                ]
              ]
    ]

    classic-IsFetched :
        (s : Session) (offered : Bytes) (out : RawSurface)
        → (fetch_classic peer lim s offered).0 ≡ ok out
        → IsFetched lim out
    unfolding fetch_classic
    classic-IsFetched s offered out h =
        let t = with_call s initialize_method none offered [] in
        elim (Result-cases (greet peer lim t.sent)) [
          | inr (e, eg) ↦ absurd (ground (arith, h, eg))
          | inl ((obj, era), eg) ↦
              let v = with_notice (with_proto t era) initialized_method in
              elim (Bool-cases (peer.delivers v.sent)) [
                | inr ev ↦ absurd (ground (arith, rw (fetch_classic, eg, ev) at h))
                | inl ev ↦
                    surface-IsFetched none v offered era flow_classic obj out
                      (greet-named t.sent obj era eg) (inr refl) (rw (fetch_classic, eg, ev) at h)
              ]
        ]

    once-IsFetched :
        (ref : Ref) (sent : List Step) (offered : Bytes) (stateless : Bool) (out : RawSurface)
        → check_era offered ≡ none
        → (fetch_once peer lim ref sent offered stateless).0 ≡ ok out
        → IsFetched lim out
    unfolding fetch_once
    once-IsFetched ref sent offered true out named h =
        modern-IsFetched (fresh_session ref sent) offered out named (ground (arith, h))
    once-IsFetched ref sent offered false out named h =
        classic-IsFetched (fresh_session ref sent) offered out (ground (arith, h))

    either-IsFetched :
        (ref : Ref) (sent : List Step) (offered : Bytes) (out : RawSurface)
        → check_era offered ≡ none
        → (fetch_either peer lim ref sent offered).0 ≡ ok out
        → IsFetched lim out
    unfolding fetch_either
    either-IsFetched ref sent offered out named h =
        let modern = fetch_once peer lim ref sent offered true in
        let classic = fetch_once peer lim ref modern.1 offered false in
        elim (Result-cases modern.0) [
          | inl (raw, em) ↦ once-IsFetched ref sent offered true out named (ground (arith, h, em))
          | inr (e, em) ↦ elim (Result-cases classic.0) [
            | inl (raw, ec) ↦
                once-IsFetched ref modern.1 offered false out named (ground (arith, h, em, ec))
            | inr (c, ec) ↦ absurd (ground (arith, h, em, ec))
          ]
        ]

  -- What Fetch returns, whatever the server answers, is a surface that is named after a revision
  -- which obeys the name rules, that was served over one of the two flows, and that has at most
  -- MaxPages pages: what Admit asks of all three.
  pub fetch-IsFetched :
      (peer : Peer) (lim : Limits) (ref : Ref) (sent : List Step) (out : RawSurface)
      → (fetch peer lim ref sent).0 ≡ ok out
      → IsFetched lim out
  unfolding fetch
  fetch-IsFetched peer lim ref sent out h =
      let offered = if eq_bytes ref.offered [] then modern_revision else ref.offered in
      elim (Option-cases (check_era offered)) [
        | inr (e, ee) ↦ absurd (ground (arith, h, ee))
        | inl ee ↦ ground (
          arith,
          h,
          ee,
          once-IsFetched peer lim ref sent offered true out ee,
          once-IsFetched peer lim ref sent offered false out ee,
          either-IsFetched peer lim ref sent offered out ee,
        )
      ]
