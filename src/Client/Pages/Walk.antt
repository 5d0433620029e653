-- ===== src/Client/Pages/Walk.antt =====
-- The pages that a fetch can return: a walk along the cursors of the server.
use surfacelock.Prelude.{
  ℕ, zero, suc, ◌≤◌, ◌≡◌, refl, sym, ap, ◌∙◌, subst, ◌↔◌, inl, inr, false, Option, List, [], ◌∷◌,
  arith, Bool-cases, length,
}
use surfacelock.Prelude.Bytes.{Bytes, eq_bytes, eq_bytes_iff, eq_bytes_refl, contains}
use surfacelock.Prelude.Results.{ok, ◌>>=◌, >>=-eq-ok, Result-cases}
use surfacelock.External.{External}
use surfacelock.Surface.Tool.{Limits}
use surfacelock.Client.Session.{Peer, Session, list_method, with_call}
use surfacelock.Client.Pages.{next_of, read_turn, fetch_pages}

module _ ⦃ext : External⦄ where
  -- From a session and a cursor, the server answers these pages one after the other: each but the
  -- last names a cursor that is short and was not named before, and the last names none.
  pub data Walk (peer : Peer) (lim : Limits) (meta : Option Bytes)
      : Session → Bytes → List Bytes → List Bytes → Session → Type 0 where
    last :
        {s : Session} {cursor page : Bytes} {seen : List Bytes}
        → peer.answer (with_call s list_method meta [] cursor).sent ≡ ok page
        → next_of page ≡ ok []
        → Walk peer lim meta s cursor seen (page ∷ []) (with_call s list_method meta [] cursor)
    turn :
        {s t : Session} {cursor page next : Bytes} {seen pages : List Bytes}
        → peer.answer (with_call s list_method meta [] cursor).sent ≡ ok page
        → next_of page ≡ ok next
        → eq_bytes next [] ≡ false
        → length next ≤ lim.max_cursor_bytes
        → contains seen next ≡ false
        → Walk peer lim meta (with_call s list_method meta [] cursor) next (next ∷ seen) pages t
        → Walk peer lim meta s cursor seen (page ∷ pages) t

  module _ (peer : Peer) (lim : Limits) (meta : Option Bytes) where
    read_turn-ok :
        (t : Session) (seen : List Bytes) (page next : Bytes)
        → read_turn peer lim t seen ≡ ok (page, next)
        → (peer.answer t.sent ≡ ok page)
          × (next_of page ≡ ok next)
          × ((eq_bytes next [] ≡ false)
              → (length next ≤ lim.max_cursor_bytes) × (contains seen next ≡ false))
    unfolding read_turn
    read_turn-ok t seen page next h = elim (Result-cases (peer.answer t.sent)) [
      | inr (e, ea) ↦ absurd (ground arith)
      | inl (p, ea) ↦ elim (Result-cases (next_of p)) [
        | inr (e, en) ↦ absurd (ground arith)
        | inl (n, en) ↦ ground (arith, eq_bytes_iff n [])
      ]
    ]

    read_turn-next :
        (t : Session) (seen : List Bytes) (page next : Bytes)
        → peer.answer t.sent ≡ ok page
        → next_of page ≡ ok next
        → ((eq_bytes next [] ≡ false)
            → (length next ≤ lim.max_cursor_bytes) × (contains seen next ≡ false))
        → read_turn peer lim t seen ≡ ok (page, next)
    unfolding read_turn
    read_turn-next t seen page next ea en h =
        rw (read_turn, ea, en) ground (arith, eq_bytes_iff next [])

    -- The two ways in which a turn goes on.
    fetch_pages-last :
        (room : ℕ) (s : Session) (cursor page : Bytes) (seen : List Bytes)
        → read_turn peer lim (with_call s list_method meta [] cursor) seen ≡ ok (page, [])
        → fetch_pages peer lim meta (suc room) s cursor seen
          ≡ (ok (page ∷ []), with_call s list_method meta [] cursor)
    unfolding fetch_pages eq_bytes
    fetch_pages-last room s cursor page seen h = rw (fetch_pages, h) refl

    fetch_pages-turn :
        (room : ℕ) (s : Session) (cursor page next : Bytes) (seen : List Bytes)
        → read_turn peer lim (with_call s list_method meta [] cursor) seen ≡ ok (page, next)
        → eq_bytes next [] ≡ false
        → let rest =
            fetch_pages peer lim meta room
              (with_call s list_method meta [] cursor)
              next
              (next ∷ seen) in
          fetch_pages peer lim meta (suc room) s cursor seen
          ≡ ((rest.0 >>= λ pages. ok (page ∷ pages)), rest.1)
    unfolding fetch_pages
    fetch_pages-turn room s cursor page next seen h e = rw (fetch_pages, h, e) refl

    fetch_pages-Walk :
        (room : ℕ) (s t : Session) (cursor : Bytes) (seen pages : List Bytes)
        → fetch_pages peer lim meta room s cursor seen ≡ (ok pages, t)
        → Walk peer lim meta s cursor seen pages t × (length pages ≤ room)
    unfolding fetch_pages
    fetch_pages-Walk zero s t cursor seen pages h = absurd (ground (arith, ap (λ r. r.0) h))
    fetch_pages-Walk (suc room) s t cursor seen pages h =
        let u = with_call s list_method meta [] cursor in
        elim (Result-cases (read_turn peer lim u seen)) [
          | inr (e, er) ↦ absurd (ground arith)
          | inl ((page, next), er) ↦
              let (answered, named, allowed) = read_turn-ok u seen page next er in
              elim (Bool-cases (eq_bytes next [])) [
                | inl en ↦
                    let none_left : next ≡ [] = (eq_bytes_iff next []).0 en in
                    let ended =
                      subst (λ n. read_turn peer lim u seen ≡ ok (page, n)) none_left er in
                    let both = sym h ∙ fetch_pages-last room s cursor page seen ended in
                    let pages_are : pages ≡ page ∷ [] = ground (arith, ap (λ r. r.0) both) in
                    let t_is : t ≡ u = ap (λ r. r.1) both in
                    rw (pages_are, t_is)
                      (
                        Walk.last answered (subst (λ n. next_of page ≡ ok n) none_left named),
                        omega arith,
                      )
                | inr en ↦
                    let both = sym h ∙ fetch_pages-turn room s cursor page next seen er en in
                    let rest = fetch_pages peer lim meta room u next (next ∷ seen) in
                    let (later, found, made) =
                      >>=-eq-ok rest.0 (λ ps. ok (page ∷ ps)) (sym (ap (λ r. r.0) both)) in
                    let t_is : rest.1 ≡ t = sym (ap (λ r. r.1) both) in
                    let made_of : pages ≡ page ∷ later = ground (arith, made) in
                    let ih =
                      fetch_pages-Walk room u t next (next ∷ seen) later (λ i. (found i, t_is i)) in
                    rw (made_of) (
                      Walk.turn answered named en (allowed en).0 (allowed en).1 ih.0,
                      omega (arith, ih.1),
                    )
              ]
        ]

    -- A walk is what fetchPages returns, as long as there is room for its pages.
    Walk-fetch_pages :
        (room : ℕ) {s t : Session} {cursor : Bytes} {seen pages : List Bytes}
        → Walk peer lim meta s cursor seen pages t
        → length pages ≤ room
        → fetch_pages peer lim meta room s cursor seen ≡ (ok pages, t)
    Walk-fetch_pages zero (Walk.last a n) h = absurd (omega (arith, h))
    Walk-fetch_pages zero (Walk.turn a n e l c w) h = absurd (omega (arith, h))
    Walk-fetch_pages (suc room) (Walk.last {s} {cursor} {page} {seen} a n) h =
        fetch_pages-last room s cursor page seen (
          read_turn-next (with_call s list_method meta [] cursor) seen page [] a n
            (λ e. absurd (ground (arith, eq_bytes_refl [], e))))
    Walk-fetch_pages (suc room)
          (Walk.turn {s} {t} {cursor} {page} {next} {seen} {pages} a n e l c w) h =
        let rest = Walk-fetch_pages room w (omega (arith, h)) in
        fetch_pages-turn room s cursor page next seen
          (read_turn-next (with_call s list_method meta [] cursor) seen page next a n (λ _. (l, c)))
          e
        ∙ rw (rest) refl

  -- fetchPages, from its start, returns pages exactly when the server's answers walk along them,
  -- each page but the last with a cursor that is short and new, the last with none, and they are
  -- at most MaxPages. So it ends against every server, and no other answers make a surface.
  pub fetch_pages_iff :
      (peer : Peer) (lim : Limits) (meta : Option Bytes) (s t : Session) (pages : List Bytes)
      → (fetch_pages peer lim meta lim.max_pages s [] [] ≡ (ok pages, t))
        ↔ (Walk peer lim meta s [] [] pages t × (length pages ≤ lim.max_pages))
  fetch_pages_iff peer lim meta s t pages = (
    fetch_pages-Walk peer lim meta lim.max_pages s t [] [] pages,
    λ w. Walk-fetch_pages peer lim meta lim.max_pages w.0 w.1,
  )
