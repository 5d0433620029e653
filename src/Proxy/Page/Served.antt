-- ===== src/Proxy/Page/Served.antt =====
-- Which tools can stand on a page that the verifier lets through.
use surfacelock.Prelude.{
  ◌+◌, ◌≡◌, refl, sym, ap, ◌∙◌, ◌⊎◌, inl, inr, true, false, not, ◌&&◌, List, [], ◌∷◌, ◌++◌, arith,
  ltb, Bool-cases, All,
}
use surfacelock.Prelude.Bytes.{Bytes, eq_bytes}
use surfacelock.Prelude.Results.{ok, Result-cases}
use surfacelock.External.{External}
use surfacelock.Surface.Admit.{Surface, admit}
use surfacelock.Proxy.Verifier.{inadmissible_verdict, Verifier, ToolDrift}
use surfacelock.Proxy.Verifier.Policy.{resolve_drift-forwards}
use surfacelock.Proxy.Enumeration.{
  Enumeration, PageOutcome, page_surface, refuse_page, removed_drifts,
}
use surfacelock.Proxy.Page.{
  page_loop, page_cursor, page_drifted, page_complete, page_verdict, page_conclude, all_drifts,
  check_tools_page, verify_tools_page,
}
use surfacelock.Proxy.Page.Acceptable.{Tolerated, Tolerated-left, Acceptable}
use surfacelock.Proxy.Page.Listing.{names, page_loop-LoopServes}

module _ ⦃ext : External⦄ where
  page_drifted-Tolerated :
      (v : Verifier) (en : Enumeration) (ds : List ToolDrift) (next : Bytes)
      → (page_drifted v en ds next).verdict.refuse ≡ false
      → Tolerated v ds
  unfolding page_drifted refuse_page
  page_drifted-Tolerated v en ds next h =
      let (w, _, s) = (resolve_drift-forwards v ds false).0 (ground arith) in (s, inr w)

  page_conclude-Tolerated :
      (v : Verifier) (en : Enumeration) (next : Bytes) (ds : List ToolDrift)
      → (page_conclude v en next ds).verdict.refuse ≡ false
      → Tolerated v ds
  unfolding page_conclude
  page_conclude-Tolerated v en next [] h = (tt, inl refl)
  page_conclude-Tolerated v en next (d ∷ ds) h = page_drifted-Tolerated v en (d ∷ ds) next h

  page_verdict-Tolerated :
      (v : Verifier) (en : Enumeration) (ds : List ToolDrift) (next : Bytes)
      → (page_verdict v en ds next).verdict.refuse ≡ false
      → Tolerated v ds
  unfolding page_verdict all_drifts
  page_verdict-Tolerated v en ds next h =
      let all = page_conclude-Tolerated v en next (all_drifts v en ds next) h in
      elim (Bool-cases (eq_bytes next [] && not en.orphan)) [
        | inl c ↦
            Tolerated-left v ds (removed_drifts en.names v.lock_tools) (rw (c, all_drifts) at all)
        | inr c ↦ rw (c, all_drifts) at all
      ]

  -- What stays as it is from the loop to the outcome.
  page_verdict-page_tools :
      (v : Verifier) (en : Enumeration) (ds : List ToolDrift) (next : Bytes)
      → (page_verdict v en ds next).enum.page_tools ≡ en.page_tools
  unfolding page_verdict page_conclude page_drifted page_complete refuse_page
  page_verdict-page_tools v en ds next =
      elim (all_drifts v en ds next)
        as (λ all. (page_conclude v en next all).enum.page_tools ≡ en.page_tools) [
          | [] ↦ ground arith
          | d ∷ es ↦ ground arith
        ]

  page_cursor-page_tools :
      (v : Verifier) (en : Enumeration) (result : Bytes)
      → (page_cursor v en result).0.page_tools ≡ en.page_tools
  unfolding page_cursor
  page_cursor-page_tools v en result = ground arith

  -- A page that is let through was admitted, each of its tools is acceptable, and its names are
  -- those that become callable.
  pub record Serves (v : Verifier) (en : Enumeration) (result : Bytes) (out : PageOutcome)
      : Type 0 where
    pub surface : Surface
    pub admitted : admit (page_surface en.era result) v.lim ≡ ok surface
    pub acceptable : All (Acceptable v) surface.tools
    pub noted : out.enum.page_tools ≡ en.page_tools ++ names surface.tools

  abbrev counted : Enumeration → Enumeration
  counted en = record en { pages = en.pages + 1 }

  -- The steps of a page that gets as far as the drift policy.
  record IsJudged (v : Verifier) (en : Enumeration) (result : Bytes) : Type 0 where
    surface : Surface
    admitted : admit (page_surface en.era result) v.lim ≡ ok surface
    drifts : List ToolDrift
    looped : (page_loop v (counted en) [] surface.tools).1 ≡ ok drifts
    cursor : Bytes
    judged :
        check_tools_page v en result
        ≡ page_verdict v
            (page_cursor v (page_loop v (counted en) [] surface.tools).0 result).0
            drifts
            cursor

  check_tools_page-IsJudged :
      (v : Verifier) (en : Enumeration) (result : Bytes)
      → (check_tools_page v en result).verdict.refuse ≡ false
      → IsJudged v en result
  unfolding check_tools_page refuse_page inadmissible_verdict
  check_tools_page-IsJudged v en result h = elim (Bool-cases (ltb v.lim.max_pages (en.pages + 1))) [
    | inl many ↦ absurd (ground arith)
    | inr few ↦ elim (Result-cases (admit (page_surface en.era result) v.lim)) [
      | inr (e, refused) ↦ absurd (ground arith)
      | inl (s, a) ↦ elim (Result-cases (page_loop v (counted en) [] s.tools).1) [
        | inr (e, l) ↦ absurd (ground arith)
        | inl (ds, l) ↦
            elim (Result-cases (page_cursor v (page_loop v (counted en) [] s.tools).0 result).1) [
              | inr (e, c) ↦ absurd (ground arith)
              | inl (cursor, c) ↦ record {
                surface = s;
                admitted = a;
                drifts = ds;
                looped = l;
                cursor = cursor;
                judged = rw (few, a, l, c, check_tools_page);
              }
            ]
      ]
    ]
  ]

  check_tools_page-Serves :
      (v : Verifier) (en : Enumeration) (result : Bytes)
      → (check_tools_page v en result).verdict.refuse ≡ false
      → Serves v en result (check_tools_page v en result)
  check_tools_page-Serves v en result h =
      let j = check_tools_page-IsJudged v en result h in
      let after = (page_cursor v (page_loop v (counted en) [] j.surface.tools).0 result).0 in
      let refused = ap (λ (o : PageOutcome). o.verdict.refuse) (sym j.judged) ∙ h in
      let tolerated = page_verdict-Tolerated v after j.drifts j.cursor refused in
      let loop =
        page_loop-LoopServes v (counted en) [] j.surface.tools j.drifts j.looped tolerated in
      record {
        surface = j.surface;
        admitted = j.admitted;
        acceptable = loop.acceptable;
        noted =
            ap (λ (o : PageOutcome). o.enum.page_tools) j.judged
            ∙ page_verdict-page_tools v after j.drifts j.cursor
            ∙ page_cursor-page_tools v (page_loop v (counted en) [] j.surface.tools).0 result
            ∙ loop.noted;
      }

  -- The verifier behind a page differs in `ever_clean` at most.
  abbrev pub Keeps : Verifier → Verifier → Type 0
  Keeps v v' = (v' ≡ v) ⊎ (v' ≡ record v { ever_clean = true })

  page_complete-Keeps : (v : Verifier) (en : Enumeration) → Keeps v (page_complete v en).verifier
  unfolding page_complete refuse_page
  page_complete-Keeps v en = ground arith

  page_verdict-Keeps :
      (v : Verifier) (en : Enumeration) (ds : List ToolDrift) (next : Bytes)
      → Keeps v (page_verdict v en ds next).verifier
  unfolding page_verdict page_conclude page_drifted refuse_page
  page_verdict-Keeps v en ds next =
      elim (all_drifts v en ds next) as (λ all. Keeps v (page_conclude v en next all).verifier) [
        | [] ↦ ground (arith, page_complete-Keeps v en)
        | d ∷ es ↦ inl (ground arith)
      ]

  pub check_tools_page-Keeps :
      (v : Verifier) (en : Enumeration) (result : Bytes)
      → Keeps v (check_tools_page v en result).verifier
  unfolding check_tools_page refuse_page
  check_tools_page-Keeps v en result = elim (Bool-cases (ltb v.lim.max_pages (en.pages + 1))) [
    | inl many ↦ inl (rw many)
    | inr few ↦ elim (Result-cases (admit (page_surface en.era result) v.lim)) [
      | inr (e, a) ↦ inl (rw (few, a))
      | inl (s, a) ↦ elim (Result-cases (page_loop v (counted en) [] s.tools).1) [
        | inr (e, l) ↦ inl (rw (few, a, l, check_tools_page))
        | inl (ds, l) ↦
            elim (Result-cases (page_cursor v (page_loop v (counted en) [] s.tools).0 result).1) [
              | inr (e, c) ↦ inl (rw (few, a, l, c, check_tools_page))
              | inl (cursor, c) ↦
                  rw (few, a, l, c, check_tools_page)
                    (page_verdict-Keeps v
                      (page_cursor v (page_loop v (counted en) [] s.tools).0 result).0 ds cursor)
            ]
      ]
    ]
  ]

  -- If verifyToolsPage lets a page through, the page was admitted, the lock pins every tool on it,
  -- each served tool has the pinned h_tool or is, under --warn, a silent change of the pinned one,
  -- and exactly the tools of the page join the callable ones.
  pub verify_tools_page-serves :
      (v : Verifier) (en : Enumeration) (result : Bytes)
      → (verify_tools_page v en result).verdict.refuse ≡ false
      → (s : Surface) × (admit (page_surface en.era result) v.lim ≡ ok s)
        × All (Acceptable v) s.tools
        × ((verify_tools_page v en result).verifier.callable ≡ names s.tools ++ v.callable)
  unfolding verify_tools_page
  verify_tools_page-serves v en result h =
      let fresh = record en { page_tools = [] } in
      let passed : (check_tools_page v fresh result).verdict.refuse ≡ false = ground arith in
      let s = check_tools_page-Serves v fresh result passed in
      (
        s.surface,
        s.admitted,
        s.acceptable,
        ground (arith, s.noted, check_tools_page-Keeps v fresh result),
      )
