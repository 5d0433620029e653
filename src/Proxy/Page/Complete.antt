-- ===== src/Proxy/Page/Complete.antt =====
-- What the claim of a clean, complete surface rests on.
use surfacelock.Prelude.{
  ◌+◌, ◌≡◌, refl, sym, subst, inl, inr, true, false, some, List, [], ◌∷◌, ◌++◌, arith, ltb,
  Bool-cases, Option-cases, Map, lookup,
}
use surfacelock.Prelude.Bytes.{Bytes, eq_bytes, eq_bytes_iff, contains}
use surfacelock.Prelude.Results.{Result-cases}
use surfacelock.External.{External}
use surfacelock.Surface.Admit.{admit}
use surfacelock.Surface.Rollup.{surface_hash}
use surfacelock.Lockfile.Entry.{ToolLock}
use surfacelock.Proxy.Verifier.{Verifier, ToolDrift}
use surfacelock.Proxy.Enumeration.{
  Enumeration, PageOutcome, page_surface, removed_drifts, refuse_page,
}
use surfacelock.Proxy.Page.{
  page_loop, page_cursor, page_drifted, page_complete, page_verdict, page_conclude, all_drifts,
  check_tools_page, verify_tools_page,
}

removed_drifts-nil :
    (names : List Bytes) (m : Map ToolLock) (n : Bytes) (pin : ToolLock)
    → removed_drifts names m ≡ []
    → lookup n m ≡ some pin
    → contains names n ≡ true
unfolding removed_drifts lookup
removed_drifts-nil names [] n pin h l = absurd (ground arith)
removed_drifts-nil names ((k, t) ∷ m) n pin h l =
    ground (arith, eq_bytes_iff k n, removed_drifts-nil names m n pin)

append-nil_right : (ds es : List ToolDrift) → ds ++ es ≡ [] → es ≡ []
append-nil_right [] es h = h
append-nil_right (d ∷ ds) es h = cc

module _ ⦃ext : External⦄ where
  -- An enumeration that covers the lock and whose rollup is the locked surface hash.
  pub record IsClean (v : Verifier) (en : Enumeration) : Type 0 where
    pub covers :
        (n : Bytes) (pin : ToolLock) → lookup n v.lock_tools ≡ some pin → contains en.names n ≡ true
    pub rolled : surface_hash en.era v.entry.h_instr en.tools ≡ some v.entry.surface_hash
    pub same_era : en.era ≡ v.entry.protocol.era
    pub unwarned : en.warned ≡ false
    pub from_start : en.orphan ≡ false

  page_complete-rolled :
      (v : Verifier) (en : Enumeration)
      → v.ever_clean ≡ false
      → (page_complete v en).verifier.ever_clean ≡ true
      → (surface_hash en.era v.entry.h_instr en.tools ≡ some v.entry.surface_hash)
        × (en.era ≡ v.entry.protocol.era)
        × (en.warned ≡ false)
        × (en.orphan ≡ false)
        × ((page_complete v en).enum ≡ record en { complete = true })
  unfolding page_complete refuse_page
  page_complete-rolled v en f h =
      elim (Option-cases (surface_hash en.era v.entry.h_instr en.tools)) [
        | inl e ↦ absurd (ground arith)
        | inr (hash, e) ↦ ground (
          arith,
          eq_bytes_iff hash v.entry.surface_hash,
          eq_bytes_iff en.era v.entry.protocol.era,
        )
      ]

  page_verdict-IsClean :
      (v : Verifier) (en : Enumeration) (ds : List ToolDrift) (next : Bytes)
      → v.ever_clean ≡ false
      → (page_verdict v en ds next).verifier.ever_clean ≡ true
      → IsClean v (page_verdict v en ds next).enum
  unfolding page_verdict page_conclude page_drifted refuse_page all_drifts
  page_verdict-IsClean v en ds next f = go (all_drifts v en ds next) refl
    where
      go :
          (all : List ToolDrift)
          → all_drifts v en ds next ≡ all
          → (page_conclude v en next all).verifier.ever_clean ≡ true
          → IsClean v (page_conclude v en next all).enum
      go (d ∷ es) e h = absurd (ground arith)
      go [] e h = elim (Bool-cases (eq_bytes next [])) [
        | inr more ↦ absurd (ground arith)
        | inl end ↦
            let (rolled, same_era, unwarned, from_start, kept) =
              page_complete-rolled v en f (ground arith) in
            let nothing_removed : removed_drifts en.names v.lock_tools ≡ [] =
              append-nil_right ds (removed_drifts en.names v.lock_tools)
                (rw (end, from_start, all_drifts) at e) in
            rw (end, kept)
              (record {
                covers = λ n pin. removed_drifts-nil en.names v.lock_tools n pin nothing_removed;
                rolled = rolled;
                same_era = same_era;
                unwarned = unwarned;
                from_start = from_start;
              })
      ]

  check_tools_page-IsClean :
      (v : Verifier) (en : Enumeration) (result : Bytes)
      → v.ever_clean ≡ false
      → (check_tools_page v en result).verifier.ever_clean ≡ true
      → IsClean v (check_tools_page v en result).enum
  unfolding check_tools_page refuse_page
  check_tools_page-IsClean v en result f h =
      elim (Bool-cases (ltb v.lim.max_pages (en.pages + 1))) [
        | inl many ↦ absurd (ground arith)
        | inr few ↦ elim (Result-cases (admit (page_surface en.era result) v.lim)) [
          | inr (e, a) ↦ absurd (ground arith)
          | inl (s, a) ↦
              elim (Result-cases (page_loop v (record en { pages = en.pages + 1 }) [] s.tools).1) [
                | inr (e, l) ↦ absurd (ground arith)
                | inl (ds, l) ↦
                    let looped = (page_loop v (record en { pages = en.pages + 1 }) [] s.tools).0 in
                    elim (Result-cases (page_cursor v looped result).1) [
                      | inr (e, c) ↦ absurd (ground arith)
                      | inl (cursor, c) ↦
                          let judged : check_tools_page v en result
                              ≡ page_verdict v (page_cursor v looped result).0 ds cursor =
                            rw (few, a, l, c, check_tools_page) in
                          subst (λ (o : PageOutcome). IsClean v o.enum) (sym judged)
                            (page_verdict-IsClean v (page_cursor v looped result).0 ds cursor f
                              (subst (λ (o : PageOutcome). o.verifier.ever_clean ≡ true) judged h))
                    ]
              ]
        ]
      ]

  -- When verifyToolsPage first marks the session clean, the enumeration that it completes began at
  -- its start and carried no warned drift, it has listed every tool of the lock, it runs under the
  -- locked era, and the rollup over what it listed is the locked surface_hash.
  pub ever_clean-IsClean :
      (v : Verifier) (en : Enumeration) (result : Bytes)
      → v.ever_clean ≡ false
      → (verify_tools_page v en result).verifier.ever_clean ≡ true
      → IsClean v (verify_tools_page v en result).enum
  unfolding verify_tools_page
  ever_clean-IsClean v en result f h =
      let fresh = record en { page_tools = [] } in
      let same : (verify_tools_page v en result).enum ≡ (check_tools_page v fresh result).enum =
        ground arith in
      rw same (check_tools_page-IsClean v fresh result f (ground arith))
