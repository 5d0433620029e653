-- ===== src/Surface/Admit/Bounds.antt =====
-- What holds of every admitted surface.
use surfacelock.Prelude.{
  ◌+◌, ◌≤◌, ◌≡◌, refl, sym, ◌∙◌, subst, inl, inr, false, ◌||◌, none, List, [], ◌∷◌, ◌++◌, map,
  arith, Option, Option-cases, length, length-append, All-append,
}
use surfacelock.Prelude.Bytes.{Bytes, eq_bytes, contains}
use surfacelock.Prelude.Results.{ok, >>=-eq-ok, Result-cases}
use surfacelock.External.{External}
use surfacelock.Go.Json.Unmarshal.{unmarshal_map}
use surfacelock.Names.{check_era}
use surfacelock.Surface.Tool.{Tool, Limits, admit_tool}
use surfacelock.Surface.Admit.{
  RawSurface, Surface, Progress, admit_one, admit_all, admit_page, admit_pages, admit, page_tools,
  sort_tools, admit_instructions,
}
use mathlib.Core.List.{Permᴰ}
use surfacelock.Surface.Admit.Offered.{
  Offered, Made, Instructions, sort_tools-Perm, admit_pages-Made, admit_instructions-Instructions,
}
use surfacelock.Surface.Admit.Sorting.{
  IsSorted, IsDistinct, canon_bytes, sort_tools-IsSorted, length-sort_tools, canon_bytes-sort_tools,
}

abbrev names : List Tool → List Bytes
names = map (λ (t : Tool). t.name)

IsDistinct-snoc :
    (ts : List Tool) (t : Tool)
    → IsDistinct ts
    → contains (names ts) t.name ≡ false
    → IsDistinct (ts ++ t ∷ [])
unfolding contains
IsDistinct-snoc [] t d h = (tt, tt)
IsDistinct-snoc (u ∷ us) t d h = (
  All-append (λ (w : Tool). eq_bytes u.name w.name ≡ false) us (t ∷ []) d.0 (ground arith, tt),
  IsDistinct-snoc us t d.1 (ground arith),
)

contains-snoc :
    (ts : List Tool) (t : Tool) (n : Bytes)
    → contains (names (ts ++ t ∷ [])) n ≡ (contains (names ts) n || eq_bytes t.name n)
unfolding contains
contains-snoc [] t n = ground arith
contains-snoc (u ∷ us) t n = ground (arith, contains-snoc us t n)

canon_bytes-snoc :
    (ts : List Tool) (t : Tool) → canon_bytes (ts ++ t ∷ []) ≡ canon_bytes ts + length t.canon
canon_bytes-snoc [] t = omega arith
canon_bytes-snoc (u ∷ us) t = omega (arith, canon_bytes-snoc us t)

module _ ⦃ext : External⦄ where
  -- The loops' invariant.
  record Inv (lim : Limits) (p : Progress) : Type 0 where
    distinct : IsDistinct p.tools
    seen : (n : Bytes) → contains p.seen n ≡ contains (names p.tools) n
    counted : length p.tools ≤ lim.max_tools
    summed : p.total ≡ canon_bytes p.tools
    bounded : p.total ≤ lim.max_surface_bytes

  admit_one-Inv :
      (lim : Limits) (p q : Progress) (raw : Bytes)
      → Inv lim p
      → admit_one lim p raw ≡ ok q
      → Inv lim q
  unfolding admit_one contains
  admit_one-Inv lim p q raw v h = elim (Result-cases (admit_tool raw lim)) [
    | inr (e, a) ↦ absurd (ground arith)
    | inl (t, a) ↦
        let new : contains p.seen t.name ≡ false = ground arith in
        let made : q ≡ record {
          tools = p.tools ++ t ∷ [];
          seen = t.name ∷ p.seen;
          total = p.total + length t.canon;
        } =
          ground arith in
        rw made (record {
          distinct = IsDistinct-snoc p.tools t v.distinct (sym (v.seen t.name) ∙ new);
          seen = λ n. ground (arith, v.seen n, contains-snoc p.tools t n);
          counted = ground (arith, length-append p.tools (t ∷ []));
          summed = ground (arith, canon_bytes-snoc p.tools t);
          bounded = ground arith;
        })
  ]

  admit_all-Inv :
      (lim : Limits) (p q : Progress) (raws : List Bytes)
      → Inv lim p
      → admit_all lim p raws ≡ ok q
      → Inv lim q
  unfolding admit_all
  admit_all-Inv lim p q [] v h = subst (Inv lim) (ground arith) v
  admit_all-Inv lim p q (raw ∷ raws) v h =
      let (r, one, rest) = >>=-eq-ok (admit_one lim p raw) (λ s. admit_all lim s raws) h in
      admit_all-Inv lim r q raws (admit_one-Inv lim p r raw v one) rest

  admit_page-Inv :
      (lim : Limits) (p q : Progress) (page : Bytes)
      → Inv lim p
      → admit_page lim p page ≡ ok q
      → Inv lim q
  unfolding admit_page
  admit_page-Inv lim p q page v h = elim (Option-cases (unmarshal_map page)) [
    | inl e ↦ absurd (ground arith)
    | inr (obj, e) ↦ elim (Result-cases (page_tools obj)) [
      | inr (x, r) ↦ absurd (ground arith)
      | inl (raws, r) ↦ admit_all-Inv lim p q raws v (ground arith)
    ]
  ]

  admit_pages-Inv :
      (lim : Limits) (p q : Progress) (pages : List Bytes)
      → Inv lim p
      → admit_pages lim p pages ≡ ok q
      → Inv lim q
  unfolding admit_pages
  admit_pages-Inv lim p q [] v h = subst (Inv lim) (ground arith) v
  admit_pages-Inv lim p q (page ∷ pages) v h =
      let (r, one, rest) = >>=-eq-ok (admit_page lim p page) (λ s. admit_pages lim s pages) h in
      admit_pages-Inv lim r q pages (admit_page-Inv lim p r page v one) rest

  abbrev start : Progress
  start = record { tools = []; seen = []; total = 0 }

  admit-parts :
      (raw : RawSurface) (lim : Limits) (s : Surface)
      → admit raw lim ≡ ok s
      → (p : Progress) × (instr : Option Bytes × Bytes) × (admit_pages lim start raw.pages ≡ ok p)
        × (admit_instructions raw.instructions lim ≡ ok instr)
        × (s.instructions ≡ instr.0)
        × (s.h_instr ≡ instr.1)
        × (length raw.pages ≤ lim.max_pages)
        × (s.tools ≡ sort_tools p.tools)
        × (check_era s.era ≡ none)
        × (s.era ≡ raw.era)
  unfolding admit
  admit-parts raw lim s h = elim (Result-cases (admit_instructions raw.instructions lim)) [
    | inr (e, x) ↦ absurd (ground (arith, h, x))
    | inl (instr, i) ↦ elim (Result-cases (admit_pages lim start raw.pages)) [
      | inr (e, x) ↦ absurd (ground (arith, h, i, x))
      | inl (p, x) ↦ (
        p,
        instr,
        x,
        i,
        ground (arith, h, i, x),
        ground (arith, h, i, x),
        ground (arith, h, i),
        ground (arith, h, i, x),
        ground (arith, h),
        ground (arith, h, i, x),
      )
    ]
  ]

  -- What a whole surface is, of what was served.
  pub record IsWellFormed (raw : RawSurface) (lim : Limits) (s : Surface) : Type 0 where
    pub sorted : IsSorted s.tools
    pub counted : length s.tools ≤ lim.max_tools
    pub bounded : canon_bytes s.tools ≤ lim.max_surface_bytes
    pub paged : length raw.pages ≤ lim.max_pages
    pub served : List Bytes
    pub made_tools : List Tool
    pub offered : Offered lim raw.pages served
    pub made : Made lim served made_tools
    pub kept : Permᴰ s.tools made_tools
    pub instructed : Instructions lim raw.instructions s.instructions s.h_instr
    pub era_kept : s.era ≡ raw.era
    pub era_named : check_era s.era ≡ none

  -- An admitted surface is made of at most the allowed number of pages, each within its byte cap:
  -- its tools are, up to their order, one for each tool object of the pages, with the name, the
  -- canonical bytes and the hashes of tool, description and schema that the object has, each within
  -- the cap on a tool's bytes. They stand strictly ascending by name, and their number and their
  -- canonical bytes in all are within the caps. The instructions are absent or decoded, within their
  -- cap, and hashed, and the era is the one served and obeys the name rules.
  pub admit-IsWellFormed :
      (raw : RawSurface) (lim : Limits) (s : Surface)
      → admit raw lim ≡ ok s
      → IsWellFormed raw lim s
  admit-IsWellFormed raw lim s h =
      let (p, instr, pages, read, text, hash, paged, sorted, era_named, era_kept) =
        admit-parts raw lim s h in
      let (served, ts, offered, grown, made) = admit_pages-Made lim start p raw.pages pages in
      let instructed : Instructions lim raw.instructions s.instructions s.h_instr =
        rw (text, hash) (admit_instructions-Instructions raw.instructions lim instr read) in
      let v =
        admit_pages-Inv lim start p raw.pages
          (record {
            distinct = tt;
            seen = λ n. refl;
            counted = omega arith;
            summed = refl;
            bounded = omega arith;
          })
          pages in
      record {
        sorted = rw sorted (sort_tools-IsSorted p.tools v.distinct);
        counted = rw (sorted, length-sort_tools p.tools) v.counted;
        bounded = rw (sorted, canon_bytes-sort_tools p.tools) (omega (arith, v.summed, v.bounded));
        paged = paged;
        served = served;
        made_tools = ts;
        offered = offered;
        made = made;
        kept = rw (sorted, grown) (sort_tools-Perm ts);
        instructed = instructed;
        era_kept = era_kept;
        era_named = era_named;
      }
