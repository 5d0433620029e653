-- ===== src/Surface/Admit/Offered.antt =====
-- Which tools of the pages an admitted surface has.
use surfacelock.Prelude.{
  ◌≤◌, ◌≡◌, refl, ap, ◌∙◌, inl, inr, true, false, Bool-cases, Option, none, some, List, [], ◌∷◌,
  ◌++◌, arith, Option-cases, length, Map,
}
use surfacelock.Prelude.Bytes.{Bytes, codes, lt_bytes}
use surfacelock.Prelude.Results.{ok, >>=-eq-ok, Result-cases}
use mathlib.Core.List.{Permᴰ}
use mathlib.Core.List.Permᴰ
use surfacelock.External.{External}
use surfacelock.Canonical.{hash_canonical, absent_sentinel}
use surfacelock.Go.Json.Unmarshal.{unmarshal_map, unmarshal_list, unmarshal_string}
use surfacelock.Surface.Tool.{Tool, Limits, present, is_null, admit_tool}
use surfacelock.Surface.Tool.Hashes.{IsHashed, admit_tool-IsHashed}
use surfacelock.Surface.Admit.{
  Progress, admit_instructions, admit_one, admit_all, admit_page, admit_pages, page_tools,
  insert_tool, sort_tools,
}

-- The tool objects of a page: none where it has no list of tools.
pub data Tools (members : Map Bytes) : List Bytes → Type 0 where
  no_list : present (codes "tools") members ≡ none → Tools members []
  list :
      (raw : Bytes) (served : List Bytes)
      → present (codes "tools") members ≡ some raw
      → unmarshal_list raw ≡ some served
      → Tools members served

-- The tool objects of all pages in their order, each page within the byte cap.
pub data Offered (lim : Limits) : List Bytes → List Bytes → Type 0 where
  no_page : Offered lim [] []
  page :
      (text : Bytes) (texts : List Bytes) (members : Map Bytes) (served rest : List Bytes)
      → length text ≤ lim.max_page_bytes
      → unmarshal_map text ≡ some members
      → Tools members served
      → Offered lim texts rest
      → Offered lim (text ∷ texts) (served ++ rest)

insert_tool-Perm : (t : Tool) (ts : List Tool) → Permᴰ (insert_tool t ts) (t ∷ ts)
unfolding insert_tool
insert_tool-Perm t [] = Permᴰ.refl (t ∷ [])
insert_tool-Perm t (u ∷ us) = elim (Bool-cases (lt_bytes t.name u.name)) [
  | inl h ↦ rw (h, insert_tool) (Permᴰ.refl (t ∷ u ∷ us))
  | inr h ↦
      rw (h, insert_tool)
        (Permᴰ.trans (Permᴰ.cons refl (insert_tool-Perm t us)) (Permᴰ.swap refl refl))
]

pub sort_tools-Perm : (ts : List Tool) → Permᴰ (sort_tools ts) ts
unfolding sort_tools
sort_tools-Perm [] = Permᴰ.nil
sort_tools-Perm (t ∷ ts) =
    Permᴰ.trans (insert_tool-Perm t (sort_tools ts)) (Permᴰ.cons refl (sort_tools-Perm ts))

module _ ⦃ext : External⦄ where
  -- The text of the instructions and its hash: absent where nothing or `null` is served, and else
  -- the decoded string, within the byte cap, and the hash of the canonical form.
  pub data Instructions (lim : Limits) (served text : Option Bytes) (hash : Bytes) : Type 0 where
    left_out :
        served ≡ none → text ≡ none → hash ≡ absent_sentinel → Instructions lim served text hash
    null_value :
        (raw : Bytes)
        → served ≡ some raw
        → is_null raw ≡ true
        → text ≡ none
        → hash ≡ absent_sentinel
        → Instructions lim served text hash
    given :
        (raw value : Bytes)
        → served ≡ some raw
        → is_null raw ≡ false
        → unmarshal_string raw ≡ some value
        → text ≡ some value
        → length value ≤ lim.max_instructions_bytes
        → hash_canonical raw ≡ some hash
        → Instructions lim served text hash

  pub admit_instructions-Instructions :
      (served : Option Bytes) (lim : Limits) (out : Option Bytes × Bytes)
      → admit_instructions served lim ≡ ok out
      → Instructions lim served out.0 out.1
  unfolding admit_instructions
  admit_instructions-Instructions none lim out h =
      left_out refl (ground (arith, h)) (ground (arith, h))
  admit_instructions-Instructions (some raw) lim out h = elim (Bool-cases (is_null raw)) [
    | inl n ↦ null_value raw refl n (ground (arith, h, n)) (ground (arith, h, n))
    | inr n ↦ elim (Option-cases (unmarshal_string raw)) [
      | inl u ↦ absurd (ground (arith, h, n, u))
      | inr (value, u) ↦ elim (Option-cases (hash_canonical raw)) [
        | inl c ↦ absurd (ground (arith, h, n, u, c))
        | inr (hash, c) ↦
            let same : hash ≡ out.1 = ground (arith, h, n, u, c) in
            given raw value refl n u (ground (arith, h, n, u, c)) (ground (arith, h, n, u))
              (c ∙ ap some same)
      ]
    ]
  ]

  -- One after the other, each tool is what hashTool makes of the object, within the byte cap.
  pub data Made (lim : Limits) : List Bytes → List Tool → Type 0 where
    no_tool : Made lim [] []
    tool :
        (raw : Bytes) (raws : List Bytes) (t : Tool) (ts : List Tool)
        → IsHashed raw t
        → length t.canon ≤ lim.max_tool_bytes
        → Made lim raws ts
        → Made lim (raw ∷ raws) (t ∷ ts)

  Made-append :
      {lim : Limits} {raws more : List Bytes} {ts us : List Tool}
      → Made lim raws ts
      → Made lim more us
      → Made lim (raws ++ more) (ts ++ us)
  Made-append no_tool m = m
  Made-append (tool raw raws t ts h short rest) m =
      tool raw (raws ++ _) t (ts ++ _) h short (Made-append rest m)

  append-nil : (xs : List Tool) → xs ≡ xs ++ []
  append-nil [] = refl
  append-nil (x ∷ xs) = ap (λ ys. x ∷ ys) (append-nil xs)

  append_assoc : (xs ys zs : List Tool) → (xs ++ ys) ++ zs ≡ xs ++ (ys ++ zs)
  append_assoc [] ys zs = refl
  append_assoc (x ∷ xs) ys zs = ap (λ ws. x ∷ ws) (append_assoc xs ys zs)

  admit_one-tool :
      (lim : Limits) (p q : Progress) (raw : Bytes)
      → admit_one lim p raw ≡ ok q
      → (t : Tool) × (q.tools ≡ p.tools ++ t ∷ [])
        × IsHashed raw t
        × (length t.canon ≤ lim.max_tool_bytes)
  unfolding admit_one
  admit_one-tool lim p q raw h = elim (Result-cases (admit_tool raw lim)) [
    | inr (e, a) ↦ absurd (ground (arith, h, a))
    | inl (t, a) ↦
        let (hashed, short) = admit_tool-IsHashed raw lim t a in
        (t, ground (arith, h, a), hashed, short)
  ]

  admit_all-Made :
      (lim : Limits) (p q : Progress) (raws : List Bytes)
      → admit_all lim p raws ≡ ok q
      → (ts : List Tool) × (q.tools ≡ p.tools ++ ts) × Made lim raws ts
  unfolding admit_all
  admit_all-Made lim p q [] h =
      let unchanged : q.tools ≡ p.tools = ground (arith, h) in
      ([], unchanged ∙ append-nil p.tools, no_tool)
  admit_all-Made lim p q (raw ∷ raws) h =
      let (r, one, rest) = >>=-eq-ok (admit_one lim p raw) (λ s. admit_all lim s raws) h in
      let (t, first, hashed, short) = admit_one-tool lim p r raw one in
      let (ts, others, made) = admit_all-Made lim r q raws rest in
      (
        t ∷ ts,
        others ∙ (ap (λ us. us ++ ts) first ∙ append_assoc p.tools (t ∷ []) ts),
        tool raw raws t ts hashed short made,
      )

  admit_page-Made :
      (lim : Limits) (p q : Progress) (text : Bytes)
      → admit_page lim p text ≡ ok q
      → (members : Map Bytes) × (served : List Bytes) × (ts : List Tool) × (length text
          ≤ lim.max_page_bytes)
        × (unmarshal_map text ≡ some members)
        × Tools members served
        × (q.tools ≡ p.tools ++ ts)
        × Made lim served ts
  unfolding admit_page page_tools
  admit_page-Made lim p q text h = elim (Option-cases (unmarshal_map text)) [
    | inl e ↦ absurd (ground (arith, h, e))
    | inr (members, e) ↦ elim (Option-cases (present (codes "tools") members)) [
      | inl n ↦
          let (ts, grown, made) = admit_all-Made lim p q [] (ground (arith, h, e, n)) in
          (members, [], ts, ground (arith, h), e, no_list n, grown, made)
      | inr (raw, n) ↦ elim (Option-cases (unmarshal_list raw)) [
        | inl u ↦ absurd (ground (arith, h, e, n, u))
        | inr (served, u) ↦
            let (ts, grown, made) = admit_all-Made lim p q served (ground (arith, h, e, n, u)) in
            (members, served, ts, ground (arith, h), e, list raw served n u, grown, made)
      ]
    ]
  ]

  pub admit_pages-Made :
      (lim : Limits) (p q : Progress) (pages : List Bytes)
      → admit_pages lim p pages ≡ ok q
      → (served : List Bytes) × (ts : List Tool) × Offered lim pages served
        × (q.tools ≡ p.tools ++ ts)
        × Made lim served ts
  unfolding admit_pages
  admit_pages-Made lim p q [] h =
      let unchanged : q.tools ≡ p.tools = ground (arith, h) in
      ([], [], no_page, unchanged ∙ append-nil p.tools, no_tool)
  admit_pages-Made lim p q (text ∷ pages) h =
      let (r, one, rest) = >>=-eq-ok (admit_page lim p text) (λ s. admit_pages lim s pages) h in
      let (members, served, ts, short, object, listed, first, made) =
        admit_page-Made lim p r text one in
      let (more, us, offered, others, made_more) = admit_pages-Made lim r q pages rest in
      (
        served ++ more,
        ts ++ us,
        page text pages members served more short object listed offered,
        others ∙ (ap (λ ws. ws ++ us) first ∙ append_assoc p.tools ts us),
        Made-append made made_more,
      )
