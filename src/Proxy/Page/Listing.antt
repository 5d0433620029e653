-- ===== src/Proxy/Page/Listing.antt =====
-- The loop over a page's tools.
use surfacelock.Prelude.{
  ◌≡◌, refl, sym, ap, ◌∙◌, inl, inr, some, List, [], ◌∷◌, ◌++◌, map, arith, All,
}
use surfacelock.Prelude.Bytes.{Bytes}
use surfacelock.Prelude.Results.{ok, Result-cases}
use surfacelock.External.{External}
use surfacelock.Surface.Tool.{Tool}
use surfacelock.Proxy.Verifier.{Verifier, ToolDrift}
use surfacelock.Proxy.Enumeration.{Enumeration}
use surfacelock.Proxy.Page.{list_tool, tool_drift, page_loop}
use surfacelock.Proxy.Page.Acceptable.{
  Tolerated, Tolerated-left, Tolerated-right, Acceptable, tool_drift-Acceptable,
}

module _ ⦃ext : External⦄ where
  abbrev pub names : List Tool → List Bytes
  names = map (λ (t : Tool). t.name)

  -- A page whose loop ends without error, and whose drifts are tolerated, has acceptable tools
  -- only, and its names are noted in their order.
  pub record LoopServes (v : Verifier) (en en' : Enumeration) (ds : List ToolDrift) (ts : List Tool)
      : Type 0 where
    pub before : Tolerated v ds
    pub acceptable : All (Acceptable v) ts
    pub noted : en'.page_tools ≡ en.page_tools ++ names ts

  append_assoc : (xs ys zs : List Bytes) → (xs ++ ys) ++ zs ≡ xs ++ (ys ++ zs)
  append_assoc [] ys zs = refl
  append_assoc (x ∷ xs) ys zs = ap (◌∷◌ x) (append_assoc xs ys zs)

  append-nil : (xs : List Bytes) → xs ++ [] ≡ xs
  append-nil [] = refl
  append-nil (x ∷ xs) = ap (◌∷◌ x) (append-nil xs)

  list_tool-noted :
      (v : Verifier) (en : Enumeration) (t : Tool) (d : List ToolDrift)
      → (list_tool v en t).1 ≡ ok d
      → (tool_drift v t ≡ some d) × ((list_tool v en t).0.page_tools ≡ en.page_tools ++ t.name ∷ [])
  unfolding list_tool
  list_tool-noted v en t d e = ground arith

  -- A loop that ends without error has made its first turn without error.
  page_loop-cons :
      (v : Verifier) (en : Enumeration) (ds : List ToolDrift) (t : Tool) (ts : List Tool)
      (ds' : List ToolDrift)
      → (page_loop v en ds (t ∷ ts)).1 ≡ ok ds'
      → (d : List ToolDrift) × ((list_tool v en t).1 ≡ ok d)
        × (page_loop v en ds (t ∷ ts) ≡ page_loop v (list_tool v en t).0 (ds ++ d) ts)
  unfolding page_loop
  page_loop-cons v en ds t ts ds' h = elim (Result-cases (list_tool v en t).1) [
    | inl (d, p) ↦ (d, p, rw (p, page_loop))
    | inr (e, p) ↦ absurd (ground arith)
  ]

  pub page_loop-LoopServes :
      (v : Verifier) (en : Enumeration) (ds : List ToolDrift) (ts : List Tool)
      (ds' : List ToolDrift)
      → (page_loop v en ds ts).1 ≡ ok ds'
      → Tolerated v ds'
      → LoopServes v en (page_loop v en ds ts).0 ds ts
  unfolding page_loop
  page_loop-LoopServes v en ds [] ds' e h = record {
    before = ground arith;
    acceptable = tt;
    noted = sym (append-nil en.page_tools);
  }
  page_loop-LoopServes v en ds (t ∷ ts) ds' e h =
      let (d, listed, turned) = page_loop-cons v en ds t ts ds' e in
      let en1 = (list_tool v en t).0 in
      let rest = page_loop-LoopServes v en1 (ds ++ d) ts ds' (ap (λ p. p.1) (sym turned) ∙ e) h in
      let (drift, noted) = list_tool-noted v en t d listed in
      record {
        before = Tolerated-left v ds d rest.before;
        acceptable = (
          tool_drift-Acceptable v t d drift (Tolerated-right v ds d rest.before),
          rest.acceptable,
        );
        noted = rw turned (
            rest.noted
            ∙ ap (λ ns. ns ++ names ts) noted
            ∙ append_assoc en.page_tools (t.name ∷ []) (names ts));
      }
