-- ===== src/Proxy/Page/Matching.antt =====
-- What is let through: a page whose tools are the pinned ones.
use surfacelock.Prelude.{
  ◌+◌, ◌≤◌, ◌<◌, ◌≡◌, refl, ap, ◌∙◌, subst, ◌≢◌, inl, inr, true, false, some, List, [], ◌∷◌, arith,
  ltb, Bool-cases, length, All, lookup,
}
use surfacelock.Prelude.Bytes.{Bytes, eq_bytes, eq_bytes_iff, lt_bytes, lt_bytes_irrefl, contains}
use surfacelock.Prelude.Results.{ok}
use surfacelock.External.{External}
use surfacelock.Surface.Tool.{Tool}
use surfacelock.Surface.Admit.{Surface, admit}
use surfacelock.Surface.Admit.Sorting.{IsSorted, canon_bytes}
use surfacelock.Surface.Admit.Bounds.{admit-IsWellFormed}
use surfacelock.Lockfile.Entry.{ToolLock}
use surfacelock.Proxy.Params.{page_next_cursor}
use surfacelock.Proxy.Verifier.{Verifier, forward_verdict}
use surfacelock.Proxy.Enumeration.{Enumeration, page_surface}
use surfacelock.Proxy.Page.{
  tool_drift, list_tool, page_loop, page_cursor, page_conclude, all_drifts, page_verdict,
  check_tools_page, verify_tools_page,
}

-- The lock pins the tool with its h_tool.
pub record IsMatching (v : Verifier) (t : Tool) : Type 0 where
  pub pin : ToolLock
  pub pinned : lookup t.name v.lock_tools ≡ some pin
  pub same : pin.h_tool ≡ t.h_tool

-- The enumeration has room for the tools, and has listed none of them.
pub record HasRoom (v : Verifier) (en : Enumeration) (ts : List Tool) : Type 0 where
  pub fresh : All (λ (t : Tool). contains en.names t.name ≡ false) ts
  pub bytes : en.bytes + canon_bytes ts ≤ v.lim.max_surface_bytes
  pub count : length en.names + length ts ≤ v.lim.max_tools

lt_bytes-ne : (a b : Bytes) → lt_bytes a b ≡ true → eq_bytes a b ≡ false
lt_bytes-ne a b h = elim (Bool-cases (eq_bytes a b)) [
  | inr e ↦ e
  | inl e ↦
      let is : a ≡ b = (eq_bytes_iff a b).0 e in
      absurd (ground (arith, lt_bytes_irrefl b, subst (λ c. lt_bytes c b ≡ true) is h))
]

fresh-cons :
    (n : Bytes) (seen : List Bytes) (ts : List Tool)
    → All (λ (u : Tool). lt_bytes n u.name ≡ true) ts
    → All (λ (u : Tool). contains seen u.name ≡ false) ts
    → All (λ (u : Tool). contains (n ∷ seen) u.name ≡ false) ts
unfolding contains
fresh-cons n seen [] h f = tt
fresh-cons n seen (t ∷ ts) h f =
    (ground (arith, lt_bytes-ne n t.name h.0, f.0), fresh-cons n seen ts h.1 f.1)

module _ ⦃ext : External⦄ where
  tool_drift-matching : (v : Verifier) (t : Tool) → IsMatching v t → tool_drift v t ≡ some []
  unfolding tool_drift
  tool_drift-matching v t m = ground (arith, m.pinned, eq_bytes_iff m.pin.h_tool t.h_tool, m.same)

  -- One turn of the loop over a tool that matches.
  record Listed (v : Verifier) (en : Enumeration) (t : Tool) : Type 0 where
    matches : (list_tool v en t).1 ≡ ok []
    named : (list_tool v en t).0.names ≡ t.name ∷ en.names
    grown : (list_tool v en t).0.bytes ≡ en.bytes + length t.canon
    seen : (list_tool v en t).0.seen_cursors ≡ en.seen_cursors

  list_tool-Listed :
      (v : Verifier) (en : Enumeration) (t : Tool) (ts : List Tool)
      → IsMatching v t
      → HasRoom v en (t ∷ ts)
      → Listed v en t
  unfolding list_tool
  list_tool-Listed v en t ts m r =
      let first = r.fresh.0 in
      record {
        matches = ground (arith, first, r.bytes, r.count, tool_drift-matching v t m);
        named = ground (arith, first, r.bytes, r.count, tool_drift-matching v t m);
        grown = ground (arith, first, r.bytes, r.count, tool_drift-matching v t m);
        seen = ground (arith, first, r.bytes, r.count, tool_drift-matching v t m);
      }

  list_tool-HasRoom :
      (v : Verifier) (en : Enumeration) (t : Tool) (ts : List Tool)
      → Listed v en t
      → IsSorted (t ∷ ts)
      → HasRoom v en (t ∷ ts)
      → HasRoom v (list_tool v en t).0 ts
  list_tool-HasRoom v en t ts l s r = record {
    fresh = rw l.named (fresh-cons t.name en.names ts s.0 r.fresh.1);
    bytes = omega (arith, l.grown, r.bytes);
    count = omega (arith, ap length l.named, r.count);
  }

  page_loop-matching :
      (v : Verifier) (en : Enumeration) (ts : List Tool)
      → All (IsMatching v) ts
      → IsSorted ts
      → HasRoom v en ts
      → ((page_loop v en [] ts).1 ≡ ok [])
        × ((page_loop v en [] ts).0.seen_cursors ≡ en.seen_cursors)
  unfolding page_loop
  page_loop-matching v en [] m s r = (refl, refl)
  page_loop-matching v en (t ∷ ts) m s r =
      let listed = list_tool-Listed v en t ts m.0 r in
      let room = list_tool-HasRoom v en t ts listed s r in
      let rest = page_loop-matching v (list_tool v en t).0 ts m.1 s.1 room in
      rw (listed.matches, page_loop) (rest.0, rest.1 ∙ listed.seen)

  page_cursor-new :
      (v : Verifier) (en : Enumeration) (result next : Bytes)
      → page_next_cursor result ≡ some next
      → next ≢ []
      → length next ≤ v.lim.max_cursor_bytes
      → contains en.seen_cursors next ≡ false
      → (page_cursor v en result).1 ≡ ok next
  unfolding page_cursor
  page_cursor-new v en result next c n short new = ground (arith, eq_bytes_iff next [])

  page_verdict-continues :
      (v : Verifier) (en : Enumeration) (next : Bytes)
      → next ≢ []
      → ((page_verdict v en [] next).verdict ≡ forward_verdict [])
        × ((page_verdict v en [] next).next ≡ next)
  unfolding page_verdict page_conclude all_drifts
  page_verdict-continues v en next n = ground (arith, eq_bytes_iff next [])

  -- A page in the midst of an enumeration is let through and its continuation is tracked, if the
  -- page is admitted, the lock pins all its tools with their h_tool, the enumeration has room for
  -- them and has listed none of them, and the cursor is short enough and new.
  pub verify_tools_page-matching :
      (v : Verifier) (en : Enumeration) (result next : Bytes) (s : Surface)
      → en.pages < v.lim.max_pages
      → admit (page_surface en.era result) v.lim ≡ ok s
      → All (IsMatching v) s.tools
      → HasRoom v en s.tools
      → page_next_cursor result ≡ some next
      → next ≢ []
      → length next ≤ v.lim.max_cursor_bytes
      → contains en.seen_cursors next ≡ false
      → ((verify_tools_page v en result).verdict ≡ forward_verdict [])
        × ((verify_tools_page v en result).next ≡ next)
  unfolding verify_tools_page check_tools_page
  verify_tools_page-matching v en result next s pages a m r c n short new =
      let counted = record en { page_tools = []; pages = en.pages + 1 } in
      let sorted = (admit-IsWellFormed (page_surface en.era result) v.lim s a).sorted in
      let room : HasRoom v counted s.tools = record {
        fresh = r.fresh;
        bytes = r.bytes;
        count = r.count;
      } in
      let (loop, seen) = page_loop-matching v counted s.tools m sorted room in
      let looped = (page_loop v counted [] s.tools).0 in
      let unseen = ap (λ cs. contains cs next) seen ∙ new in
      let cursor = page_cursor-new v looped result next c n short unseen in
      let out = page_verdict-continues v (page_cursor v looped result).0 next n in
      let few : ltb v.lim.max_pages (en.pages + 1) ≡ false = ground arith in
      rw (few, a, loop, cursor) (ground (arith, out.0), ground (arith, out.1))
