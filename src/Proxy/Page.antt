-- ===== src/Proxy/Page.antt =====
-- proxy/verify.go: `verifyToolsPage` and `checkToolsPage`, one page of an enumeration.
pub mod Acceptable
pub mod Listing
pub mod Served
pub mod Matching
pub mod Complete
use surfacelock.Proxy.Enumeration.{
  Enumeration, PageError, page_surface, name_and_hash, removed_drifts, PageOutcome, refuse_page,
  duplicate_across_pages, surface_too_long, too_many_tools, unclassifiable, bad_cursor,
  cursor_too_long, cursor_loop,
}
use surfacelock.Prelude.{
  ◌+◌, true, false, not, ◌&&◌, ◌||◌, Option, none, some, List, [], ◌∷◌, ◌++◌, ltb, if◌then◌else◌,
  length, lookup,
}
use surfacelock.Prelude.Bytes.{Bytes, eq_bytes, contains}
use surfacelock.Prelude.Results.{Result, ok, err}
use surfacelock.External.{External}
use surfacelock.Diff.Class.{added}
use surfacelock.Diff.Classify.{classify, safety_or_display_changed}
use surfacelock.Surface.Tool.{Tool}
use surfacelock.Surface.Admit.{admit}
use surfacelock.Surface.Rollup.{surface_hash}
use surfacelock.Proxy.Params.{page_next_cursor}
use surfacelock.Proxy.Verifier.{
  Verifier, ToolDrift, complete_under_warn, complete_under_warned_drift, verified_partial,
  verified_complete, forward_verdict, inadmissible_verdict, resolve_drift,
}

module _ ⦃ext : External⦄ where
  -- What the loop's body adds to `drifts` for one tool; `none` is a failed classification.
  unfoldable pub tool_drift : Verifier → Tool → Option (List ToolDrift)
  tool_drift v t = elim (lookup t.name v.lock_tools) [
    | none ↦ some (record { name = t.name; classes = added ∷ []; safety_or_display = false } ∷ [])
    | some lt ↦ if eq_bytes lt.h_tool t.h_tool then some [] else elim (classify lt.tool t.canon) [
      | none ↦ none
      | some classes ↦ elim (safety_or_display_changed lt.tool t.canon) [
        | none ↦ none
        | some safety ↦
            some (record { name = t.name; classes = classes; safety_or_display = safety } ∷ [])
      ]
    ]
  ]

  -- One turn of the loop over `adm.Tools`: the enumeration as it leaves it, and what it adds to
  -- `drifts`, or the error.
  unfoldable pub list_tool :
      Verifier → Enumeration → Tool → Enumeration × Result PageError (List ToolDrift)
  unfolding name_and_hash
  list_tool v en t =
      let named = record en {
        names = t.name ∷ en.names;
        page_tools = en.page_tools ++ t.name ∷ [];
        bytes = en.bytes + length t.canon;
      } in
      let listed = record named { tools = named.tools ++ name_and_hash t ∷ [] } in
      if contains en.names t.name
      then (en, err duplicate_across_pages)
      else if ltb v.lim.max_surface_bytes named.bytes
      then (named, err surface_too_long)
      else if ltb v.lim.max_tools (length named.names)
      then (named, err too_many_tools)
      else elim (tool_drift v t) [ none ↦ (listed, err unclassifiable) | some d ↦ (listed, ok d) ]

  -- The loop; `ds` holds the drifts so far.
  unfoldable pub page_loop :
      Verifier
      → Enumeration
      → List ToolDrift
      → List Tool
      → Enumeration × Result PageError (List ToolDrift)
  page_loop v en ds [] = (en, ok ds)
  page_loop v en ds (t ∷ ts) = elim (list_tool v en t).1 [
    | err e ↦ ((list_tool v en t).0, err e)
    | ok d ↦ page_loop v (list_tool v en t).0 (ds ++ d) ts
  ]

  -- The cursor rules: the enumeration with the cursor noted, and the cursor, "" at the end.
  unfoldable pub page_cursor : Verifier → Enumeration → Bytes → Enumeration × Result PageError Bytes
  page_cursor v en result = elim (page_next_cursor result) [
    | none ↦ (en, err bad_cursor)
    | some next ↦
        if eq_bytes next []
        then (en, ok [])
        else if ltb v.lim.max_cursor_bytes (length next)
        then (en, err cursor_too_long)
        else if contains en.seen_cursors next
        then (en, err cursor_loop)
        else (record en { seen_cursors = next ∷ en.seen_cursors }, ok next)
  ]

  -- From `len(drifts) > 0` on, with drift.
  unfoldable pub page_drifted : Verifier → Enumeration → List ToolDrift → Bytes → PageOutcome
  unfolding refuse_page
  page_drifted v en drifts next =
      let vd = resolve_drift v drifts false in
      if vd.refuse
      then refuse_page v en vd
      else if eq_bytes next []
      then record {
        verdict = record vd { findings = vd.findings ++ complete_under_warn ∷ [] };
        next = next;
        enum = record en { warned = true; complete = true };
        verifier = v;
      }
      else record { verdict = vd; next = next; enum = record en { warned = true }; verifier = v }

  -- The end of an enumeration with no drift on this page.
  unfoldable pub page_complete : Verifier → Enumeration → PageOutcome
  unfolding refuse_page
  page_complete v en =
      let done = record en { complete = true } in
      if en.orphan
      then record {
        verdict = forward_verdict (verified_partial ∷ []);
        next = [];
        enum = done;
        verifier = v;
      }
      else if en.warned || not (eq_bytes en.era v.entry.protocol.era)
      then record {
        verdict = forward_verdict (complete_under_warned_drift ∷ []);
        next = [];
        enum = done;
        verifier = v;
      }
      else elim (surface_hash en.era v.entry.h_instr en.tools) [
        | none ↦ record { verdict = inadmissible_verdict; next = []; enum = done; verifier = v }
        | some hash ↦
            if eq_bytes hash v.entry.surface_hash
            then record {
              verdict = forward_verdict (verified_complete ∷ []);
              next = [];
              enum = done;
              verifier = record v { ever_clean = true };
            }
            else refuse_page v done inadmissible_verdict
      ]

  -- From `len(drifts) > 0` on.
  unfoldable pub page_conclude : Verifier → Enumeration → Bytes → List ToolDrift → PageOutcome
  page_conclude v en next (d ∷ ds) = page_drifted v en (d ∷ ds) next
  page_conclude v en next [] =
      if eq_bytes next []
      then page_complete v en
      else record { verdict = forward_verdict []; next = next; enum = en; verifier = v }

  -- `drifts` with the removed tools, which a complete enumeration adds.
  unfoldable pub all_drifts : Verifier → Enumeration → List ToolDrift → Bytes → List ToolDrift
  all_drifts v en drifts next =
      if eq_bytes next [] && not en.orphan
      then drifts ++ removed_drifts en.names v.lock_tools
      else drifts

  -- From the cursor on.
  unfoldable pub page_verdict : Verifier → Enumeration → List ToolDrift → Bytes → PageOutcome
  page_verdict v en drifts next = page_conclude v en next (all_drifts v en drifts next)

  -- checkToolsPage
  unfoldable pub check_tools_page : Verifier → Enumeration → Bytes → PageOutcome
  check_tools_page v en result =
      let counted = record en { pages = en.pages + 1 } in
      if ltb v.lim.max_pages counted.pages
      then refuse_page v counted inadmissible_verdict
      else elim (admit (page_surface en.era result) v.lim) [
        | err e ↦ refuse_page v counted inadmissible_verdict
        | ok adm ↦
            let (looped, drifts) = page_loop v counted [] adm.tools in
            elim drifts [
              | err e ↦ refuse_page v looped inadmissible_verdict
              | ok ds ↦
                  let (cursored, next) = page_cursor v looped result in
                  elim next [
                    | err e ↦ refuse_page v cursored inadmissible_verdict
                    | ok cursor ↦ page_verdict v cursored ds cursor
                  ]
            ]
      ]

  -- verifyToolsPage
  unfoldable pub verify_tools_page : Verifier → Enumeration → Bytes → PageOutcome
  verify_tools_page v en result =
      let out = check_tools_page v (record en { page_tools = [] }) result in
      if out.verdict.refuse then out else record out {
        verifier = record out.verifier { callable = out.enum.page_tools ++ out.verifier.callable };
      }
