-- ===== src/Proxy/Enumeration.antt =====
-- proxy/verify.go: an enumeration of tools over several pages, and what a page leaves of it.
use surfacelock.Prelude.{ℕ, ◌+◌, Bool, true, false, none, List, [], ◌∷◌, if◌then◌else◌, Map}
use surfacelock.Prelude.Bytes.{Bytes, contains}
use surfacelock.Diff.Class.{removed}
use surfacelock.Surface.Tool.{Tool}
use surfacelock.Surface.Admit.{RawSurface}
use surfacelock.Lockfile.Entry.{ToolLock}
use surfacelock.Proxy.Verifier.{Verifier, Verdict, ToolDrift}

-- enumeration; `tools` with the name and `HTool` only, `names` and `seen_cursors` the keys of sets.
pub record Enumeration : Type 0 where
  pub id : ℕ
  pub era : Bytes
  pub orphan : Bool
  pub poisoned : Bool
  pub warned : Bool
  pub complete : Bool
  pub page_tools : List Bytes
  pub seen_cursors : List Bytes
  pub names : List Bytes
  pub tools : List Tool
  pub bytes : ℕ
  pub pages : ℕ

-- The reasons of the inadmissible verdicts that a page can get.
pub data PageError : Type 0 where
  too_many_pages not_admitted duplicate_across_pages surface_too_long too_many_tools : PageError
  unclassifiable bad_cursor cursor_too_long cursor_loop rollup_fails rollup_disagrees : PageError

-- newEnumeration: the verifier with its counter, and the enumeration.
unfoldable pub new_enumeration : Verifier → Bytes → Bool → Verifier × Enumeration
new_enumeration v era orphan =
    let id = v.next_enum_id + 1 in
    (
      record v { next_enum_id = id },
      record {
        id = id;
        era = era;
        orphan = orphan;
        poisoned = false;
        warned = false;
        complete = false;
        page_tools = [];
        seen_cursors = [];
        names = [];
        tools = [];
        bytes = 0;
        pages = 0;
      },
    )

-- The surface that a single page is admitted as.
abbrev pub page_surface : Bytes → Bytes → RawSurface
page_surface era result = record {
  offered = era;
  era = era;
  flow = [];
  instructions = none;
  server_info = none;
  pages = result ∷ [];
}

-- surfacelock.Tool{Name: t.Name, HTool: t.HTool}
unfoldable pub name_and_hash : Tool → Tool
name_and_hash t = record {
  name = t.name;
  canon = [];
  h_tool = t.h_tool;
  h_schema = [];
  h_desc = [];
}

-- The lock's tools that the enumeration has not seen.
unfoldable pub removed_drifts : List Bytes → Map ToolLock → List ToolDrift
removed_drifts names [] = []
removed_drifts names ((name, t) ∷ m) =
    let rest = removed_drifts names m in
    if contains names name
    then rest
    else record { name = name; classes = removed ∷ []; safety_or_display = false } ∷ rest

-- What checkToolsPage returns and leaves: the verdict, the next cursor, both objects.
pub record PageOutcome : Type 0 where
  pub verdict : Verdict
  pub next : Bytes
  pub enum : Enumeration
  pub verifier : Verifier

unfoldable pub refuse_page : Verifier → Enumeration → Verdict → PageOutcome
refuse_page v en vd = record {
  verdict = vd;
  next = [];
  enum = record en { poisoned = true };
  verifier = v;
}
