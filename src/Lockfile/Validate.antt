-- ===== src/Lockfile/Validate.antt =====
-- lockfile.go: `Validate`, the self-consistency of an entry and of a lockfile.
pub mod Consistency
use surfacelock.Prelude.{not, ◌||◌, Option, none, some, List, [], ◌∷◌, if◌then◌else◌, Map}
use surfacelock.Prelude.Bytes.{Bytes, eq_bytes}
use surfacelock.Prelude.Results.{Result, ok, err, ◌>>=◌, ◌>>◌}
use surfacelock.External.{External}
use surfacelock.Canonical.{hash_canonical}
use surfacelock.Go.Json.Strings.{marshal_string}
use surfacelock.Surface.Tool.{Tool, hash_tool}
use surfacelock.Surface.Rollup.{surface_hash}
use surfacelock.Lockfile.Entry.{ServerLock, ToolLock, tools_of}

pub data Corrupt : Type 0 where
  instructions_unhashable instructions_mismatch stored_object stored_name : Corrupt
  stored_hashes surface_unhashable surface_mismatch nil_entry : Corrupt

module _ ⦃ext : External⦄ where
  -- The check of the stored instructions.
  unfoldable pub check_instructions : Option Bytes → Bytes → Result Corrupt (Unit {0})
  check_instructions none h_instr = ok tt
  check_instructions (some text) h_instr = elim (hash_canonical (marshal_string text)) [
    | none ↦ err instructions_unhashable
    | some h ↦ if eq_bytes h h_instr then ok tt else err instructions_mismatch
  ]

  -- One turn of the loop over `e.Tools`.
  unfoldable pub check_tool : ToolLock → Result Corrupt Tool
  check_tool t = elim (hash_tool t.tool) [
    | err e ↦ err stored_object
    | ok got ↦
        if not (eq_bytes got.name t.name)
        then err stored_name
        else if not (eq_bytes got.h_tool t.h_tool)
            || (not (eq_bytes got.h_schema t.h_schema) || not (eq_bytes got.h_desc t.h_desc))
        then err stored_hashes
        else ok got
  ]

  unfoldable pub check_tools : List ToolLock → Result Corrupt (List Tool)
  check_tools [] = ok []
  check_tools (t ∷ ts) = do got ← check_tool t; rest ← check_tools ts; ok (got ∷ rest)

  -- ServerLock.Validate
  unfoldable pub validate : ServerLock → Result Corrupt (Unit {0})
  validate e = do
    check_instructions e.instructions e.h_instr
    entries ← check_tools (tools_of e)
    elim (surface_hash e.protocol.era e.h_instr entries) [
      | none ↦ err surface_unhashable
      | some hash ↦ if eq_bytes hash e.surface_hash then ok tt else err surface_mismatch
    ]

  -- Lockfile.Validate. A nil entry, which `Parse` refuses, would be a nil dereference.
  unfoldable pub validate_all : Map (Option ServerLock) → Result Corrupt (Unit {0})
  validate_all [] = ok tt
  validate_all ((name, none) ∷ m) = err nil_entry
  validate_all ((name, some e) ∷ m) = validate e >>= λ _. validate_all m
