-- ===== src/Lockfile/Entry.antt =====
-- lockfile.go: the document and `EntryFromSurface`.
use surfacelock.Prelude.{ℕ, Option, none, some, List, [], map, Map}
use surfacelock.Prelude.Bytes.{Bytes}
use surfacelock.External.{External}
use surfacelock.Surface.Tool.{Tool}
use surfacelock.Surface.Admit.{Surface, ServerInfo}
use surfacelock.Surface.Rollup.{surface_hash}

-- Protocol
pub record Protocol : Type 0 where
  pub offered : Bytes
  pub era : Bytes
  pub flow : Bytes

-- ToolLock
pub record ToolLock : Type 0 where
  pub name : Bytes
  pub h_desc : Bytes
  pub h_schema : Bytes
  pub h_tool : Bytes
  pub tool : Bytes

-- ServerLock; `none` is a nil slice or pointer.
pub record ServerLock : Type 0 where
  pub transport : Bytes
  pub target : Bytes
  pub args : Option (List Bytes)
  pub protocol : Protocol
  pub server_info : Option ServerInfo
  pub instructions : Option Bytes
  pub h_instr : Bytes
  pub surface_hash : Bytes
  pub tools : Option (List ToolLock)

-- The elements of `e.Tools`, none for a nil slice.
abbrev pub tools_of : ServerLock → List ToolLock
tools_of e = elim e.tools [ none ↦ [] | some ts ↦ ts ]

-- Lockfile; `none` is a nil map, and a nil entry in it.
pub record Lockfile : Type 0 where
  pub lockfile_version : ℕ
  pub servers : Option (Map (Option ServerLock))

abbrev pub lockfile_version : ℕ
lockfile_version = 1

-- NewLockfile
unfoldable pub new_lockfile : Lockfile
new_lockfile = record { lockfile_version = lockfile_version; servers = some [] }

unfoldable pub lock_tool : Tool → ToolLock
lock_tool t = record {
  name = t.name;
  h_desc = t.h_desc;
  h_schema = t.h_schema;
  h_tool = t.h_tool;
  tool = t.canon;
}

abbrev not_nil : Option (List Bytes) → List Bytes
not_nil none = []
not_nil (some args) = args

module _ ⦃ext : External⦄ where
  -- EntryFromSurface; `none` is an error.
  unfoldable pub entry_from_surface :
      Bytes → Bytes → Option (List Bytes) → Surface → Option ServerLock
  unfolding lock_tool
  entry_from_surface transport target args s = elim (surface_hash s.era s.h_instr s.tools) [
    | none ↦ none
    | some hash ↦ some (record {
      transport = transport;
      target = target;
      args = some (not_nil args);
      protocol = record { offered = s.offered; era = s.era; flow = s.flow };
      server_info = s.server_info;
      instructions = s.instructions;
      h_instr = s.h_instr;
      surface_hash = hash;
      tools = some (map lock_tool s.tools);
    })
  ]
