-- ===== src/Canonical.antt =====
-- canonical.go: the RFC 8785 form and the hash over it.
use surfacelock.Prelude.{Option, none, some, ◌++◌}
use surfacelock.Prelude.Bytes.{Bytes, codes}
use surfacelock.External.{External}

-- AbsentSentinel
abbrev pub absent_sentinel : Bytes
absent_sentinel = codes "absent"

module _ ⦃ext : External⦄ where
  -- Canonicalize
  unfoldable pub canonicalize : Bytes → Option Bytes
  canonicalize raw = ext.transform raw

  -- hashBytes
  unfoldable pub hash_bytes : Bytes → Bytes
  hash_bytes b = codes "sha256:" ++ ext.sum256 b

  -- HashCanonical
  unfoldable pub hash_canonical : Bytes → Option Bytes
  unfolding hash_bytes
  hash_canonical raw = elim (ext.transform raw) [
    | none ↦ none
    | some canon ↦ some (hash_bytes canon)
  ]
