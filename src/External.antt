-- ===== src/External.antt =====
-- What the package uses and does not contain: the canonicalizer github.com/gowebpki/jcs, and of
-- the standard library SHA-256, the Unicode case-fold table and the float64 of a number literal.
use surfacelock.Prelude.{ℕ, Option, Map}
use surfacelock.Prelude.Bytes.{Bytes}

pub record External : Type 0 where
  -- `jcs.Transform`: the RFC 8785 form of a JSON text; `none` is an error.
  pub transform : Bytes → Option Bytes
  -- `hex.EncodeToString` of `sha256.Sum256`.
  pub sum256 : Bytes → Bytes
  -- The least rune that `unicode.SimpleFold` reaches from a rune.
  pub fold : ℕ → ℕ
  -- A text that stands for the float64 nearest to a number literal, the same for two literals
  -- whose float64 values are `==`; `none` where the literal is out of range.
  pub float64 : Bytes → Option Bytes
  -- The order in which `range` passes over a map, which Go leaves open: from the entries of a map
  -- the same entries in some order.
  pub range : Map (Map Bytes) → Map (Map Bytes)
