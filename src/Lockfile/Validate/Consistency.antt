-- ===== src/Lockfile/Validate/Consistency.antt =====
-- What a valid entry has been checked for.
use surfacelock.Prelude.{
  ◌≡◌, refl, sym, ap, ◌∙◌, ◌↔◌, inl, inr, Option, none, some, List, [], ◌∷◌, arith, Option-cases,
}
use surfacelock.Prelude.Bytes.{Bytes, eq_bytes_iff, eq_bytes_refl}
use surfacelock.Prelude.Results.{ok, Result-cases}
use surfacelock.External.{External}
use surfacelock.Canonical.{hash_canonical}
use surfacelock.Go.Json.Strings.{marshal_string}
use surfacelock.Surface.Tool.{Tool, hash_tool}
use surfacelock.Surface.Rollup.{surface_hash}
use surfacelock.Lockfile.Entry.{ServerLock, ToolLock, tools_of}
use surfacelock.Lockfile.Validate.{check_instructions, check_tool, check_tools, validate}

module _ ⦃ext : External⦄ where
  -- The stored name and hashes are those recomputed from the stored object.
  pub record IsRehashed (t : ToolLock) (got : Tool) : Type 0 where
    pub rehashed : hash_tool t.tool ≡ ok got
    pub name : got.name ≡ t.name
    pub h_tool : got.h_tool ≡ t.h_tool
    pub h_schema : got.h_schema ≡ t.h_schema
    pub h_desc : got.h_desc ≡ t.h_desc

  -- The same for each stored tool, in order.
  abbrev pub AllRehashed : List ToolLock → List Tool → Type 0
  AllRehashed [] [] = Unit {0}
  AllRehashed (t ∷ ts) (got ∷ gots) = IsRehashed t got × AllRehashed ts gots
  AllRehashed _ _ = ⊥

  check_tool-IsRehashed : (t : ToolLock) (got : Tool) → (check_tool t ≡ ok got) ↔ IsRehashed t got
  unfolding check_tool
  check_tool-IsRehashed t got = (
    λ h. elim (Result-cases (hash_tool t.tool)) [
      | inr (e, x) ↦ absurd (ground arith)
      | inl (u, x) ↦
          let same : u ≡ got = ground arith in
          ground (
            arith,
            eq_bytes_iff u.name t.name,
            eq_bytes_iff u.h_tool t.h_tool,
            eq_bytes_iff u.h_schema t.h_schema,
            eq_bytes_iff u.h_desc t.h_desc,
          )
    ],
    λ h.
        rw (h.rehashed, check_tool)
          (ground (
            arith,
            eq_bytes_iff got.name t.name,
            eq_bytes_iff got.h_tool t.h_tool,
            eq_bytes_iff got.h_schema t.h_schema,
            eq_bytes_iff got.h_desc t.h_desc,
            h,
          )),
  )

  check_tools-AllRehashed :
      (ts : List ToolLock) (gots : List Tool) → (check_tools ts ≡ ok gots) ↔ AllRehashed ts gots
  unfolding check_tools
  check_tools-AllRehashed [] [] = ((λ h. tt), λ h. refl)
  check_tools-AllRehashed [] (g ∷ gs) = ((λ h. cc), λ h. absurd h)
  check_tools-AllRehashed (t ∷ ts) [] = (
    λ h. absurd (elim (Result-cases (check_tool t)) [
      | inr (e, x) ↦ ground arith
      | inl (u, x) ↦ elim (Result-cases (check_tools ts)) [
        | inr (e, y) ↦ ground arith
        | inl (us, y) ↦ ground arith
      ]
    ]),
    λ h. absurd h,
  )
  check_tools-AllRehashed (t ∷ ts) (g ∷ gs) = (
    λ h. elim (Result-cases (check_tool t)) [
      | inr (e, x) ↦ absurd (ground arith)
      | inl (u, x) ↦ elim (Result-cases (check_tools ts)) [
        | inr (e, y) ↦ absurd (ground arith)
        | inl (us, y) ↦
            let one : u ≡ g = ground arith in
            let rest : us ≡ gs = ground arith in
            (
              (check_tool-IsRehashed t g).0 (x ∙ ap ok one),
              (check_tools-AllRehashed ts gs).0 (y ∙ ap ok rest),
            )
      ]
    ],
    λ h. rw ((check_tool-IsRehashed t g).1 h.0, (check_tools-AllRehashed ts gs).1 h.1, check_tools),
  )

  pub record IsConsistent (e : ServerLock) : Type 0 where
    pub tools : List Tool
    pub rehashed : AllRehashed (tools_of e) tools
    pub rolled : surface_hash e.protocol.era e.h_instr tools ≡ some e.surface_hash
    pub instructions :
        (text : Bytes)
        → e.instructions ≡ some text
        → hash_canonical (marshal_string text) ≡ some e.h_instr

  check_instructions_iff :
      (i : Option Bytes) (h : Bytes)
      → (check_instructions i h ≡ ok tt)
        ↔ ((text : Bytes) → i ≡ some text → hash_canonical (marshal_string text) ≡ some h)
  unfolding check_instructions
  check_instructions_iff none h = ((λ p text e. absurd (cc)), λ p. refl)
  check_instructions_iff (some text) h =
      elim (Option-cases (hash_canonical (marshal_string text))) [
        | inl x ↦ ((λ p u e. absurd (ground arith)), λ p. absurd (ground (arith, p text refl)))
        | inr (k, x) ↦ (
          (λ p u e.
              let same : text ≡ u = cc in
              ap (λ v. hash_canonical (marshal_string v)) (sym same)
              ∙ x
              ∙ ap some (ground (arith, eq_bytes_iff k h))),
          λ p. ground (arith, eq_bytes_iff k h, p text refl),
        )
      ]

  -- Validate accepts an entry exactly when its stored instructions hash to the stored hash, each
  -- stored tool's name and hashes are those recomputed from its stored object, and the rollup over
  -- the recomputed tools is the stored surface_hash.
  pub validate_iff : (e : ServerLock) → (validate e ≡ ok tt) ↔ IsConsistent e
  unfolding validate
  validate_iff e = (
    λ h. elim (Result-cases (check_instructions e.instructions e.h_instr)) [
      | inr (x, i) ↦ absurd (ground arith)
      | inl (u, i) ↦ elim (Result-cases (check_tools (tools_of e))) [
        | inr (x, c) ↦ absurd (ground arith)
        | inl (gots, c) ↦ elim (Option-cases (surface_hash e.protocol.era e.h_instr gots)) [
          | inl s ↦ absurd (ground arith)
          | inr (hash, s) ↦
              let same : hash ≡ e.surface_hash = ground (arith, eq_bytes_iff hash e.surface_hash) in
              record {
                tools = gots;
                rehashed = (check_tools-AllRehashed (tools_of e) gots).0 c;
                rolled = s ∙ ap some same;
                instructions = (check_instructions_iff e.instructions e.h_instr).0 i;
              }
        ]
      ]
    ],
    λ h.
        rw
          (
            (check_instructions_iff e.instructions e.h_instr).1 h.instructions,
            (check_tools-AllRehashed (tools_of e) h.tools).1 h.rehashed,
            validate,
          )
          (ground (arith, h.rolled, eq_bytes_refl e.surface_hash)),
  )
