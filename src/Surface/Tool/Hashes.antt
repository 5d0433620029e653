-- ===== src/Surface/Tool/Hashes.antt =====
-- What a tool that `hashTool` accepts carries.
use surfacelock.Prelude.{
  ◌≤◌, ◌≡◌, refl, ap, ◌∙◌, inl, inr, true, Option, none, some, arith, length, Map, lookup,
  Option-cases,
}
use surfacelock.Prelude.Bytes.{Bytes, codes}
use surfacelock.Prelude.Results.{ok, Result-cases}
use surfacelock.External.{External}
use surfacelock.Canonical.{canonicalize, hash_bytes, hash_canonical, absent_sentinel}
use surfacelock.Decode.{paired_surrogates}
use surfacelock.Names.{valid_name, name_cap_bytes}
use surfacelock.Go.Utf8.{valid}
use surfacelock.Go.Json.Unmarshal.{unmarshal_map, unmarshal_string}
use surfacelock.Surface.Keys.{check_aliased_tool_keys}
use surfacelock.Surface.Tool.{Tool, Limits, present, desc_hash, schema_hash, hash_tool, admit_tool}

module _ ⦃ext : External⦄ where
  -- The hash of a member: the sentinel where it is absent, and else the hash of its canonical form,
  -- where `read` can read it.
  pub data MemberHash {A : Type 0} (read : Bytes → Option A) (member : Option Bytes) (hash : Bytes)
      : Type 0 where
    absent : member ≡ none → hash ≡ absent_sentinel → MemberHash read member hash
    hashed :
        (raw : Bytes) (value : A)
        → member ≡ some raw
        → read raw ≡ some value
        → hash_canonical raw ≡ some hash
        → MemberHash read member hash

  -- The name is the decoded `name` member and obeys the name rules, `canon` is the canonical form of
  -- the bytes and `h_tool` its hash, the other two hashes are of the members `description` and
  -- `inputSchema`, and no member name is aliased.
  pub record IsHashed (raw : Bytes) (t : Tool) : Type 0 where
    pub members : Map Bytes
    pub name_raw : Bytes
    pub utf8 : valid raw ≡ true
    pub unaliased : check_aliased_tool_keys raw ≡ none
    pub object : unmarshal_map raw ≡ some members
    pub has_name : lookup (codes "name") members ≡ some name_raw
    pub decodes : unmarshal_string name_raw ≡ some t.name
    pub paired : paired_surrogates name_raw ≡ true
    pub named : valid_name t.name name_cap_bytes ≡ none
    pub canonical : canonicalize raw ≡ some t.canon
    pub hashed_tool : t.h_tool ≡ hash_bytes t.canon
    pub described : MemberHash unmarshal_string (present (codes "description") members) t.h_desc
    pub schema : MemberHash unmarshal_map (present (codes "inputSchema") members) t.h_schema

  desc_hash-MemberHash :
      (m : Option Bytes) (h : Bytes) → desc_hash m ≡ ok h → MemberHash unmarshal_string m h
  unfolding desc_hash
  desc_hash-MemberHash none h e = absent refl (ground (arith, e))
  desc_hash-MemberHash (some r) h e = elim (Option-cases (unmarshal_string r)) [
    | inl u ↦ absurd (ground (arith, e, u))
    | inr (v, u) ↦ hashed r v refl u (ground (arith, e, u))
  ]

  schema_hash-MemberHash :
      (m : Option Bytes) (h : Bytes) → schema_hash m ≡ ok h → MemberHash unmarshal_map m h
  unfolding schema_hash
  schema_hash-MemberHash none h e = absent refl (ground (arith, e))
  schema_hash-MemberHash (some r) h e = elim (Option-cases (unmarshal_map r)) [
    | inl u ↦ absurd (ground (arith, e, u))
    | inr (v, u) ↦ hashed r v refl u (ground (arith, e, u))
  ]

  pub hash_tool-IsHashed : (raw : Bytes) (t : Tool) → hash_tool raw ≡ ok t → IsHashed raw t
  unfolding hash_tool
  hash_tool-IsHashed raw t h = elim (Option-cases (unmarshal_map raw)) [
    | inl em ↦ absurd (ground (arith, h, em))
    | inr (members, em) ↦ elim (Option-cases (lookup (codes "name") members)) [
      | inl en ↦ absurd (ground (arith, h, em, en))
      | inr (name_raw, en) ↦
          elim (Result-cases (desc_hash (present (codes "description") members))) [
            | inr (e, ed) ↦ absurd (ground (arith, h, em, en, ed))
            | inl (hd, ed) ↦
                elim (Result-cases (schema_hash (present (codes "inputSchema") members))) [
                  | inr (e, es) ↦ absurd (ground (arith, h, em, en, ed, es))
                  | inl (hs, es) ↦
                      let same_desc : hd ≡ t.h_desc = ground (arith, h, em, en, ed, es) in
                      let same_schema : hs ≡ t.h_schema = ground (arith, h, em, en, ed, es) in
                      record {
                        members = members;
                        name_raw = name_raw;
                        utf8 = ground (arith, h);
                        unaliased = ground (arith, h);
                        object = em;
                        has_name = en;
                        decodes = ground (arith, h, em, en);
                        paired = ground (arith, h, em, en);
                        named = ground (arith, h, em, en);
                        canonical = ground (arith, h, em, en);
                        hashed_tool = ground (arith, h, em, en);
                        described =
                            desc_hash-MemberHash (present (codes "description") members) t.h_desc
                              (ed ∙ ap ok same_desc);
                        schema =
                            schema_hash-MemberHash (present (codes "inputSchema") members)
                              t.h_schema (es ∙ ap ok same_schema);
                      }
                ]
          ]
    ]
  ]

  pub admit_tool-IsHashed :
      (raw : Bytes) (lim : Limits) (t : Tool)
      → admit_tool raw lim ≡ ok t
      → IsHashed raw t × (length t.canon ≤ lim.max_tool_bytes)
  unfolding admit_tool
  admit_tool-IsHashed raw lim t h = elim (Result-cases (hash_tool raw)) [
    | inr (e, x) ↦ absurd (ground arith)
    | inl (u, x) ↦
        let same : u ≡ t = ground arith in (hash_tool-IsHashed raw t (x ∙ ap ok same), ground arith)
  ]
