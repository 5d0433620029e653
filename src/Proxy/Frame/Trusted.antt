-- ===== src/Proxy/Frame/Trusted.antt =====
-- What the envelope of a frame that parseFrame accepts is.
use surfacelock.Prelude.{
  ◌≡◌, refl, ◌⊎◌, inl, inr, true, false, Option, none, some, List, [], ◌∷◌, arith, any, Bool-cases,
  Option-cases, All, Map, lookup,
}
use surfacelock.Prelude.Bytes.{Bytes, codes, eq_bytes, eq_bytes_iff, contains}
use surfacelock.Prelude.Results.{ok, Result-cases}
use surfacelock.External.{External}
use surfacelock.Decode.{equal_fold, is_variant, aliases}
use surfacelock.Go.Json.Value.{Fields, Value}
use surfacelock.Go.Json.Scan.{scan}
use surfacelock.Go.Json.Unmarshal.{unmarshal_map, unmarshal_string, unmarshal_number}
use surfacelock.Surface.Tool.{is_null}
use surfacelock.Proxy.Frame.{
  Frame, walk_names, check_members, check_envelope, id_key, frame_id, frame_method, parse_frame,
  envelope_keys,
}

abbrev pub names_of : Fields → List Bytes
names_of Fields.end = []
names_of (Fields.field k p v fs) = k ∷ names_of fs

abbrev pub AreDistinct : List Bytes → Type 0
AreDistinct [] = Unit {0}
AreDistinct (k ∷ ks) = All (λ j. eq_bytes k j ≡ false) ks × AreDistinct ks

-- The members that a frame is routed by.
abbrev pub routing_names : List Bytes
routing_names =
    codes "jsonrpc"
    ∷ codes "id"
    ∷ codes "method"
    ∷ codes "params"
    ∷ codes "result"
    ∷ codes "error"
    ∷ []

-- The member `id` is absent, `null`, a number or a string.
pub data HasId (members : Map Bytes) : Type 0 where
  no_id : lookup (codes "id") members ≡ none → HasId members
  null_id :
      (raw : Bytes) → lookup (codes "id") members ≡ some raw → is_null raw ≡ true → HasId members
  number_id :
      (raw number : Bytes)
      → lookup (codes "id") members ≡ some raw
      → unmarshal_number raw ≡ some number
      → HasId members
  text_id :
      (raw text : Bytes)
      → lookup (codes "id") members ≡ some raw
      → unmarshal_string raw ≡ some text
      → HasId members

-- There is no method, or it is a string that is not empty and nothing is answered beside it.
pub data HasMethod (members : Map Bytes) : Type 0 where
  no_method : lookup (codes "method") members ≡ none → HasMethod members
  method :
      (raw text : Bytes)
      → lookup (codes "method") members ≡ some raw
      → unmarshal_string raw ≡ some text
      → eq_bytes text [] ≡ false
      → lookup (codes "result") members ≡ none
      → lookup (codes "error") members ≡ none
      → HasMethod members

module _ ⦃ext : External⦄ where
  -- The name is none that a frame is routed by, up to case, or is spelled like it.
  abbrev pub IsSpelled : Bytes → Type 0
  IsSpelled k = All (λ e. (k ≡ e) ⊎ (equal_fold k e ≡ false)) routing_names

  -- The line is a JSON object without a member name twice or a routing name in another case, and its
  -- id and its method are what the two types above allow.
  pub record IsTrusted (line : Bytes) : Type 0 where
    pub fields : Fields
    pub members : Map Bytes
    pub parsed : scan line ≡ some (Value.obj fields)
    pub object : unmarshal_map line ≡ some members
    pub distinct : AreDistinct (names_of fields)
    pub spelled : All IsSpelled (names_of fields)
    pub has_id : HasId members
    pub has_method : HasMethod members

  variants-IsSpelled :
      (k : Bytes) (es : List Bytes)
      → any (is_variant k) es ≡ false
      → All (λ e. (k ≡ e) ⊎ (equal_fold k e ≡ false)) es
  unfolding is_variant
  variants-IsSpelled k [] h = tt
  variants-IsSpelled k (e ∷ es) h = (
    elim (Bool-cases (eq_bytes k e)) [
      | inl same ↦ inl ((eq_bytes_iff k e).0 same)
      | inr other ↦ inr (ground (arith, h, other))
    ],
    variants-IsSpelled k es (ground (arith, h)),
  )

  -- The names that are left when the walk has passed others.
  record Walked (seen : List Bytes) (fs : Fields) : Type 0 where
    fresh : All (λ k. contains seen k ≡ false) (names_of fs)
    distinct : AreDistinct (names_of fs)
    spelled : All IsSpelled (names_of fs)

  All-contains :
      (k : Bytes) (seen ks : List Bytes)
      → All (λ j. contains (k ∷ seen) j ≡ false) ks
      → All (λ j. eq_bytes k j ≡ false) ks × All (λ j. contains seen j ≡ false) ks
  unfolding contains
  All-contains k seen [] h = (tt, tt)
  All-contains k seen (j ∷ ks) h =
      let (others, fresh) = All-contains k seen ks h.1 in
      ((ground (arith, h.0), others), (ground (arith, h.0), fresh))

  walk_names-Walked :
      (seen : List Bytes) (fs : Fields) → walk_names envelope_keys seen fs ≡ none → Walked seen fs
  unfolding walk_names aliases
  walk_names-Walked seen Fields.end h = record { fresh = tt; distinct = tt; spelled = tt }
  walk_names-Walked seen (Fields.field k p v fs) h =
      let rest = walk_names-Walked (k ∷ seen) fs (ground (arith, h)) in
      let (others, fresh) = All-contains k seen (names_of fs) rest.fresh in
      let exact : any (is_variant k) envelope_keys ≡ false = ground (arith, h) in
      record {
        fresh = (ground (arith, h), fresh);
        distinct = (others, rest.distinct);
        spelled = (variants-IsSpelled k envelope_keys exact, rest.spelled);
      }

  check_envelope-object :
      (line : Bytes) (v : Value)
      → check_envelope line ≡ none
      → scan line ≡ some v
      → (fs : Fields) × (v ≡ Value.obj fs) × Walked [] fs
  unfolding check_envelope check_members
  check_envelope-object line (Value.obj fs) h e =
      (fs, refl, walk_names-Walked [] fs (ground (arith, h, e)))
  check_envelope-object line Value.null h e = absurd (ground (arith, h, e))
  check_envelope-object line (Value.bool b) h e = absurd (ground (arith, h, e))
  check_envelope-object line (Value.num n) h e = absurd (ground (arith, h, e))
  check_envelope-object line (Value.str s) h e = absurd (ground (arith, h, e))
  check_envelope-object line (Value.arr xs) h e = absurd (ground (arith, h, e))

  check_envelope-scans :
      (line : Bytes) → check_envelope line ≡ none → (v : Value) × (scan line ≡ some v)
  unfolding check_envelope check_members
  check_envelope-scans line h = elim (Option-cases (scan line)) [
    | inl e ↦ absurd (ground (arith, h, e))
    | inr found ↦ found
  ]

  frame_id-HasId :
      (members : Map Bytes) (id : Bytes × Option Bytes) → frame_id members ≡ ok id → HasId members
  unfolding frame_id id_key
  frame_id-HasId members id h = elim (Option-cases (lookup (codes "id") members)) [
    | inl e ↦ no_id e
    | inr (raw, e) ↦ elim (Bool-cases (is_null raw)) [
      | inl n ↦ null_id raw e n
      | inr n ↦ elim (Option-cases (unmarshal_number raw)) [
        | inr (number, u) ↦ number_id raw number e u
        | inl u ↦ elim (Option-cases (unmarshal_string raw)) [
          | inr (text, s) ↦ text_id raw text e s
          | inl s ↦ absurd (ground (arith, h, e, n, u, s))
        ]
      ]
    ]
  ]

  frame_method-HasMethod :
      (members : Map Bytes) (m : Bytes) → frame_method members ≡ ok m → HasMethod members
  unfolding frame_method
  frame_method-HasMethod members m h = elim (Option-cases (lookup (codes "method") members)) [
    | inl e ↦ no_method e
    | inr (raw, e) ↦ elim (Option-cases (unmarshal_string raw)) [
      | inl u ↦ absurd (ground (arith, h, e, u))
      | inr (text, u) ↦ elim (Option-cases (lookup (codes "result") members)) [
        | inr (r, er) ↦ absurd (ground (arith, h, e, u, er))
        | inl er ↦ elim (Option-cases (lookup (codes "error") members)) [
          | inr (x, ex) ↦ absurd (ground (arith, h, e, u, er, ex))
          | inl ex ↦ method raw text e u (ground (arith, h, e, u)) er ex
        ]
      ]
    ]
  ]

  pub parse_frame-IsTrusted : (line : Bytes) (f : Frame) → parse_frame line ≡ ok f → IsTrusted line
  unfolding parse_frame
  parse_frame-IsTrusted line f h =
      let clear : check_envelope line ≡ none = ground (arith, h) in
      let (v, scanned) = check_envelope-scans line clear in
      let (fields, is, walked) = check_envelope-object line v clear scanned in
      elim (Option-cases (unmarshal_map line)) [
        | inl e ↦ absurd (ground (arith, h, e))
        | inr (members, e) ↦ elim (Result-cases (frame_id members)) [
          | inr (x, i) ↦ absurd (ground (arith, h, e, i))
          | inl (id, i) ↦ elim (Result-cases (frame_method members)) [
            | inr (x, m) ↦ absurd (ground (arith, h, e, i, m))
            | inl (name, m) ↦ record {
              fields = fields;
              members = members;
              parsed = ground (arith, scanned, is);
              object = e;
              distinct = walked.distinct;
              spelled = walked.spelled;
              has_id = frame_id-HasId members id i;
              has_method = frame_method-HasMethod members name m;
            }
          ]
        ]
      ]
