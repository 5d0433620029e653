-- ===== src/Cli/Flags/Kept.antt =====
-- No flag's header is lost.
use surfacelock.Prelude.{
  ◌≡◌, subst, inl, inr, true, Option, none, some, List, [], ◌∷◌, arith, Bool-cases, Option-cases,
  All, lookup, lookup-insert,
}
use surfacelock.Prelude.Bytes.{Bytes, eq_bytes, eq_bytes_iff, eq_bytes_refl, contains}
use surfacelock.Prelude.Results.{Result, ok, >>=-eq-ok, Result-cases}
use surfacelock.Go.Text.{cut, trim_space}
use surfacelock.Headers.{validate_headers}
use surfacelock.Cli.Flags.{
  FlagError, Parsing, canonical_name, add_header, parse_literal, parse_from_env, parse_each,
  parse_headers,
}

-- The header has the value and its name is taken.
record IsHeld (name value : Bytes) (p : Parsing) : Type 0 where
  held : lookup name p.headers ≡ some value
  taken : contains p.seen (canonical_name name) ≡ true

add_header-new :
    (p q : Parsing) (name value : Bytes)
    → add_header p name value ≡ ok q
    → IsHeld (trim_space name) value q
unfolding add_header contains
add_header-new p q name value h =
    let trimmed = trim_space name in
    record {
      held =
          ground (arith, h, lookup-insert trimmed trimmed value p.headers, eq_bytes_refl trimmed);
      taken = ground (arith, h, eq_bytes_refl (canonical_name trimmed));
    }

add_header-IsHeld :
    (p q : Parsing) (name value k v : Bytes)
    → add_header p name value ≡ ok q
    → IsHeld k v p
    → IsHeld k v q
unfolding add_header contains
add_header-IsHeld p q name value k v h kept =
    let trimmed = trim_space name in
    record {
      held = elim (Bool-cases (eq_bytes trimmed k)) [
        | inl e ↦
            let clash : contains p.seen (canonical_name trimmed) ≡ true =
              rw ((eq_bytes_iff trimmed k).0 e) kept.taken in
            absurd (ground (arith, h, clash))
        | inr e ↦ ground (arith, h, e, kept.held, lookup-insert trimmed k value p.headers)
      ];
      taken = ground (arith, h, kept.taken);
    }

-- A --header that is taken: what stands before and behind its colon, and what `add` makes of it.
record IsTaken (p q : Parsing) (s : Bytes) : Type 0 where
  name : Bytes
  value : Bytes
  added : Parsing
  split : cut b':' s ≡ some (name, value)
  adds : add_header p name (trim_space value) ≡ ok added
  same_headers : q.headers ≡ added.headers
  same_seen : q.seen ≡ added.seen

parse_literal-IsTaken : (p q : Parsing) (s : Bytes) → parse_literal p s ≡ ok q → IsTaken p q s
unfolding parse_literal
parse_literal-IsTaken p q s h = elim (Option-cases (cut b':' s)) [
  | inl e ↦ absurd (ground (arith, h, e))
  | inr ((name, value), e) ↦ elim (Result-cases (add_header p name (trim_space value))) [
    | inr (problem, ea) ↦ absurd (ground (arith, h, e, ea))
    | inl (r, ea) ↦ record {
      name = name;
      value = value;
      added = r;
      split = e;
      adds = ea;
      same_headers = ground (arith, h, e, ea);
      same_seen = ground (arith, h, e, ea);
    }
  ]
]

-- What is held stays, where the headers and the names taken are the same.
IsHeld-same :
    (name value : Bytes) (p q : Parsing)
    → q.headers ≡ p.headers
    → q.seen ≡ p.seen
    → IsHeld name value p
    → IsHeld name value q
IsHeld-same name value p q eh es held = record {
  held = rw (eh) held.held;
  taken = rw (es) held.taken;
}

-- The value of the flag is held under its name.
abbrev pub IsKept : Parsing → Bytes → Type 0
IsKept q s =
    (name : Bytes) × (value : Bytes) × (cut b':' s ≡ some (name, value))
    × (lookup (trim_space name) q.headers ≡ some (trim_space value))

-- Over the flags of one kind, what is held stays.
parse_each-IsHeld :
    (turn : Parsing → Bytes → Result FlagError Parsing) (k v : Bytes)
    → ((p q : Parsing) (s : Bytes) → turn p s ≡ ok q → IsHeld k v p → IsHeld k v q)
    → (p q : Parsing) (ss : List Bytes) → parse_each turn p ss ≡ ok q
    → IsHeld k v p
    → IsHeld k v q
unfolding parse_each
parse_each-IsHeld turn k v step p q [] h held = subst (IsHeld k v) (ground (arith, h)) held
parse_each-IsHeld turn k v step p q (s ∷ ss) h held =
    let (r, one, rest) = >>=-eq-ok (turn p s) (λ x. parse_each turn x ss) h in
    parse_each-IsHeld turn k v step r q ss rest (step p r s one held)

literal-IsHeld :
    (k v : Bytes) (p q : Parsing) (s : Bytes)
    → parse_literal p s ≡ ok q
    → IsHeld k v p
    → IsHeld k v q
literal-IsHeld k v p q s h held =
    let t = parse_literal-IsTaken p q s h in
    IsHeld-same k v t.added q t.same_headers t.same_seen
      (add_header-IsHeld p t.added t.name (trim_space t.value) k v t.adds held)

from_env-IsHeld :
    (lookup_env : Bytes → Option Bytes) (k v : Bytes) (p q : Parsing) (s : Bytes)
    → parse_from_env lookup_env p s ≡ ok q
    → IsHeld k v p
    → IsHeld k v q
unfolding parse_from_env
from_env-IsHeld lookup_env k v p q s h held = elim (Option-cases (cut b':' s)) [
  | inl e ↦ absurd (ground (arith, h, e))
  | inr ((name, after), e) ↦ elim (Bool-cases (eq_bytes (trim_space after) [])) [
    | inl en ↦ absurd (ground (arith, h, e, en))
    | inr en ↦ elim (Option-cases (lookup_env (trim_space after))) [
      | inl ev ↦ absurd (ground (arith, h, e, en, ev))
      | inr (value, ev) ↦ elim (Bool-cases (eq_bytes value [])) [
        | inl ew ↦ absurd (ground (arith, h, e, en, ev, ew))
        | inr ew ↦
            add_header-IsHeld p q name value k v (rw (parse_from_env, e, en, ev, ew) at h) held
      ]
    ]
  ]
]

-- From each flag on: the flags before it are held at the end.
literals-Kept :
    (p q : Parsing) (ss : List Bytes)
    → parse_each parse_literal p ss ≡ ok q
    → All
        (λ s.
          (name : Bytes) × (value : Bytes) × (cut b':' s ≡ some (name, value))
          × IsHeld (trim_space name) (trim_space value) q)
        ss
unfolding parse_each
literals-Kept p q [] h = tt
literals-Kept p q (s ∷ ss) h =
    let (r, one, rest) = >>=-eq-ok (parse_literal p s) (λ x. parse_each parse_literal x ss) h in
    let t = parse_literal-IsTaken p r s one in
    let now =
      IsHeld-same (trim_space t.name) (trim_space t.value) t.added r t.same_headers t.same_seen
        (add_header-new p t.added t.name (trim_space t.value) t.adds) in
    let kept =
      parse_each-IsHeld parse_literal (trim_space t.name) (trim_space t.value)
        (literal-IsHeld (trim_space t.name) (trim_space t.value)) r q ss rest now in
    ((t.name, t.value, t.split, kept), literals-Kept r q ss rest)

Kept-All :
    (lookup_env : Bytes → Option Bytes) (p q : Parsing) (from_env ss : List Bytes)
    → parse_each (parse_from_env lookup_env) p from_env ≡ ok q
    → All
        (λ s.
          (name : Bytes) × (value : Bytes) × (cut b':' s ≡ some (name, value))
          × IsHeld (trim_space name) (trim_space value) p)
        ss
    → All (IsKept q) ss
Kept-All lookup_env p q from_env [] h held = tt
Kept-All lookup_env p q from_env (s ∷ ss) h ((name, value, split, held), more) =
    let kept =
      parse_each-IsHeld (parse_from_env lookup_env) (trim_space name) (trim_space value)
        (from_env-IsHeld lookup_env (trim_space name) (trim_space value)) p q from_env h held in
    ((name, value, split, kept.held), Kept-All lookup_env p q from_env ss h more)

-- When the header flags are accepted, the headers pass Headers.Validate, and every --header is
-- among them: under its trimmed name stands its trimmed value, which no other flag has replaced.
pub parse_headers-Kept :
    (lookup_env : Bytes → Option Bytes) (literal from_env : List Bytes) (q : Parsing)
    → parse_headers lookup_env literal from_env ≡ ok q
    → (validate_headers q.headers ≡ none) × All (IsKept q) literal
unfolding parse_headers
parse_headers-Kept lookup_env literal from_env q h =
    let start : Parsing = record { headers = []; seen = []; warned = [] } in
    elim (Result-cases (parse_each parse_literal start literal)) [
      | inr (e, ep) ↦ absurd (ground (arith, rw (parse_headers, ep) at h))
      | inl (p, ep) ↦ elim (Result-cases (parse_each (parse_from_env lookup_env) p from_env)) [
        | inr (e, eq) ↦ absurd (ground (arith, rw (parse_headers, ep, eq) at h))
        | inl (r, eq) ↦ elim (Option-cases (validate_headers r.headers)) [
          | inr (e, ev) ↦ absurd (ground (arith, ev, (rw (parse_headers, ep, eq) at h)))
          | inl ev ↦
              let is : r ≡ q = ground (arith, ev, (rw (parse_headers, ep, eq) at h)) in
              subst (λ x. (validate_headers x.headers ≡ none) × All (IsKept x) literal) is
                (ev, Kept-All lookup_env p r from_env literal eq (literals-Kept start p literal ep))
        ]
      ]
    ]
