-- ===== src/Headers/Rules.antt =====
-- Which headers `Headers.Validate` accepts, whatever the order of the map.
use surfacelock.Prelude.{
  ◌≡◌, refl, ap, ◌↔◌, Bool, true, false, not, ◌&&◌, none, some, [], ◌∷◌, arith, all, any, Map,
  lookup, insert, lookup-insert,
}
use surfacelock.Prelude.Bytes.{Bytes, eq_bytes, contains}
use surfacelock.Names.{is_control}
use surfacelock.Go.Text.{to_upper, trim_space}
use surfacelock.Headers.{
  Headers, reserved_names, valid_header_name, insert_entry, sorted_entries, check_entry,
  check_entries, validate_headers,
}

-- One header by itself: its name is a token that is not reserved, its value is neither blank nor
-- holds a control character.
abbrev pub is_safe : Bytes × Bytes → Bool
is_safe (name, value) =
    valid_header_name name
    && (not (contains reserved_names (to_upper name))
        && (not (any is_control value) && not (eq_bytes (trim_space value) [])))

-- Two names are not the same up to case.
abbrev pub differs : Bytes × Bytes → Bytes × Bytes → Bool
differs e f = not (eq_bytes (to_upper e.0) (to_upper f.0))

abbrev pub all_differ : Headers → Bool
all_differ [] = true
all_differ (e ∷ es) = all (differs e) es && all_differ es

eq_bytes_sym : (a b : Bytes) → eq_bytes a b ≡ eq_bytes b a
unfolding eq_bytes
eq_bytes_sym [] [] = refl
eq_bytes_sym [] (y ∷ b) = refl
eq_bytes_sym (x ∷ a) [] = refl
eq_bytes_sym (x ∷ a) (y ∷ b) = ground (arith, eq_bytes_sym a b)

differs_sym : (e f : Bytes × Bytes) → differs e f ≡ differs f e
differs_sym e f = ap not (eq_bytes_sym (to_upper e.0) (to_upper f.0))

all-insert_entry :
    (p : Bytes × Bytes → Bool) (e : Bytes × Bytes) (es : Headers)
    → all p (insert_entry e es) ≡ (p e && all p es)
unfolding insert_entry
all-insert_entry p e [] = refl
all-insert_entry p e (f ∷ fs) = ground (arith, all-insert_entry p e fs)

pub all-sorted_entries :
    (p : Bytes × Bytes → Bool) (es : Headers) → all p (sorted_entries es) ≡ all p es
unfolding sorted_entries
all-sorted_entries p [] = refl
all-sorted_entries p (e ∷ es) =
    rw (all-insert_entry p e (sorted_entries es), all-sorted_entries p es) refl

all_differ-insert_entry :
    (e : Bytes × Bytes) (es : Headers)
    → all_differ (insert_entry e es) ≡ (all (differs e) es && all_differ es)
unfolding insert_entry
all_differ-insert_entry e [] = refl
all_differ-insert_entry e (f ∷ fs) =
    ground (arith, all_differ-insert_entry e fs, all-insert_entry (differs f) e fs, differs_sym e f)

all_differ-sorted_entries : (es : Headers) → all_differ (sorted_entries es) ≡ all_differ es
unfolding sorted_entries
all_differ-sorted_entries [] = refl
all_differ-sorted_entries (e ∷ es) =
    rw
      (
        all_differ-insert_entry e (sorted_entries es),
        all_differ-sorted_entries es,
        all-sorted_entries (differs e) es,
      )
      refl

-- The header's name was not seen before.
abbrev is_new : Map Bytes → Bytes × Bytes → Bool
is_new seen e = elim (lookup (to_upper e.0) seen) [ none ↦ true | some n ↦ false ]

check_entry_lem :
    (seen : Map Bytes) (e : Bytes × Bytes)
    → (check_entry seen e ≡ none) ↔ ((is_safe e && is_new seen e) ≡ true)
unfolding check_entry valid_header_name eq_bytes
check_entry_lem seen ([], value) = ground arith
check_entry_lem seen (c ∷ name, value) = ground arith

-- What is new after a header was seen.
is_new-insert :
    (seen : Map Bytes) (e : Bytes × Bytes) (es : Headers)
    → all (is_new (insert (to_upper e.0) e.0 seen)) es
      ≡ (all (is_new seen) es && all (differs e) es)
is_new-insert seen e [] = refl
is_new-insert seen e (f ∷ fs) =
    ground (arith, is_new-insert seen e fs, lookup-insert (to_upper e.0) (to_upper f.0) e.0 seen)

check_entries_lem :
    (seen : Map Bytes) (es : Headers)
    → (check_entries seen es ≡ none)
      ↔ ((all is_safe es && (all (is_new seen) es && all_differ es)) ≡ true)
unfolding check_entries
check_entries_lem seen [] = ((λ h. refl), λ h. refl)
check_entries_lem seen (e ∷ es) =
    let rest = check_entries_lem (insert (to_upper e.0) e.0 seen) es in
    ground (arith, check_entry_lem seen e, rest, is_new-insert seen e es)

all_new : (es : Headers) → all (is_new []) es ≡ true
unfolding lookup
all_new [] = refl
all_new (e ∷ es) = all_new es

-- Headers are accepted exactly when every name is a token that the protocol does not own, every
-- value is neither blank nor holds a control character such as CR or LF, and no two names are the
-- same up to case. The order of the entries plays no part.
pub validate_headers_iff :
    (h : Headers) → (validate_headers h ≡ none) ↔ ((all is_safe h ≡ true) × (all_differ h ≡ true))
unfolding validate_headers
validate_headers_iff h = ground (
  arith,
  check_entries_lem [] (sorted_entries h),
  all-sorted_entries is_safe h,
  all_differ-sorted_entries h,
  all_new (sorted_entries h),
)
