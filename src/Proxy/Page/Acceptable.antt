-- ===== src/Proxy/Page/Acceptable.antt =====
-- The drifts and the tools of a page that is let through.
use surfacelock.Prelude.{
  ◌≡◌, refl, ◌⊎◌, inl, inr, Bool, true, false, some, List, [], ◌∷◌, ◌++◌, arith, Bool-cases,
  Option-cases, any, lookup,
}
use surfacelock.Prelude.Bytes.{eq_bytes, eq_bytes_iff}
use surfacelock.External.{External}
use surfacelock.Diff.Class.{Class}
use surfacelock.Diff.Classify.{classify, safety_or_display_changed}
use surfacelock.Surface.Tool.{Tool}
use surfacelock.Lockfile.Entry.{ToolLock}
use surfacelock.Proxy.Verifier.{Verifier, ToolDrift, has_new_prompt_text, is_prompt_class}
use surfacelock.Proxy.Verifier.Policy.{IsSilent}
use surfacelock.Proxy.Page.{tool_drift}

-- The drifts of a page that is let through: none, or silent ones under --warn.
abbrev pub Tolerated : Verifier → List ToolDrift → Type 0
Tolerated v ds = IsSilent ds × ((ds ≡ []) ⊎ (v.warn ≡ true))

append-nil_left : (ds es : List ToolDrift) → ds ++ es ≡ [] → ds ≡ []
append-nil_left [] es h = refl
append-nil_left (d ∷ ds) es h = cc

append-nil_right : (ds es : List ToolDrift) → ds ++ es ≡ [] → es ≡ []
append-nil_right [] es h = h
append-nil_right (d ∷ ds) es h = cc

IsSilent-append_left : (ds es : List ToolDrift) → IsSilent (ds ++ es) → IsSilent ds
IsSilent-append_left [] es h = tt
IsSilent-append_left (d ∷ ds) es h = (h.0, IsSilent-append_left ds es h.1)

IsSilent-append_right : (ds es : List ToolDrift) → IsSilent (ds ++ es) → IsSilent es
IsSilent-append_right [] es h = h
IsSilent-append_right (d ∷ ds) es h = IsSilent-append_right ds es h.1

pub Tolerated-left :
    (v : Verifier) (ds es : List ToolDrift) → Tolerated v (ds ++ es) → Tolerated v ds
Tolerated-left v ds es (s, inl e) = (IsSilent-append_left ds es s, inl (append-nil_left ds es e))
Tolerated-left v ds es (s, inr w) = (IsSilent-append_left ds es s, inr w)

pub Tolerated-right :
    (v : Verifier) (ds es : List ToolDrift) → Tolerated v (ds ++ es) → Tolerated v es
Tolerated-right v ds es (s, inl e) = (IsSilent-append_right ds es s, inl (append-nil_right ds es e))
Tolerated-right v ds es (s, inr w) = (IsSilent-append_right ds es s, inr w)

module _ ⦃ext : External⦄ where
  -- A change that --warn lets through: no class of it is prompt text, and neither the annotations
  -- nor a title changed.
  pub record IsSilentChange (v : Verifier) (pin : ToolLock) (t : Tool) : Type 0 where
    pub warned : v.warn ≡ true
    pub classes : List Class
    pub classified : classify pin.tool t.canon ≡ some classes
    pub silent : any is_prompt_class classes ≡ false
    pub steady : safety_or_display_changed pin.tool t.canon ≡ some false

  -- The lock pins a tool of this name, and the served tool is the pinned one or a silent change
  -- of it.
  pub record Acceptable (v : Verifier) (t : Tool) : Type 0 where
    pub pin : ToolLock
    pub pinned : lookup t.name v.lock_tools ≡ some pin
    pub change : (pin.h_tool ≡ t.h_tool) ⊎ IsSilentChange v pin t

  changed-Acceptable :
      (v : Verifier) (t : Tool) (pin : ToolLock) (classes : List Class) (safety : Bool)
      (d : List ToolDrift)
      → lookup t.name v.lock_tools ≡ some pin
      → classify pin.tool t.canon ≡ some classes
      → safety_or_display_changed pin.tool t.canon ≡ some safety
      → d ≡ record { name = t.name; classes = classes; safety_or_display = safety } ∷ []
      → Tolerated v d
      → Acceptable v t
  unfolding has_new_prompt_text
  changed-Acceptable v t pin classes true d p c s e h = absurd (ground arith)
  changed-Acceptable v t pin classes false d p c s e h = record {
    pin = pin;
    pinned = p;
    change = inr (record {
      warned = ground arith;
      classes = classes;
      classified = c;
      silent = ground arith;
      steady = s;
    });
  }

  pub tool_drift-Acceptable :
      (v : Verifier) (t : Tool) (d : List ToolDrift)
      → tool_drift v t ≡ some d
      → Tolerated v d
      → Acceptable v t
  unfolding tool_drift has_new_prompt_text
  tool_drift-Acceptable v t d e h = elim (Option-cases (lookup t.name v.lock_tools)) [
    | inl l ↦ absurd (ground arith)
    | inr (pin, l) ↦ elim (Bool-cases (eq_bytes pin.h_tool t.h_tool)) [
      | inl same ↦ record {
        pin = pin;
        pinned = l;
        change = inl ((eq_bytes_iff pin.h_tool t.h_tool).0 same);
      }
      | inr differs ↦ elim (Option-cases (classify pin.tool t.canon)) [
        | inl c ↦ absurd (ground arith)
        | inr (classes, c) ↦ elim (Option-cases (safety_or_display_changed pin.tool t.canon)) [
          | inl s ↦ absurd (ground arith)
          | inr (safety, s) ↦ changed-Acceptable v t pin classes safety d l c s (ground arith) h
        ]
      ]
    ]
  ]
