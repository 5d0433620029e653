-- ===== src/Proxy/Verifier/Policy.antt =====
-- The drift policy: what `resolveDrift` lets through.
use surfacelock.Prelude.{◌≡◌, refl, ◌↔◌, Bool, true, false, List, [], ◌∷◌, arith, any, All}
use surfacelock.Proxy.Verifier.{Verifier, ToolDrift, has_new_prompt_text, resolve_drift}

-- No drift of the list carries new prompt text.
abbrev pub IsSilent : List ToolDrift → Type 0
IsSilent = All (λ d. has_new_prompt_text d ≡ false)

pub IsSilent-any : (ds : List ToolDrift) → any has_new_prompt_text ds ≡ false → IsSilent ds
IsSilent-any [] h = tt
IsSilent-any (d ∷ ds) h = ground (arith, IsSilent-any ds)

pub any-IsSilent : (ds : List ToolDrift) → IsSilent ds → any has_new_prompt_text ds ≡ false
any-IsSilent [] h = refl
any-IsSilent (d ∷ ds) h = ground (arith, any-IsSilent ds h.1)

-- Drift is forwarded exactly when the session runs under --warn, the server instructions did not
-- change, and no drifted tool carries new prompt text.
pub resolve_drift-forwards :
    (v : Verifier) (ds : List ToolDrift) (instructions_changed : Bool)
    → ((resolve_drift v ds instructions_changed).refuse ≡ false)
      ↔ ((v.warn ≡ true) × (instructions_changed ≡ false) × IsSilent ds)
unfolding resolve_drift
resolve_drift-forwards v ds i = (
  λ h. (ground arith, ground arith, IsSilent-any ds (ground arith)),
  λ h. ground (arith, any-IsSilent ds h.2),
)
