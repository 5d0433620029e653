-- ===== src/Proxy/Verifier.antt =====
-- proxy/verify.go: the verifier's state, verdicts, and the drift policy (`resolveDrift`).
pub mod Policy
use surfacelock.Prelude.{
  ℕ, Bool, true, false, not, ◌&&◌, ◌||◌, List, [], ◌∷◌, if◌then◌else◌, any, Map,
}
use surfacelock.Prelude.Bytes.{Bytes}
use surfacelock.Diff.Class.{Class, description, added}
use surfacelock.Surface.Tool.{Limits}
use surfacelock.Lockfile.Entry.{ServerLock, ToolLock, tools_of}
use surfacelock.Diff.Surfaces.{old_by_name}

-- The proxy's JSON-RPC error codes, without their sign: 32050 stands for -32050.
abbrev pub code_drift_refused : ℕ
code_drift_refused = 32050

abbrev pub code_inadmissible_refused : ℕ
code_inadmissible_refused = 32051

abbrev pub code_transport_failed : ℕ
code_transport_failed = 32052

abbrev pub code_proxy_refused : ℕ
code_proxy_refused = 32053

abbrev pub code_call_refused : ℕ
code_call_refused = 32054

-- verifier; `callable` holds the keys of the set.
pub record Verifier : Type 0 where
  pub entry : ServerLock
  pub name : Bytes
  pub warn : Bool
  pub lim : Limits
  pub lock_tools : Map ToolLock
  pub handshake_era : Bytes
  pub ever_clean : Bool
  pub callable : List Bytes
  pub next_enum_id : ℕ

-- newVerifier
unfoldable pub new_verifier : ServerLock → Bytes → Bool → Limits → Verifier
unfolding old_by_name
new_verifier entry name warn lim = record {
  entry = entry;
  name = name;
  warn = warn;
  lim = lim;
  lock_tools = old_by_name [] (tools_of entry);
  handshake_era = [];
  ever_clean = false;
  callable = [];
  next_enum_id = 0;
}

-- The finding lines, by kind; `drift_warned` and `drift_refused` say whether mid-session.
pub data Finding : Type 0 where
  inadmissible_refused verified_handshake verified_partial verified_complete : Finding
  complete_under_warn complete_under_warned_drift cursor_tracking_full : Finding
  drift_warned drift_refused : Bool → Finding

-- verdict; the texts of the message are left out.
pub record Verdict : Type 0 where
  pub refuse : Bool
  pub code : ℕ
  pub findings : List Finding
  pub drift : Bool
  pub inadmissible : Bool

-- forwardVerdict
unfoldable pub forward_verdict : List Finding → Verdict
forward_verdict fs = record {
  refuse = false;
  code = 0;
  findings = fs;
  drift = false;
  inadmissible = false;
}

-- inadmissibleVerdict
unfoldable pub inadmissible_verdict : Verdict
inadmissible_verdict = record {
  refuse = true;
  code = code_inadmissible_refused;
  findings = inadmissible_refused ∷ [];
  drift = false;
  inadmissible = true;
}

-- toolDrift
pub record ToolDrift : Type 0 where
  pub name : Bytes
  pub classes : List Class
  pub safety_or_display : Bool

abbrev pub is_prompt_class : Class → Bool
is_prompt_class description = true
is_prompt_class added = true
is_prompt_class _ = false

-- hasNewPromptText
unfoldable pub has_new_prompt_text : ToolDrift → Bool
has_new_prompt_text d = d.safety_or_display || any is_prompt_class d.classes

-- resolveDrift
unfoldable pub resolve_drift : Verifier → List ToolDrift → Bool → Verdict
unfolding has_new_prompt_text
resolve_drift v drifts instructions_changed =
    let new_prompt = instructions_changed || any has_new_prompt_text drifts in
    if v.warn && not new_prompt
    then record {
      refuse = false;
      code = 0;
      findings = drift_warned v.ever_clean ∷ [];
      drift = true;
      inadmissible = false;
    }
    else record {
      refuse = true;
      code = code_drift_refused;
      findings = drift_refused v.ever_clean ∷ [];
      drift = true;
      inadmissible = false;
    }

-- revokeCalls
unfoldable pub revoke_calls : Verifier → Verifier
revoke_calls v = record v { callable = [] }
