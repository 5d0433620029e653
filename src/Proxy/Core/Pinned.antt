-- ===== src/Proxy/Core/Pinned.antt =====
-- Which tools can become callable without --warn.
use surfacelock.Prelude.{
  ◌≡◌, sym, ◌∙◌, subst, inl, inr, true, false, some, List, [], ◌∷◌, arith, Bool-cases, All,
  All-append, Map, lookup,
}
use surfacelock.Prelude.Bytes.{Bytes, eq_bytes, eq_bytes_iff, contains}
use surfacelock.Prelude.Results.{Result-cases}
use surfacelock.External.{External}
use surfacelock.Lockfile.Entry.{ToolLock}
use surfacelock.Surface.Tool.{Tool}
use surfacelock.Proxy.Frame.{Frame, FrameError, not_object, parse_frame}
use surfacelock.Proxy.Verifier.{Verifier, revoke_calls}
use surfacelock.Proxy.Enumeration.{Enumeration}
use surfacelock.Proxy.Page.{verify_tools_page}
use surfacelock.Proxy.Page.Acceptable.{Acceptable}
use surfacelock.Proxy.Page.Listing.{names}
use surfacelock.Proxy.Page.Served.{verify_tools_page-serves, check_tools_page-Keeps}
use surfacelock.Proxy.State.{Core, Sent}
use surfacelock.Proxy.Requests.{
  forward_upstream, admit_request, client_request, handle_client_frame,
}
use surfacelock.Proxy.Core.{drop_frame}
use surfacelock.Proxy.Core.Session.{Prepares, admit_request-Prepares}

-- The lock pins a tool of this name.
abbrev pub IsPinned : Map ToolLock → Bytes → Type 0
IsPinned lock name = (pin : ToolLock) × (lookup name lock ≡ some pin)

pub record IsStrict (lock : Map ToolLock) (v : Verifier) : Type 0 where
  pub strict : v.warn ≡ false
  pub locked : v.lock_tools ≡ lock
  pub pinned : All (IsPinned lock) v.callable

pub contains-IsPinned :
    (lock : Map ToolLock) (ns : List Bytes) (name : Bytes)
    → All (IsPinned lock) ns
    → contains ns name ≡ true
    → IsPinned lock name
unfolding contains
contains-IsPinned lock [] name h c = absurd (ground arith)
contains-IsPinned lock (n ∷ ns) name h c = elim (Bool-cases (eq_bytes n name)) [
  | inl e ↦ subst (IsPinned lock) ((eq_bytes_iff n name).0 e) h.0
  | inr e ↦ contains-IsPinned lock ns name h.1 (ground arith)
]

pub prepared-IsStrict :
    (lock : Map ToolLock) (c d : Core)
    → Prepares c d
    → IsStrict lock c.verifier
    → IsStrict lock d.verifier
prepared-IsStrict lock c d p s = record {
  strict = p.warn ∙ s.strict;
  locked = p.lock_tools ∙ s.locked;
  pinned = elim p.callable [
    | inl same ↦ subst (All (IsPinned lock)) (sym same) s.pinned
    | inr gone ↦ subst (All (IsPinned lock)) (sym gone) tt
  ];
}

pub drop_frame-IsStrict :
    (lock : Map ToolLock) (c : Core) (e : FrameError)
    → IsStrict lock c.verifier
    → IsStrict lock (drop_frame c e).verifier
unfolding drop_frame revoke_calls
drop_frame-IsStrict lock c not_object s = s
drop_frame-IsStrict lock c _ s = record { strict = s.strict; locked = s.locked; pinned = tt }

module _ ⦃ext : External⦄ where
  Acceptable-IsPinned :
      (v : Verifier) (ts : List Tool)
      → All (Acceptable v) ts
      → All (IsPinned v.lock_tools) (names ts)
  Acceptable-IsPinned v [] h = tt
  Acceptable-IsPinned v (t ∷ ts) h = ((h.0.pin, h.0.pinned), Acceptable-IsPinned v ts h.1)

  client_request-IsStrict :
      (lock : Map ToolLock) (c : Core) (sent : Sent) (f : Frame)
      → IsStrict lock c.verifier
      → IsStrict lock (client_request c sent f).0.verifier
  unfolding client_request forward_upstream
  client_request-IsStrict lock c sent f s =
      let after = prepared-IsStrict lock c (admit_request c f).0 (admit_request-Prepares c f) s in
      elim (Result-cases (admit_request c f).1) [
        | inl (req, a) ↦ rw (a, client_request) (ground (arith, after))
        | inr (code, a) ↦ rw (a, client_request) (ground (arith, after))
      ]

  pub client-IsStrict :
      (lock : Map ToolLock) (c : Core) (sent : Sent) (line : Bytes)
      → IsStrict lock c.verifier
      → IsStrict lock (handle_client_frame c sent line).0.verifier
  unfolding handle_client_frame forward_upstream
  client-IsStrict lock c sent line s = elim (Result-cases (parse_frame line)) [
    | inr (e, p) ↦ rw (p, handle_client_frame) s
    | inl (f, p) ↦
        rw (p, handle_client_frame) (ground (arith, client_request-IsStrict lock c sent f s))
  ]

  pub page-keeps :
      (v : Verifier) (en : Enumeration) (result : Bytes)
      → let w = (verify_tools_page v en result).verifier in
        (w.warn ≡ v.warn) × (w.lock_tools ≡ v.lock_tools)
  unfolding verify_tools_page
  page-keeps v en result =
      let kept = check_tools_page-Keeps v (record en { page_tools = [] }) result in
      (ground (arith, kept), ground (arith, kept))

  refused-keeps :
      (v : Verifier) (en : Enumeration) (result : Bytes)
      → (verify_tools_page v en result).verdict.refuse ≡ true
      → (verify_tools_page v en result).verifier.callable ≡ v.callable
  unfolding verify_tools_page
  refused-keeps v en result r =
      ground (arith, check_tools_page-Keeps v (record en { page_tools = [] }) result)

  pub page-IsPinned :
      (v : Verifier) (en : Enumeration) (result : Bytes)
      → All (IsPinned v.lock_tools) v.callable
      → All (IsPinned v.lock_tools) (verify_tools_page v en result).verifier.callable
  page-IsPinned v en result h = elim (Bool-cases (verify_tools_page v en result).verdict.refuse) [
    | inl r ↦ rw (refused-keeps v en result r) h
    | inr r ↦
        let (s, _, good, joined) = verify_tools_page-serves v en result r in
        rw joined (
          All-append (IsPinned v.lock_tools) (names s.tools) v.callable
            (Acceptable-IsPinned v s.tools good) h)
  ]
