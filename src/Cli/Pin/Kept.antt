-- ===== src/Cli/Pin/Kept.antt =====
-- What pin keeps of a lockfile.
use surfacelock.Prelude.{
  ◌≡◌, refl, ap, ◌∙◌, subst, inl, inr, Bool, true, false, ◌&&◌, some, List, [], ◌∷◌, arith,
  Bool-cases, Option-cases, All, Map, lookup, insert, lookup-insert,
}
use surfacelock.Prelude.Bytes.{Bytes, eq_bytes, eq_bytes_iff, eq_bytes_refl, contains}
use surfacelock.Prelude.Results.{ok, Result-cases}
use surfacelock.External.{External}
use surfacelock.Headers.{Headers}
use surfacelock.Surface.Admit.{Surface}
use surfacelock.Surface.Rollup.{surface_hash}
use surfacelock.Lockfile.Entry.{ServerLock, entry_from_surface}
use surfacelock.Client.Session.{Step, Peer}
use surfacelock.Cli.Exit.{exit_ok}
use surfacelock.Cli.Reflected.Guard.{IsUnseen}
use surfacelock.Cli.Select.{
  Document, read_lockfile, select_entries, refuses_headers, ref_from_entry, fetch_surface_of,
}
use surfacelock.Cli.Lock.{Platform, write_lockfile}
use surfacelock.Cli.Lock.Written.{write_lockfile_iff}
use surfacelock.Cli.Pin.{pin_entry, pin_entries, pin}

-- Both entries name the same upstream.
abbrev pub same_upstream : ServerLock → ServerLock → Bool
same_upstream a b = eq_bytes a.transport b.transport && eq_bytes a.target b.target

-- Every entry is still there and names the upstream that it named.
abbrev pub KeepsUpstreams : Map ServerLock → Map ServerLock → Type 0
KeepsUpstreams m after =
    (k : Bytes) (old : ServerLock)
    → lookup k m ≡ some old
    → (new : ServerLock) × (lookup k after ≡ some new) × (same_upstream new old ≡ true)

same_upstream_trans :
    (a b c : ServerLock)
    → same_upstream a b ≡ true
    → same_upstream b c ≡ true
    → same_upstream a c ≡ true
same_upstream_trans a b c h g = ground (
  arith,
  h,
  g,
  eq_bytes_iff a.transport b.transport,
  eq_bytes_iff b.transport c.transport,
  eq_bytes_iff a.target b.target,
  eq_bytes_iff b.target c.target,
  eq_bytes_refl a.transport,
  eq_bytes_refl a.target,
)

module _ ⦃ext : External⦄ where
  entry_from_surface-upstream :
      (old new : ServerLock) (live : Surface)
      → entry_from_surface old.transport old.target old.args live ≡ some new
      → same_upstream new old ≡ true
  unfolding entry_from_surface
  entry_from_surface-upstream old new live h =
      elim (Option-cases (surface_hash live.era live.h_instr live.tools)) [
        | inl e ↦ absurd (ground (arith, (rw (entry_from_surface, e) at h)))
        | inr (hash, e) ↦
            let out = rw (entry_from_surface, e) at h in
            let transport : old.transport ≡ new.transport = ground (arith, out) in
            let target : old.target ≡ new.target = ground (arith, out) in
            rw⁻¹ (transport, target) ground
              (arith, eq_bytes_refl old.transport, eq_bytes_refl old.target)
      ]

  pin_entry-upstream :
      (peer : Peer) (headers : Headers) (old new : ServerLock) (sent : List Step)
      → (pin_entry peer headers old sent).0 ≡ ok new
      → same_upstream new old ≡ true
  unfolding pin_entry
  pin_entry-upstream peer headers old new sent h =
      elim (Result-cases (fetch_surface_of peer (ref_from_entry old headers) sent).0) [
        | inr (e, eg) ↦ absurd (ground (arith, (rw (pin_entry, eg) at h)))
        | inl (live, eg) ↦
            elim (Option-cases (entry_from_surface old.transport old.target old.args live)) [
              | inl ee ↦ absurd (ground (arith, (rw (pin_entry, eg, ee) at h)))
              | inr (entry, ee) ↦
                  let is : entry ≡ new = ground (arith, (rw (pin_entry, eg, ee) at h)) in
                  entry_from_surface-upstream old new live (ee ∙ ap some is)
            ]
      ]

  -- An entry put in the place of one with the same upstream.
  KeepsUpstreams-insert :
      (m : Map ServerLock) (name : Bytes) (old new : ServerLock)
      → lookup name m ≡ some old
      → same_upstream new old ≡ true
      → KeepsUpstreams m (insert name new m)
  KeepsUpstreams-insert m name old new at same k e found = elim (Bool-cases (eq_bytes name k)) [
    | inl en ↦
        let here : lookup k m ≡ some old =
          subst (λ x. lookup x m ≡ some old) ((eq_bytes_iff name k).0 en) at in
        let is : old ≡ e = ground (arith, here, found) in
        (
          new,
          ground (arith, lookup-insert name k new m, en),
          subst (λ x. same_upstream new x ≡ true) is same,
        )
    | inr en ↦ (
      e,
      ground (arith, lookup-insert name k new m, en, found),
      ground (arith, eq_bytes_refl e.transport, eq_bytes_refl e.target),
    )
  ]

  KeepsUpstreams-trans :
      (a b c : Map ServerLock) → KeepsUpstreams a b → KeepsUpstreams b c → KeepsUpstreams a c
  KeepsUpstreams-trans a b c f g k old h =
      let (mid, at, same) = f k old h in
      let (new, at_end, still) = g k mid at in
      (new, at_end, same_upstream_trans new mid old still same)

  pin_entries-keeps :
      (peer : Peer) (headers : Headers) (m after : Map ServerLock) (sent : List Step)
      (names : List Bytes)
      → (pin_entries peer headers m sent names).0 ≡ ok after
      → ((k : Bytes) → contains names k ≡ false → lookup k after ≡ lookup k m)
        × KeepsUpstreams m after
  unfolding pin_entries contains
  pin_entries-keeps peer headers m after sent [] h =
      let is : m ≡ after = ground (arith, h) in
      subst
        (λ x. ((k : Bytes) → contains [] k ≡ false → lookup k x ≡ lookup k m) × KeepsUpstreams m x)
        is
        (
          (λ k n. refl),
          λ k e at. (e, at, ground (arith, eq_bytes_refl e.transport, eq_bytes_refl e.target)),
        )
  pin_entries-keeps peer headers m after sent (name ∷ names) h =
      elim (Option-cases (lookup name m)) [
        | inl e ↦
            let rest =
              pin_entries-keeps peer headers m after sent names (rw (pin_entries, e) at h) in
            ((λ k n. rest.0 k (ground (arith, n))), rest.1)
        | inr (old, e) ↦
            let r = pin_entry peer headers old sent in
            elim (Result-cases r.0) [
              | inr (code, er) ↦ absurd (ground (arith, (rw (pin_entries, e, er) at h)))
              | inl (entry, er) ↦
                  let next = insert name entry m in
                  let rest =
                    pin_entries-keeps peer headers next after r.1 names
                      (rw (pin_entries, e, er) at h) in
                  (
                    (λ k n.
                        rest.0 k (ground (arith, n))
                        ∙ ground (arith, n, lookup-insert name k entry m)),
                    KeepsUpstreams-trans m next after
                        (KeepsUpstreams-insert m name old entry e
                          (pin_entry-upstream peer headers old entry sent er))
                        rest.1,
                  )
            ]
      ]

  -- When pin has written the lockfile, it has read and validated it and exits with 0; the entries
  -- that were not selected are what they were, every entry is still there with its transport and
  -- its target, and the text holds no value of eight bytes or more of a header, neither as it is nor
  -- as JSON spells it.
  pub pin-keeps :
      (only : Bytes) (headers : Headers) (p : Platform) (peer : Peer) (file : Document)
      (sent : List Step) (after : Map ServerLock) (doc : Bytes)
      → (pin only headers p peer file sent).written ≡ some (after, doc)
      → (before : Map ServerLock) × (names : List Bytes) × (read_lockfile file ≡ ok before)
        × (select_entries only before ≡ ok names)
        × ((pin only headers p peer file sent).exit ≡ exit_ok)
        × ((k : Bytes) → contains names k ≡ false → lookup k after ≡ lookup k before)
        × KeepsUpstreams before after
        × All (IsUnseen doc) headers
  unfolding pin
  pin-keeps only headers p peer file sent after doc h = elim (Result-cases (read_lockfile file)) [
    | inr (e, er) ↦ absurd (ground (arith, (rw (pin, er) at h)))
    | inl (m, er) ↦ elim (Result-cases (select_entries only m)) [
      | inr (code, es) ↦ absurd (ground (arith, (rw (pin, er, es) at h)))
      | inl (names, es) ↦ elim (Bool-cases (refuses_headers headers m names)) [
        | inl eh ↦ absurd (ground (arith, (rw (pin, er, es, eh) at h)))
        | inr eh ↦ elim (Result-cases (pin_entries peer headers m sent names).0) [
          | inr (code, ep) ↦ absurd (ground (arith, (rw (pin, er, es, eh, ep) at h)))
          | inl (end, ep) ↦ elim (Option-cases (write_lockfile p headers end)) [
            | inl ew ↦ absurd (ground (arith, (rw (pin, er, es, eh, ep, ew) at h)))
            | inr (text, ew) ↦
                let out = rw (pin, er, es, eh, ep, ew) at h in
                let end_is : end ≡ after = ground (arith, out) in
                let text_is : text ≡ doc = ground (arith, out) in
                let kept = pin_entries-keeps peer headers m after sent names (ep ∙ ap ok end_is) in
                (
                  m,
                  names,
                  er,
                  es,
                  (rw (pin, er, es, eh, ep, ew) refl),
                  kept.0,
                  kept.1,
                  subst (λ d. All (IsUnseen d) headers) text_is
                      ((write_lockfile_iff p headers end text).0 ew).1,
                )
          ]
        ]
      ]
    ]
  ]
