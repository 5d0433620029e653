-- ===== src/Cli/Lock/Added.antt =====
-- What lock adds to a lockfile.
use surfacelock.Prelude.{
  ◌≡◌, subst, inl, inr, true, false, none, some, List, [], arith, if◌then◌else◌, Option-cases, Map,
  All, lookup, insert, lookup-insert,
}
use surfacelock.Prelude.Bytes.{Bytes, eq_bytes}
use surfacelock.Prelude.Results.{ok, Result-cases}
use surfacelock.External.{External}
use surfacelock.Surface.Admit.{Surface}
use surfacelock.Lockfile.Entry.{ServerLock, entry_from_surface}
use surfacelock.Diff.Class.{SurfaceDiff, is_empty}
use surfacelock.Diff.Surfaces.{diff}
use surfacelock.Diff.Surfaces.Locked.{diff-entry_from_surface}
use surfacelock.Client.Session.{Step, Peer}
use surfacelock.Cli.Reflected.Guard.{IsUnseen}
use surfacelock.Cli.Lock.Written.{write_lockfile_iff}
use surfacelock.Cli.Select.{Document, fetch_surface_of}
use surfacelock.Cli.Compare.{Options}
use surfacelock.Cli.Lock.{
  Platform, TargetFlags, Target, write_lockfile, target_ref, read_or_new, lock_target, lock,
}

module _ ⦃ext : External⦄ where
  -- What lock has written is the lockfile before it and one entry: its name was free, it is made of
  -- a surface that was fetched and admitted and from which it has no drift, and no header's value
  -- of eight bytes or more stands in the text.
  pub record IsAdded (c : Options) (peer : Peer) (t : Target) (sent : List Step) (name : Bytes)
      (before after : Map ServerLock) (doc : Bytes) : Type 0 where
    pub entry : ServerLock
    pub live : Surface
    pub served : (fetch_surface_of peer t.ref sent).0 ≡ ok live
    pub made : entry_from_surface t.ref.transport t.target t.args live ≡ some entry
    pub grown : after ≡ insert name entry before
    pub clean : (d : SurfaceDiff) × (diff entry live ≡ some d) × (is_empty d ≡ true)
    pub unreflected : All (IsUnseen doc) c.headers

  lock_target-IsAdded :
      (c : Options) (p : Platform) (peer : Peer) (t : Target) (name : Bytes)
      (m after : Map ServerLock) (sent : List Step) (doc : Bytes)
      → (lock_target c p peer t name m sent).written ≡ some (after, doc)
      → IsAdded c peer t sent name m after doc
  unfolding lock_target
  lock_target-IsAdded c p peer t name m after sent doc h =
      elim (Result-cases (fetch_surface_of peer t.ref sent).0) [
        | inr (e, eg) ↦ absurd (ground (arith, rw (lock_target, eg) at h))
        | inl (live, eg) ↦
            elim (Option-cases (entry_from_surface t.ref.transport t.target t.args live)) [
              | inl ee ↦ absurd (ground (arith, (rw (lock_target, eg, ee) at h)))
              | inr (entry, ee) ↦
                  elim (Option-cases (write_lockfile p c.headers (insert name entry m))) [
                    | inl ew ↦ absurd (ground (arith, (rw (lock_target, eg, ee, ew) at h)))
                    | inr (text, ew) ↦
                        let out = rw (lock_target, eg, ee, ew) at h in
                        let same_text : text ≡ doc = ground (arith, out) in
                        record {
                          entry = entry;
                          live = live;
                          served = eg;
                          made = ee;
                          grown = ground (arith, out);
                          clean =
                              diff-entry_from_surface t.ref.transport t.target t.args live entry ee;
                          unreflected =
                              subst (λ d. All (IsUnseen d) c.headers) same_text
                                ((write_lockfile_iff p c.headers (insert name entry m) text).0
                                  ew).1;
                        }
                  ]
            ]
      ]

  -- When lock has written the lockfile, it held no entry of the new name before; every other entry
  -- is the one it was; the new one is made of a surface that was fetched and admitted, from which
  -- it has no drift; and the text holds no value of eight bytes or more of a header, neither as it is
  -- nor as JSON spells it.
  pub lock-adds :
      (c : Options) (p : Platform) (f : TargetFlags) (peer : Peer) (file : Document)
      (sent : List Step) (after : Map ServerLock) (doc : Bytes)
      → (lock c p f peer file sent).written ≡ some (after, doc)
      → (t : Target) × (name : Bytes) × (before : Map ServerLock) × (target_ref p f c.headers
          ≡ ok t)
        × (read_or_new file ≡ ok before)
        × (lookup name before ≡ none)
        × ((k : Bytes) → eq_bytes name k ≡ false → lookup k after ≡ lookup k before)
        × IsAdded c peer t sent name before after doc
  unfolding lock
  lock-adds c p f peer file sent after doc h = elim (Result-cases (target_ref p f c.headers)) [
    | inr (e, et) ↦ absurd (ground (arith, rw (lock, et) at h))
    | inl (t, et) ↦ elim (Result-cases (read_or_new file)) [
      | inr (e, er) ↦ absurd (ground (arith, rw (lock, et, er) at h))
      | inl (m, er) ↦
          let name = if eq_bytes c.name [] then t.default_name else c.name in
          elim (Option-cases (lookup name m)) [
            | inr (old, el) ↦ absurd (ground (arith, (rw (lock, et, er, el) at h)))
            | inl el ↦
                let added =
                  lock_target-IsAdded c p peer t name m after sent doc
                    (rw (lock, et, er, el) at h) in
                (
                  t,
                  name,
                  m,
                  et,
                  er,
                  el,
                  (λ k other.
                      rw (added.grown) (ground (arith, lookup-insert name k added.entry m, other))),
                  added,
                )
          ]
    ]
  ]
