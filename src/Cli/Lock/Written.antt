-- ===== src/Cli/Lock/Written.antt =====
-- When a lockfile is written.
use surfacelock.Prelude.{◌≡◌, refl, ◌↔◌, subst, inl, inr, true, some, arith, Option-cases, Map, All}
use surfacelock.Prelude.Bytes.{Bytes}
use surfacelock.Headers.{Headers}
use surfacelock.Lockfile.Entry.{ServerLock}
use surfacelock.Cli.Reflected.{refuse_reflected_credential}
use surfacelock.Cli.Reflected.Guard.{IsUnseen, refuse_reflected_credential_iff}
use surfacelock.Cli.Lock.{Platform, write_lockfile}

-- A lockfile is written with a text exactly when the text is what Render makes of the entries, every
-- header's value of eight bytes or more stands nowhere in it, neither as it is nor as JSON spells
-- it, and the write succeeds.
pub write_lockfile_iff :
    (p : Platform) (headers : Headers) (m : Map ServerLock) (doc : Bytes)
    → (write_lockfile p headers m ≡ some doc)
      ↔ ((p.render m ≡ some doc) × All (IsUnseen doc) headers × (p.writes doc ≡ true))
unfolding write_lockfile
write_lockfile_iff p headers m doc = (
  λ h. elim (Option-cases (p.render m)) [
    | inl e ↦ absurd (ground (arith, h, e))
    | inr (text, e) ↦ elim (Option-cases (refuse_reflected_credential headers text)) [
      | inr (name, er) ↦ absurd (ground (arith, h, e, er))
      | inl er ↦
          let is : text ≡ doc = ground (arith, h, e, er) in
          (
            ground (arith, e, is),
            subst (λ d. All (IsUnseen d) headers) is
                ((refuse_reflected_credential_iff headers text).0 er),
            ground (arith, h, e, er, is),
          )
    ]
  ],
  λ (rendered, unseen, writes).
      let clear = (refuse_reflected_credential_iff headers doc).1 unseen in
      rw (write_lockfile, rendered, clear, writes) refl,
)
