-- ===== src/Cli/Exit/Order.antt =====
-- `worse` as the greater of two in an order of the exit codes.
use surfacelock.Prelude.{
  ℕ, ◌≤◌, ◌≡◌, refl, ◌⊎◌, inl, inr, Bool, arith, ltb, if◌then◌else◌, Bool-cases,
}
use surfacelock.Cli.Exit.{
  exit_ok, exit_drift, exit_transport, exit_inadmissible, exit_rank, worse, session_exit,
}

-- The worse of two codes is one of them, and no other is worse.
pub worse_lem :
    (a b : ℕ)
    → ((worse a b ≡ a) ⊎ (worse a b ≡ b))
      × (exit_rank a ≤ exit_rank (worse a b))
      × (exit_rank b ≤ exit_rank (worse a b))
unfolding worse
worse_lem a b = elim (Bool-cases (ltb (exit_rank a) (exit_rank b))) [
  | inl e ↦ rw (worse, e) (inr refl, ground arith, ground arith)
  | inr e ↦ rw (worse, e) (inl refl, ground arith, ground arith)
]

-- Only success has rank 0.
pub exit_rank-zero : (a : ℕ) → exit_rank a ≡ 0 → a ≡ exit_ok
unfolding exit_rank
exit_rank-zero a h = ground arith

-- A session of the proxy exits with the worst of what it saw, in the order in which a run over
-- several entries ranks its outcomes.
pub session_exit-worse :
    (drift transport inadmissible : Bool)
    → session_exit drift transport inadmissible
      ≡ worse (if drift then exit_drift else exit_ok) (
          worse
            (if transport then exit_transport else exit_ok)
            (if inadmissible then exit_inadmissible else exit_ok))
unfolding session_exit worse exit_rank
session_exit-worse drift transport inadmissible = ground arith
