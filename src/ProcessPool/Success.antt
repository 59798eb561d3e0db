-- ===== src/ProcessPool/Success.antt =====
-- What an exit status of 0 says.
use phxargs.Base.{ℕ, ◌≡◌, refl, ap, false, List, [], ◌∷◌, arith}
use phxargs.World.{RawStatus, exited, signalled, stopped}
use phxargs.ProcessPool.{severity, accumulate_status}
use phxargs.ProcessPool.Status.{
  IsStatus, worst_status, status_of, is_halting, worst_status-IsStatus, status_of-IsStatus,
}
use phxargs.ProcessPool.Reap.{any_halting}

-- Each child has exited with 0.
abbrev pub Succeeded : List (ℕ × RawStatus) → Type 0
Succeeded [] = Unit {0}
Succeeded ((pid, raw) ∷ reaped) = (raw ≡ exited 0) × Succeeded reaped

accumulate_zero :
    (s t : ℕ) → IsStatus s → IsStatus t → accumulate_status s t ≡ 0 → (s ≡ 0) × (t ≡ 0)
unfolding accumulate_status severity
accumulate_zero s t hs ht e = (ground arith, ground arith)

exited_zero : (code : ℕ) → status_of (exited code) ≡ 0 → code ≡ 0
unfolding status_of
exited_zero code e = ground (arith, e)

status_zero : (raw : RawStatus) → status_of raw ≡ 0 → raw ≡ exited 0
unfolding status_of
status_zero (exited code) e = ap exited (exited_zero code e)
status_zero (signalled n) e = absurd (omega (arith, e))
status_zero stopped e = absurd (omega (arith, e))

-- With the status 0 each child has exited with 0.
pub zero-Succeeded : (reaped : List (ℕ × RawStatus)) → worst_status reaped ≡ 0 → Succeeded reaped
unfolding worst_status
zero-Succeeded [] e = tt
zero-Succeeded ((pid, raw) ∷ reaped) e =
    let (before, now) =
      accumulate_zero (worst_status reaped) (status_of raw) (worst_status-IsStatus reaped)
        (status_of-IsStatus raw) e in
    (status_zero raw now, zero-Succeeded reaped before)

-- And none of them halts the pool.
pub Succeeded-running :
    (reaped : List (ℕ × RawStatus)) → Succeeded reaped → any_halting reaped ≡ false
unfolding is_halting
Succeeded-running [] s = refl
Succeeded-running ((pid, raw) ∷ reaped) (e, s) = rw (e, Succeeded-running reaped s) refl
