-- ===== src/ProcessPool/Status.antt =====
-- The exit status: the worst of the children's, whatever the order in which they are reaped.
use mathlib.Core.Path.{ap₂}
use mathlib.Core.List.{Perm}
use phxargs.Base.{
  ℕ, ◌≤◌, ◌<◌, ◌≡◌, refl, ap, ◌∙◌, ◌⊎◌, ◌≢◌, inl, inr, Bool, false, ◌||◌, List, [], ◌∷◌, ok, ◌==◌,
  if◌then◌else◌, arith,
}
use phxargs.World.{RawStatus, exited, signalled, stopped}
use mathlib.Core.Logic.{∥∥₁_elim}
use mathlib.Core.List.{Permᴰ}
use native.Mathlib.Nat.{ℕ_set}
use phxargs.ProcessPool.{severity, accumulate_status, child_exit_status}

-- The exit statuses that a child can lead to.
abbrev pub IsStatus : ℕ → Type 0
IsStatus s = (s ≡ 0) ⊎ ((s ≡ 123) ⊎ ((s ≡ 124) ⊎ ((s ≡ 125) ⊎ ((s ≡ 126) ⊎ (s ≡ 127)))))

-- The status that one child leads to. One that has been stopped is not reaped: the code asserts it.
unfoldable pub status_of : RawStatus → ℕ
status_of (exited code) =
    if code == 255 then 124 else if code == 0 || (code == 126 || code == 127) then code else 123
status_of (signalled n) = 125
status_of stopped = 125

unfoldable pub is_halting : RawStatus → Bool
is_halting (exited code) = code == 255
is_halting (signalled n) = false
is_halting stopped = false

pub child_exit_status_lem :
    (raw : RawStatus) (halt : Bool)
    → raw ≢ stopped
    → child_exit_status raw halt ≡ ok (status_of raw, is_halting raw || halt)
unfolding child_exit_status status_of is_halting
child_exit_status_lem (exited code) halt h = ground arith
child_exit_status_lem (signalled n) halt h = refl
child_exit_status_lem stopped halt h = absurd (h refl)

pub status_of-IsStatus : (raw : RawStatus) → IsStatus (status_of raw)
unfolding status_of
status_of-IsStatus (exited code) = ground arith
status_of-IsStatus (signalled n) = ground arith
status_of-IsStatus stopped = ground arith

accumulate-IsStatus : (s t : ℕ) → IsStatus s → IsStatus t → IsStatus (accumulate_status s t)
unfolding accumulate_status
accumulate-IsStatus s t hs ht = ground arith

-- No two statuses are as severe.
severity-injective : (s t : ℕ) → IsStatus s → IsStatus t → severity s ≡ severity t → s ≡ t
unfolding severity
severity-injective s t hs ht e = ground arith

accumulate_comm :
    (s t u : ℕ)
    → IsStatus s
    → IsStatus t
    → IsStatus u
    → accumulate_status (accumulate_status s t) u ≡ accumulate_status (accumulate_status s u) t
unfolding accumulate_status
accumulate_comm s t u hs ht hu = ground (arith, severity-injective t u ht hu)

-- The status after the children of a list, the latest first.
unfoldable pub worst_status : List (ℕ × RawStatus) → ℕ
worst_status [] = 0
worst_status ((pid, raw) ∷ reaped) = accumulate_status (worst_status reaped) (status_of raw)

pub worst_status-IsStatus : (reaped : List (ℕ × RawStatus)) → IsStatus (worst_status reaped)
unfolding worst_status
worst_status-IsStatus [] = inl refl
worst_status-IsStatus ((pid, raw) ∷ reaped) =
    accumulate-IsStatus _ _ (worst_status-IsStatus reaped) (status_of-IsStatus raw)

worst_status-Permᴰ :
    {xs ys : List (ℕ × RawStatus)} → Permᴰ xs ys → worst_status xs ≡ worst_status ys
unfolding worst_status
worst_status-Permᴰ Permᴰ.nil = refl
worst_status-Permᴰ (Permᴰ.cons e p) =
    ap₂ accumulate_status (worst_status-Permᴰ p) (ap (λ x. status_of x.1) e)
worst_status-Permᴰ (Permᴰ.swap {a} {b} {a'} {b'} {l} e₁ e₂) =
    accumulate_comm (worst_status l) (status_of b.1) (status_of a.1) (worst_status-IsStatus l)
      (status_of-IsStatus b.1) (status_of-IsStatus a.1)
    ∙ ap₂
        (λ x y. accumulate_status (accumulate_status (worst_status l) (status_of x)) (status_of y))
        (ap (λ x. x.1) e₁) (ap (λ x. x.1) e₂)
worst_status-Permᴰ (Permᴰ.trans p q) = worst_status-Permᴰ p ∙ worst_status-Permᴰ q

-- The order in which the children end does not matter for the exit status.
pub worst_status-Perm :
    {xs ys : List (ℕ × RawStatus)} → Perm xs ys → worst_status xs ≡ worst_status ys
worst_status-Perm p = ∥∥₁_elim p (ℕ_set _ _) worst_status-Permᴰ

abbrev pub Reaped : ℕ × RawStatus → List (ℕ × RawStatus) → Type 0
Reaped c [] = ⊥
Reaped c (d ∷ reaped) = (c ≡ d) ⊎ Reaped c reaped

accumulate-bound :
    (s t : ℕ) → IsStatus s → IsStatus t → (s ≤ accumulate_status s t) × (t ≤ accumulate_status s t)
unfolding accumulate_status severity
accumulate-bound s t hs ht = (ground arith, ground arith)

accumulate-cases : (s t : ℕ) → (accumulate_status s t ≡ s) ⊎ (accumulate_status s t ≡ t)
unfolding accumulate_status
accumulate-cases s t = ground arith

Reaped-bound :
    (c : ℕ × RawStatus) (reaped : List (ℕ × RawStatus))
    → Reaped c reaped
    → status_of c.1 ≤ worst_status reaped
unfolding worst_status
Reaped-bound c [] m = absurd m
Reaped-bound c ((pid, raw) ∷ reaped) m =
    let (before, now) =
      accumulate-bound (worst_status reaped) (status_of raw) (worst_status-IsStatus reaped)
        (status_of-IsStatus raw) in
    elim m [ inl e ↦ rw e now | inr m' ↦ omega (arith, Reaped-bound c reaped m', before) ]

-- Unless it is 0 some child ended so.
worst_status-attained :
    (reaped : List (ℕ × RawStatus))
    → (worst_status reaped ≡ 0)
      ⊎ ((c : ℕ × RawStatus) × Reaped c reaped × (worst_status reaped ≡ status_of c.1))
unfolding worst_status
worst_status-attained [] = inl refl
worst_status-attained ((pid, raw) ∷ reaped) =
    elim (accumulate-cases (worst_status reaped) (status_of raw)) [
      | inr e ↦ inr ((pid, raw), inl refl, e)
      | inl e ↦ elim (worst_status-attained reaped) [
        | inl z ↦ inl (e ∙ z)
        | inr (c, m, w) ↦ inr (c, inr m, e ∙ w)
      ]
    ]

-- Where some child has been reaped, the exit status is the largest of the statuses that the
-- children lead to: no child leads to a larger one, and some child leads to it.
pub worst_status-bound :
    (c : ℕ × RawStatus) (reaped : List (ℕ × RawStatus))
    → Reaped c reaped
    → (status_of c.1 ≤ worst_status reaped)
      × ((d : ℕ × RawStatus) × Reaped d reaped × (worst_status reaped ≡ status_of d.1))
worst_status-bound c reaped m =
    let below = Reaped-bound c reaped m in
    (
      below,
      elim (worst_status-attained reaped) [
        | inl z ↦ (c, m, omega (arith, z, below))
        | inr attained ↦ attained
      ],
    )

-- 127 before 126 before 125 before 124 before 123 before 0.
pub severity_order :
    (severity 0 < severity 123)
    × (severity 123 < severity 124)
    × (severity 124 < severity 125)
    × (severity 125 < severity 126)
    × (severity 126 < severity 127)
unfolding severity
severity_order = omega arith
