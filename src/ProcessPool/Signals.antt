-- ===== src/ProcessPool/Signals.antt =====
-- SIGUSR1 and SIGUSR2: the limit on the number of children.
use mathlib.Core.Path.{subst, ap₂}
use phxargs.Base.{
  ℕ, suc, ◌+◌, ◌-◌, ◌≤◌, ◌<◌, ◌≡◌, refl, sym, ap, ◌∙◌, inl, inr, ◌&&◌, List, [], ◌∷◌, Option, none,
  ltb, ◌==◌, if◌then◌else◌, Bool-cases, replicate, arith, length-append, length-replicate,
  take-append, ltb→lt,
}
use phxargs.Base.Int.{ℤ, pos, negsuc, pos_part, ◌+ℤ◌, ◌-ℤ◌, ltb_ℤ, eqb_ℤ}
use phxargs.World.{Signal, sigusr1, sigusr2}
use phxargs.ProcessPool.Pids.{Represents}
use phxargs.ProcessPool.{
  ProcessPool, deliver, pending, clamp_max, adjust_by, set_max_procs, apply_signal_adjustments,
}

abbrev pub usr1s : List Signal → ℕ
usr1s [] = 0
usr1s (sigusr1 ∷ signals) = suc (usr1s signals)
usr1s (sigusr2 ∷ signals) = usr1s signals

abbrev pub usr2s : List Signal → ℕ
usr2s [] = 0
usr2s (sigusr1 ∷ signals) = usr2s signals
usr2s (sigusr2 ∷ signals) = suc (usr2s signals)

-- The handlers only count.
pub deliver-counts :
    (signals : List Signal) (pool : ProcessPool)
    → deliver signals pool ≡ record pool {
      sigusr1_count = pool.sigusr1_count + usr1s signals;
      sigusr2_count = pool.sigusr2_count + usr2s signals;
    }
unfolding deliver
deliver-counts [] pool = ground arith
deliver-counts (sigusr1 ∷ signals) pool = deliver-counts signals _ ∙ ground arith
deliver-counts (sigusr2 ∷ signals) pool = deliver-counts signals _ ∙ ground arith

-- No signal is waiting to be applied.
pub record Settled (pool : ProcessPool) : Type 0 where
  pub settled1 : pool.applied_sigusr1 ≡ pool.sigusr1_count
  pub settled2 : pool.applied_sigusr2 ≡ pool.sigusr2_count

-- The limit after `ups` and `downs` signals.
abbrev pub stepped : ℤ → ℕ → ℕ → ℕ → ℕ
stepped child_max max_procs ups downs =
    let floor = if ltb downs (max_procs + ups) then max_procs + ups - downs else 1 in
    if ltb_ℤ (pos 0) child_max && ltb_ℤ child_max (pos floor) then pos_part child_max else floor

clamp_max-stepped :
    (child_max : ℤ) (max_procs ups downs : ℕ)
    → pos_part (clamp_max child_max (pos max_procs +ℤ pos ups -ℤ pos downs))
      ≡ stepped child_max max_procs ups downs
unfolding clamp_max
clamp_max-stepped (pos k) max_procs ups downs = ground arith
clamp_max-stepped (negsuc k) max_procs ups downs = ground arith

pending_settled : (count n applied : ℕ) → applied ≡ count → pending (count + n) applied ≡ pos n
pending_settled count n applied e = ground arith

adjust :
    (pool : ProcessPool) (before between : List Signal)
    → Settled pool
    → apply_signal_adjustments (deliver before pool) between
      ≡ adjust_by (pos (usr1s before)) (pos (usr2s before)) (deliver between (deliver before pool))
unfolding apply_signal_adjustments
adjust pool before between s =
    ap₂ (λ u1 u2. adjust_by u1 u2 (deliver between (deliver before pool)))
      (ap (λ p. pending p.sigusr1_count p.applied_sigusr1) (deliver-counts before pool)
        ∙ pending_settled pool.sigusr1_count (usr1s before) pool.applied_sigusr1 s.settled1)
      (ap (λ p. pending p.sigusr2_count p.applied_sigusr2) (deliver-counts before pool)
        ∙ pending_settled pool.sigusr2_count (usr2s before) pool.applied_sigusr2 s.settled2)

-- The limit after an adjustment that found `ups` and `downs` signals: 0 stands for no limit.
abbrev pub adjusted : ℤ → ℕ → ℕ → ℕ → ℕ
adjusted child_max max_procs ups downs =
    if ups + downs == 0
    then max_procs
    else if max_procs == 0
    then 0
    else stepped child_max max_procs ups downs

adjust_by-max_procs :
    (later : ProcessPool) (ups downs : ℕ)
    → (adjust_by (pos ups) (pos downs) later).max_procs
      ≡ adjusted later.child_max later.max_procs ups downs
unfolding adjust_by set_max_procs
adjust_by-max_procs later ups downs =
    ground (arith, clamp_max-stepped later.child_max later.max_procs ups downs)

-- An adjustment moves the limit by the signals that had come at its first look: up by SIGUSR1, down
-- by SIGUSR2, not below 1 nor above the system's limit; "no limit" stays.
pub apply_signal_adjustments-max_procs :
    (pool : ProcessPool) (before between : List Signal)
    → Settled pool
    → (apply_signal_adjustments (deliver before pool) between).max_procs
      ≡ adjusted pool.child_max pool.max_procs (usr1s before) (usr2s before)
apply_signal_adjustments-max_procs pool before between s =
    let twice = deliver-counts between (deliver before pool) in
    let once = deliver-counts before pool in
    ap (λ p. p.max_procs) (adjust pool before between s)
    ∙ adjust_by-max_procs (deliver between (deliver before pool)) (usr1s before) (usr2s before)
    ∙ ap₂ (λ c m. adjusted c m (usr1s before) (usr2s before))
        (ap (λ p. p.child_max) twice ∙ ap (λ p. p.child_max) once)
        (ap (λ p. p.max_procs) twice ∙ ap (λ p. p.max_procs) once)

adjust_by-Settled :
    (later : ProcessPool) (ups downs : ℕ)
    → 0 < ups + downs
    → Settled (adjust_by (pos ups) (pos downs) later)
unfolding adjust_by set_max_procs
adjust_by-Settled later ups downs h = ground arith

-- Signals that come between the two looks are lost, if there was anything to apply: they move the
-- limit neither in this adjustment nor in a later one, which finds nothing left to apply.
pub apply_signal_adjustments_loses :
    (pool : ProcessPool) (before between : List Signal)
    → Settled pool
    → 0 < usr1s before + usr2s before
    → ((apply_signal_adjustments (deliver before pool) between).max_procs
        ≡ (apply_signal_adjustments (deliver before pool) []).max_procs)
      × Settled (apply_signal_adjustments (deliver before pool) between)
apply_signal_adjustments_loses pool before between s h = (
  apply_signal_adjustments-max_procs pool before between s
      ∙ sym (apply_signal_adjustments-max_procs pool before [] s),
  subst Settled (sym (adjust pool before between s))
      (adjust_by-Settled _ (usr1s before) (usr2s before) h),
)

adjusted_bounds :
    (child_max max_procs ups downs : ℕ)
    → 0 < max_procs
    → max_procs ≤ child_max
    → (0 < adjusted (pos child_max) max_procs ups downs)
      × (adjusted (pos child_max) max_procs ups downs ≤ child_max)
adjusted_bounds child_max max_procs ups downs h l = ground arith

-- Whatever signals come, a limit from 1 up to the system's number of children stays in that range.
pub apply_signal_adjustments_bounds :
    (pool : ProcessPool) (before between : List Signal) (child_max : ℕ)
    → Settled pool
    → pool.child_max ≡ pos child_max
    → 0 < pool.max_procs
    → pool.max_procs ≤ child_max
    → (0 < (apply_signal_adjustments (deliver before pool) between).max_procs)
      × ((apply_signal_adjustments (deliver before pool) between).max_procs ≤ child_max)
apply_signal_adjustments_bounds pool before between child_max s e h l =
    let max_is =
      apply_signal_adjustments-max_procs pool before between s
      ∙ ap (λ c. adjusted c pool.max_procs (usr1s before) (usr2s before)) e in
    let bounds = adjusted_bounds child_max pool.max_procs (usr1s before) (usr2s before) h l in
    subst (λ m. (0 < m) × (m ≤ child_max)) (sym max_is) bounds

-- The children in flight, the status and `halt` are not touched.
pub record Keeps (pool pool' : ProcessPool) (children : List ℕ) : Type 0 where
  pub represents : Represents pool' children
  pub status_same : pool'.status ≡ pool.status
  pub halt_same : pool'.halt ≡ pool.halt

set_max_procs-Keeps :
    {pool : ProcessPool} {children : List ℕ} (n : ℕ)
    → Represents pool children
    → Keeps pool (set_max_procs pool n) children
unfolding set_max_procs
set_max_procs-Keeps {pool} n r = elim (Bool-cases (ltb pool.capacity n)) [
  | inr small ↦ rw small (ground arith)
  | inl large ↦
      let fill = replicate {A = Option ℕ} (n - pool.capacity) none in
      let wide : pool.capacity < n = ltb→lt _ _ large in
      rw large record {
        represents = record {
          allocated = omega (
            arith,
            length-append pool.pids fill,
            length-replicate {A = Option ℕ} (n - pool.capacity) none,
            r.allocated,
          );
          fits = omega (arith, r.fits);
          counted = r.counted;
          contents =
              take-append pool.count pool.pids fill (omega (arith, r.fits, r.allocated))
              ∙ r.contents;
        };
        status_same = refl;
        halt_same = refl;
      }
]

adjust_by-Keeps :
    {later : ProcessPool} {children : List ℕ} (u1 u2 : ℤ)
    → Represents later children
    → Keeps later (adjust_by u1 u2 later) children
unfolding adjust_by
adjust_by-Keeps {later} u1 u2 r = elim (Bool-cases (eqb_ℤ u1 (pos 0) && eqb_ℤ u2 (pos 0))) [
  | inl none_left ↦ rw none_left (ground arith)
  | inr some_left ↦ elim (Bool-cases (later.max_procs == 0)) [
    | inl unlimited ↦ rw (some_left, unlimited) (ground arith)
    | inr limited ↦
        let k =
          set_max_procs-Keeps
            {pool = record later {
              applied_sigusr1 = later.sigusr1_count;
              applied_sigusr2 = later.sigusr2_count;
            }}
            (pos_part (clamp_max later.child_max (pos later.max_procs +ℤ u1 -ℤ u2)))
            (record {
              allocated = r.allocated;
              fits = r.fits;
              counted = r.counted;
              contents = r.contents;
            }) in
        rw (some_left, limited)
          record { represents = k.represents; status_same = k.status_same; halt_same = k.halt_same }
  ]
]

deliver-Keeps :
    {pool : ProcessPool} {children : List ℕ} (signals : List Signal)
    → Represents pool children
    → Keeps pool (deliver signals pool) children
deliver-Keeps {pool} {children} signals r =
    subst (λ p. Keeps pool p children) (sym (deliver-counts signals pool)) (ground arith)

pub apply_signal_adjustments-Keeps :
    {pool : ProcessPool} {children : List ℕ} (before between : List Signal)
    → Represents pool children
    → Keeps pool (apply_signal_adjustments (deliver before pool) between) children
unfolding apply_signal_adjustments
apply_signal_adjustments-Keeps {pool} before between r =
    let looked = deliver-Keeps before r in
    let later = deliver-Keeps between looked.represents in
    let done = adjust_by-Keeps _ _ later.represents in
    record {
      represents = done.represents;
      status_same = done.status_same ∙ later.status_same ∙ looked.status_same;
      halt_same = done.halt_same ∙ later.halt_same ∙ looked.halt_same;
    }
