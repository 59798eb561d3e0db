-- ===== src/ProcessPool/Reap.antt =====
-- What one answer of `waitpid` does to the pool.
use mathlib.Core.Path.{subst}
use mathlib.Core.List.{Perm, perm_middle}
use mathlib.Core.List.Perm
use phxargs.Base.{
  ℕ, zero, suc, ◌+◌, ◌-◌, ◌≡◌, refl, sym, ap, ◌∙◌, ◌≢◌, inl, inr, Bool, true, false, ◌||◌, List, [],
  ◌∷◌, ◌++◌, map, some, ok, ◌==◌, if◌then◌else◌, set, take, length, take-set_any, set-map,
  concat-cases, get_elem?, arith, length-append, length-set, length-replicate, append-nil,
}
use phxargs.Base.Cells.{take-shorter, last-cell}
use phxargs.World.{RawStatus, stopped, WaitAnswer, interrupted, failed, child, Kernel, World}
use native.Mathlib.Nat.{zero-add}
use phxargs.ProcessPool.Status.{status_of, is_halting, child_exit_status_lem, worst_status}
use phxargs.ProcessPool.Pids.{Represents, in_flight-Represents, IsIn, find_pid-IsIn}
use phxargs.ProcessPool.{
  process_pool_create, ProcessPool, find_pid, forget_pid, reap, reap_one, wait_retry,
  accumulate_status,
}

-- The pids with the one at place `i` gone and the last in its place, as `forget_pid` leaves them.
abbrev swap_remove : List ℕ → ℕ → ℕ → List ℕ
swap_remove front last i = set front i last

swap_remove-perm :
    (front : List ℕ) (last i pid : ℕ)
    → get_elem? (front ++ last ∷ []) i ≡ some pid
    → Perm (front ++ last ∷ []) (pid ∷ swap_remove front last i)
swap_remove-perm [] last zero pid e = subst (λ x. Perm (last ∷ []) (x ∷ [])) (cc) Perm.rfl
swap_remove-perm [] last (suc i) pid e = cc
swap_remove-perm (p ∷ front) last zero pid e =
    let p-pid : p ≡ pid = cc in
    rw p-pid (
      Perm.cons pid (
        subst (λ x. Perm (front ++ last ∷ []) (last ∷ x)) (append-nil front)
          (perm_middle front [])))
swap_remove-perm (p ∷ front) last (suc i) pid e =
    Perm.trans (Perm.cons p (swap_remove-perm front last i pid e)) (Perm.swap pid p _)

-- The search and the removal, at a child that runs.
forget-Represents :
    {pool : ProcessPool} (front : List ℕ) (last pid : ℕ)
    → Represents pool (front ++ last ∷ [])
    → IsIn pid (front ++ last ∷ [])
    → (i : ℕ) × (find_pid pool.pids pool.count pid 0 ≡ ok (some i))
      × (forget_pid pool (some i)
          ≡ ok (record pool { pids = set pool.pids i (some last); count = pool.count - 1 }))
      × Represents
          (record pool { pids = set pool.pids i (some last); count = pool.count - 1 })
          (swap_remove front last i)
      × Perm (front ++ last ∷ []) (pid ∷ swap_remove front last i)
unfolding forget_pid
forget-Represents {pool} front last pid r m =
    let (i, found, here) =
      find_pid-IsIn pool.pids pool.count (front ++ last ∷ []) pid 0 r.counted r.contents m in
    let len : pool.count ≡ suc (length front) =
      omega (arith, r.counted, length-append front (last ∷ [])) in
    let one_less : pool.count ≡ suc (pool.count - 1) = omega arith in
    let at_end =
      last-cell (pool.count - 1) pool.pids front last (omega arith)
        (subst (λ n. take n pool.pids ≡ map some (front ++ last ∷ [])) one_less r.contents) in
    (
      i,
      subst (λ k. find_pid pool.pids pool.count pid 0 ≡ ok (some k)) (zero-add i) found,
      rw at_end,
      record {
        allocated = length-set pool.pids i (some last) ∙ r.allocated;
        fits = omega (arith, r.fits);
        counted = omega (arith, length-set front i last);
        contents =
            take-set_any (pool.count - 1) i pool.pids (some last)
            ∙ ap (λ xs. set xs i (some last))
                (take-shorter pool.count (pool.count - 1) pool.pids front last (omega arith)
                  r.counted r.contents)
            ∙ set-map some front i last;
      },
      swap_remove-perm front last i pid here,
    )

-- What `waitpid` promises: an interruption can be followed by another call, and in the end the
-- answer is one of the children that run, which has ended.
abbrev pub Answers : WaitAnswer → List ℕ → Type 0
Answers (interrupted again) children = Answers again children
Answers failed children = ⊥
Answers (child pid raw) children = IsIn pid children × (raw ≢ stopped)

pub record IsLawful (kernel : Kernel) : Type 0 where
  pub waits : (n pid : ℕ) (pids : List ℕ) → Answers (kernel.waitpid n (pid ∷ pids)) (pid ∷ pids)

wait_retry-Answers :
    (answer : WaitAnswer) (children : List ℕ)
    → Answers answer children
    → (pid : ℕ) × (raw : RawStatus) × (wait_retry answer ≡ ok (pid, raw))
      × IsIn pid children
      × (raw ≢ stopped)
unfolding wait_retry
wait_retry-Answers (interrupted again) children h = wait_retry-Answers again children h
wait_retry-Answers failed children h = absurd h
wait_retry-Answers (child pid raw) children h = (pid, raw, refl, h.0, h.1)

abbrev pub any_halting : List (ℕ × RawStatus) → Bool
any_halting [] = false
any_halting ((pid, raw) ∷ reaped) = is_halting raw || any_halting reaped

abbrev pub pids_of {ℓ} : {A : Type ℓ} → List (ℕ × A) → List ℕ
pids_of = map (λ c. c.0)

-- The pool and the history: each child launched is in flight or has been reaped, once; the status
-- is the worst of those reaped, and the pool halts if one of them said so.
pub record Consistent (pool : ProcessPool) (world : World) (children : List ℕ) : Type 0 where
  pub represents : Represents pool children
  pub status_is : pool.status ≡ worst_status world.reaped
  pub halt_is : pool.halt ≡ any_halting world.reaped
  pub accounted : Perm (pids_of world.launched) (children ++ pids_of world.reaped)

-- What reaping leaves alone.
pub record Untouched (pool pool' : ProcessPool) (world world' : World) : Type 0 where
  pub max_procs_same : pool'.max_procs ≡ pool.max_procs
  pub capacity_same : pool'.capacity ≡ pool.capacity
  pub child_max_same : pool'.child_max ≡ pool.child_max
  pub launched_same : world'.launched ≡ world.launched
  pub forks_same : world'.forks ≡ world.forks
  pub adjustments_same : world'.adjustments ≡ world.adjustments
  pub halt_stays : pool.halt ≡ true → pool'.halt ≡ true

-- A child that has ended, and that is found.
reap-ended :
    (pool pool' : ProcessPool) (pid : ℕ) {raw : RawStatus} (i : ℕ)
    → find_pid pool.pids pool.count pid 0 ≡ ok (some i)
    → forget_pid pool (some i) ≡ ok pool'
    → raw ≢ stopped
    → reap pid raw pool
      ≡ ok (record pool' {
        status = accumulate_status pool'.status (status_of raw);
        halt = is_halting raw || pool'.halt;
      })
unfolding reap
reap-ended pool pool' pid {raw} i found forgot ended =
    rw (found, forgot, child_exit_status_lem raw pool'.halt ended)

-- On a lawful system, and where the pool is consistent with the history of the launches and the
-- reaped, reaping with a child in flight takes one child out of those in flight and keeps the
-- pool consistent with the history.
pub reap_one-Consistent :
    (kernel : Kernel) (pool : ProcessPool) (world : World) (c : ℕ) (cs : List ℕ)
    → IsLawful kernel
    → Consistent pool world (c ∷ cs)
    → (pool' : ProcessPool) × (world' : World) × (children' : List ℕ) × (reap_one kernel pool world
        ≡ ok (pool', world'))
      × Consistent pool' world' children'
      × (length children' ≡ length cs)
      × Untouched pool pool' world world'
unfolding reap_one worst_status
reap_one-Consistent kernel pool world c cs law h = elim (concat-cases (c ∷ cs)) [
  | inl e ↦ absurd (cc)
  | inr (front, last, e) ↦
      let (pid, raw, answered, m, ended) =
        wait_retry-Answers (kernel.waitpid world.waits (c ∷ cs)) (c ∷ cs)
          (law.waits world.waits c cs) in
      let (i, found, forgot, r, p) =
        forget-Represents {pool = pool} front last pid (subst (Represents pool) e h.represents)
          (subst (IsIn pid) e m) in
      (
        record pool {
          pids = set pool.pids i (some last);
          count = pool.count - 1;
          status = accumulate_status pool.status (status_of raw);
          halt = is_halting raw || pool.halt;
        },
        record world { waits = world.waits + 1; reaped = (pid, raw) ∷ world.reaped },
        swap_remove front last i,
        rw (
          in_flight-Represents h.represents,
          answered,
          reap-ended pool _ pid i found forgot ended,
        ),
        record {
          represents = record {
            allocated = r.allocated;
            fits = r.fits;
            counted = r.counted;
            contents = r.contents;
          };
          status_is = ap (λ s. accumulate_status s (status_of raw)) h.status_is;
          halt_is = ap (λ b. is_halting raw || b) h.halt_is;
          accounted = Perm.trans h.accounted (
              Perm.trans
                (Perm.append (subst (λ x. Perm x (pid ∷ swap_remove front last i)) (sym e) p)
                  Perm.rfl)
                (Perm.symm (perm_middle (swap_remove front last i) (pids_of world.reaped))));
        },
        omega (arith, length-set front i last, ap length e, length-append front (last ∷ [])),
        ground arith,
      )
]

abbrev pub new_world : World
new_world = record { forks = 0; waits = 0; adjustments = 0; launched = []; reaped = [] }

-- A new pool has no child.
pub process_pool_create-Consistent :
    (kernel : Kernel) (max_procs : ℕ)
    → Consistent (process_pool_create kernel max_procs) new_world []
unfolding process_pool_create worst_status
process_pool_create-Consistent kernel max_procs = record {
  represents = record {
    allocated = length-replicate (if max_procs == 0 then 16 else max_procs) (some 0);
    fits = omega arith;
    counted = refl;
    contents = refl;
  };
  status_is = refl;
  halt_is = refl;
  accounted = Perm.rfl;
}
