-- ===== src/ProcessPool.antt =====
-- src/process_pool.c: the children in flight, the limit on their number, and the exit status.
pub mod Pids
pub mod Status
pub mod Reap
pub mod Signals
pub mod Loops
pub mod Success
use phxargs.Base.{
  ℕ, zero, suc, ◌+◌, ◌-◌, ◌*◌, Bool, true, false, ◌&&◌, ◌||◌, not, List, [], ◌∷◌, ◌++◌, Option,
  none, some, Outcome, ok, exit, abort, undefined, no_fuel, exit_failure, defined, ◌>>=◌, ltb, leb,
  ◌==◌, if◌then◌else◌, replicate, set, drop, take, length,
}
use phxargs.Base.Int.{ℤ, pos, negsuc, pos_part, ◌+ℤ◌, ◌-ℤ◌, ltb_ℤ, eqb_ℤ}
use phxargs.Base.Strings.{cell}
use phxargs.Util.{phxargs_double_capacity}
use phxargs.ExitCodes.{
  phxargs_status_child_failed, phxargs_status_halt, phxargs_status_signalled,
  phxargs_status_not_executable, phxargs_status_not_found,
}
use phxargs.World.{
  RawStatus, exited, signalled, stopped, WaitAnswer, interrupted, failed, child, Signal, sigusr1,
  sigusr2, Kernel, World,
}

-- `applied_*` and `sigusr*_count` are the file's static counters. A cell of `pids` that has not been
-- written is `none`.
pub record ProcessPool : Type 0 where
  pub max_procs : ℕ
  pub capacity : ℕ
  pub child_max : ℤ
  pub count : ℕ
  pub status : ℕ
  pub halt : Bool
  pub pids : List (Option ℕ)
  pub sigusr1_count : ℕ
  pub sigusr2_count : ℕ
  pub applied_sigusr1 : ℕ
  pub applied_sigusr2 : ℕ

abbrev pub on_sigusr1 : ProcessPool → ProcessPool
on_sigusr1 pool = record pool { sigusr1_count = pool.sigusr1_count + 1 }

abbrev pub on_sigusr2 : ProcessPool → ProcessPool
on_sigusr2 pool = record pool { sigusr2_count = pool.sigusr2_count + 1 }

-- The handlers run, one for each signal.
unfoldable pub deliver : List Signal → ProcessPool → ProcessPool
deliver [] pool = pool
deliver (sigusr1 ∷ signals) pool = deliver signals (on_sigusr1 pool)
deliver (sigusr2 ∷ signals) pool = deliver signals (on_sigusr2 pool)

unfoldable pub severity : ℕ → ℕ
severity phxargs_status =
    if phxargs_status == phxargs_status_not_found
    then 6
    else if phxargs_status == phxargs_status_not_executable
    then 5
    else if phxargs_status == phxargs_status_signalled
    then 4
    else if phxargs_status == phxargs_status_halt
    then 3
    else if phxargs_status == phxargs_status_child_failed
    then 2
    else 0

-- The new `status` of the pool.
unfoldable pub accumulate_status : ℕ → ℕ → ℕ
accumulate_status status new_status =
    if ltb (severity status) (severity new_status) then new_status else status

-- The status, and the new `halt`.
unfoldable pub child_exit_status : RawStatus → Bool → Outcome (ℕ × Bool)
child_exit_status (exited code) halt =
    if code == 255
    then ok (phxargs_status_halt, true)
    else if code == 0 || (code == 126 || code == 127)
    then ok (code, halt)
    else ok (phxargs_status_child_failed, halt)
child_exit_status (signalled n) halt = ok (phxargs_status_signalled, halt)
child_exit_status stopped halt = abort

-- `do … while (pid == -1 && errno == EINTR)`, and the exit if `waitpid` fails.
unfoldable pub wait_retry : WaitAnswer → Outcome (ℕ × RawStatus)
wait_retry (interrupted again) = wait_retry again
wait_retry failed = exit exit_failure
wait_retry (child pid raw_status) = ok (pid, raw_status)

-- The search for a pid among the first `count` cells, from place `i` on.
unfoldable pub find_pid : List (Option ℕ) → ℕ → ℕ → ℕ → Outcome (Option ℕ)
find_pid cells zero pid i = ok none
find_pid [] (suc count) pid i = undefined
find_pid (c ∷ cells) (suc count) pid i = do
  p ← defined c
  elim (p == pid) [ true ↦ ok (some i) | false ↦ find_pid cells count pid (i + 1) ]

-- The last pid takes the place of the one reaped; the `assert` fails where there is none.
unfoldable pub forget_pid : ProcessPool → Option ℕ → Outcome ProcessPool
forget_pid pool none = abort
forget_pid pool (some i) = do
  last ← defined (cell (drop (pool.count - 1) pool.pids))
  ok (record pool { pids = set pool.pids i (some last); count = pool.count - 1 })

-- The pids that run.
abbrev pub running : List (Option ℕ) → List ℕ
running [] = []
running (none ∷ cells) = running cells
running (some pid ∷ cells) = pid ∷ running cells

abbrev pub in_flight : ProcessPool → List ℕ
in_flight pool = running (take pool.count pool.pids)

-- What `reap_one` does with an answer.
unfoldable pub reap : ℕ → RawStatus → ProcessPool → Outcome ProcessPool
reap pid raw_status pool = do
  found ← find_pid pool.pids pool.count pid 0
  pool' ← forget_pid pool found
  (status, halt) ← child_exit_status raw_status pool'.halt
  ok (record pool' { status = accumulate_status pool'.status status; halt = halt })

-- The signals of one kind that have come since the last adjustment.
abbrev pub pending : ℕ → ℕ → ℤ
pending sigusr_count applied = pos sigusr_count -ℤ pos applied

unfoldable pub clamp_max : ℤ → ℤ → ℤ
clamp_max child_max new_max =
    let at_least = if ltb_ℤ new_max (pos 1) then pos 1 else new_max in
    if ltb_ℤ (pos 0) child_max && ltb_ℤ child_max at_least then child_max else at_least

unfoldable pub set_max_procs : ProcessPool → ℕ → ProcessPool
set_max_procs pool new_max =
    if ltb pool.capacity new_max
    then record pool {
      pids = pool.pids ++ replicate (new_max - pool.capacity) none;
      capacity = new_max;
      max_procs = new_max;
    }
    else record pool { max_procs = new_max }

-- What follows the first look at the counters, which found `u1` and `u2` signals to apply; `later`
-- is the state at the second look.
unfoldable pub adjust_by : ℤ → ℤ → ProcessPool → ProcessPool
adjust_by u1 u2 later =
    let applied = record later {
      applied_sigusr1 = later.sigusr1_count;
      applied_sigusr2 = later.sigusr2_count;
    } in
    if eqb_ℤ u1 (pos 0) && eqb_ℤ u2 (pos 0)
    then later
    else if applied.max_procs == 0
    then applied
    else set_max_procs applied
        (pos_part (clamp_max applied.child_max (pos applied.max_procs +ℤ u1 -ℤ u2)))

-- The counters are first looked at in `pool`, and the signals of `between` arrive before they are
-- looked at again.
unfoldable pub apply_signal_adjustments : ProcessPool → List Signal → ProcessPool
apply_signal_adjustments pool between =
    adjust_by (pending pool.sigusr1_count pool.applied_sigusr1)
      (pending pool.sigusr2_count pool.applied_sigusr2) (deliver between pool)

-- The test of the loop in `process_pool_wait_if_full`.
abbrev pub is_full : ProcessPool → Bool
is_full pool = not (pool.max_procs == 0) && leb pool.max_procs pool.count

module _ (kernel : Kernel) where
  unfoldable pub process_pool_create : ℕ → ProcessPool
  process_pool_create max_procs =
      let capacity = if max_procs == 0 then 16 else max_procs in
      record {
        max_procs = max_procs;
        capacity = capacity;
        child_max = kernel.sc_child_max;
        count = 0;
        status = 0;
        halt = false;
        pids = replicate capacity (some 0);
        sigusr1_count = 0;
        sigusr2_count = 0;
        applied_sigusr1 = 0;
        applied_sigusr2 = 0;
      }

  unfoldable pub reap_one : ProcessPool → World → Outcome (ProcessPool × World)
  reap_one pool world = do
    (pid, raw_status) ← wait_retry (kernel.waitpid world.waits (in_flight pool))
    pool' ← reap pid raw_status pool
    ok (pool', record world { waits = world.waits + 1; reaped = (pid, raw_status) ∷ world.reaped })

  -- The loops of `process_pool_wait_if_full` and `process_pool_drain`, with a bound on the rounds.
  unfoldable pub wait_loop : ℕ → ProcessPool → World → Outcome (ProcessPool × World)
  wait_loop zero pool world = if is_full pool then no_fuel else ok (pool, world)
  wait_loop (suc rounds) pool world = elim (is_full pool) [
    | false ↦ ok (pool, world)
    | true ↦ do (pool', world') ← reap_one pool world; wait_loop rounds pool' world'
  ]

  unfoldable pub drain_loop : ℕ → ProcessPool → World → Outcome (ProcessPool × World)
  drain_loop zero pool world = if ltb 0 pool.count then no_fuel else ok (pool, world)
  drain_loop (suc rounds) pool world = elim (ltb 0 pool.count) [
    | false ↦ ok (pool, world)
    | true ↦ do (pool', world') ← reap_one pool world; drain_loop rounds pool' world'
  ]

  unfoldable pub process_pool_wait_if_full : ProcessPool → World → Outcome (ProcessPool × World)
  process_pool_wait_if_full pool world =
      let looked = deliver (kernel.before world.adjustments) pool in
      let adjusted = apply_signal_adjustments looked (kernel.between world.adjustments) in
      wait_loop adjusted.count adjusted (record world { adjustments = world.adjustments + 1 })

  -- The pool with no child left, whose `status` is returned.
  unfoldable pub process_pool_drain : ProcessPool → World → Outcome (ProcessPool × World)
  process_pool_drain pool world = drain_loop pool.count pool world

unfoldable pub process_pool_submit : ProcessPool → ℕ → Outcome ProcessPool
unfolding phxargs_double_capacity
process_pool_submit pool pid = do
  room ←
      if pool.count == pool.capacity
      then (do
        capacity ← phxargs_double_capacity pool.capacity
        ok (record pool {
          capacity = capacity;
          pids = pool.pids ++ replicate (capacity - pool.capacity) none;
        }))
      else ok pool
  ok (record room { pids = set room.pids room.count (some pid); count = room.count + 1 })

abbrev pub process_pool_halted : ProcessPool → Bool
process_pool_halted pool = pool.halt
