-- ===== src/XargsMode/Launches.antt =====
-- What an execution launches, whatever the mode.
use mathlib.Core.Path.{subst}
use mathlib.Core.List.{Perm, perm_middle}
use mathlib.Core.List.Perm
use phxargs.Base.{
  ℕ, ◌+◌, ◌/◌, ◌≤◌, ◌<◌, ◌≡◌, refl, sym, ap, ◌∙◌, ◌⊎◌, inl, inr, Bool, true, false, List, [], ◌∷◌,
  ◌++◌, map, none, some, ok, exit, Yields, returns, exits, >>=-Yields, Yields-ok, Yields-weaken,
  if◌then◌else◌, length, length-map, length-Perm, length-append, arith, exit_failure, Bool-cases,
  append_assoc, Option-cases,
}
use phxargs.Base.Strings.{Str}
use phxargs.Util.{size_max}
use phxargs.World.{Kernel, World, RawStatus}
use phxargs.ProcessPool.{ProcessPool}
use phxargs.ProcessPool.Pids.{process_pool_submit-Yields, Kept}
use phxargs.ProcessPool.Pids as Pids
use phxargs.ProcessPool.Status.{worst_status}
use phxargs.ProcessPool.Reap.{any_halting, Consistent, IsLawful, pids_of}
use phxargs.ProcessPool.Loops.{process_pool_wait_if_full-HasRoom}
use phxargs.Command.{Command, build_exec_args, recycle_command, phxargs_fork, command_execute_async}
use phxargs.XargsMode.{launch_child, XargsMode, launch, xargs_mode_execute_command}

-- The argument vectors of the children launched, the latest first.
abbrev pub vectors : World → List (List Str)
vectors world = map (λ c. c.1) world.launched

-- What stays of the command as it was created.
pub record SameCommand (base cmd : Command) : Type 0 where
  pub same_max_args : cmd.max_args ≡ base.max_args
  pub same_max_length : cmd.max_length ≡ base.max_length
  pub same_placeholder : cmd.arg_placeholder ≡ base.arg_placeholder
  pub same_terminate : cmd.terminate_on_too_large_command ≡ base.terminate_on_too_large_command
  pub same_line_mode : cmd.line_mode ≡ base.line_mode
  pub same_env_length : cmd.env_length ≡ base.env_length
  pub same_fixed_args : cmd.fixed_args ≡ base.fixed_args

pub SameCommand-refl : (cmd : Command) → SameCommand cmd cmd
SameCommand-refl cmd = record {
  same_max_args = refl;
  same_max_length = refl;
  same_placeholder = refl;
  same_terminate = refl;
  same_line_mode = refl;
  same_env_length = refl;
  same_fixed_args = refl;
}

-- The mode has launched the vectors (the latest first) and has lost no child.
pub record Tracks (base : Command) (mode : XargsMode) (launched : List (List Str)) : Type 0 where
  pub children : List ℕ
  pub consistent : Consistent mode.pool mode.world children
  pub same_command : SameCommand base mode.cmd
  pub history : vectors mode.world ≡ launched

-- What is done leaves the input alone, and a halt in force.
pub record Continues (mode mode' : XargsMode) : Type 0 where
  pub toker_same : mode'.toker ≡ mode.toker
  pub source_same : mode'.arg_source ≡ mode.arg_source
  pub halt_stays : mode.pool.halt ≡ true → mode'.pool.halt ≡ true

pub Continues-trans : {m n k : XargsMode} → Continues m n → Continues n k → Continues m k
Continues-trans i j = record {
  toker_same = j.toker_same ∙ i.toker_same;
  source_same = j.source_same ∙ i.source_same;
  halt_stays = λ h. j.halt_stays (i.halt_stays h);
}

-- The children in flight are no more than those launched.
children-le :
    {base : Command} {mode : XargsMode} {launched : List (List Str)}
    → (t : Tracks base mode launched) → length t.children ≤ length launched
children-le {mode} t = omega (
  arith,
  length-Perm t.consistent.accounted,
  length-append t.children (pids_of mode.world.reaped),
  length-map (λ (c : ℕ × List Str). c.0) mode.world.launched,
  length-map (λ (c : ℕ × List Str). c.1) mode.world.launched,
  ap length t.history,
)

nothing_in : (reaped : List (ℕ × RawStatus)) → length reaped ≡ 0 → reaped ≡ []
nothing_in [] e = refl
nothing_in (r ∷ reaped) e = absurd (omega arith)

-- A pool that has launched nothing has not halted.
pub unlaunched-running :
    {base : Command} {mode : XargsMode} → Tracks base mode [] → mode.pool.halt ≡ false
unlaunched-running {mode} t =
    t.consistent.halt_is
    ∙ ap any_halting (
        nothing_in mode.world.reaped (
          omega (
            arith,
            length-Perm t.consistent.accounted,
            length-append t.children (pids_of mode.world.reaped),
            length-map (λ (c : ℕ × List Str). c.0) mode.world.launched,
            length-map (λ (c : ℕ × List Str). c.1) mode.world.launched,
            length-map (λ (c : ℕ × RawStatus). c.0) mode.world.reaped,
            ap length t.history,
          )))

-- A child that joins those in flight, and the history.
submit-Consistent :
    {pool pool' : ProcessPool} {world world' : World} {children : List ℕ} (pid : ℕ)
    (vector : List Str)
    → Consistent pool world children
    → Pids.Represents pool' (children ++ pid ∷ [])
    → Kept pool pool'
    → world'.launched ≡ (pid, vector) ∷ world.launched
    → world'.reaped ≡ world.reaped
    → Consistent pool' world' (children ++ pid ∷ [])
submit-Consistent {pool} {pool'} {world} {world'} {children} pid vector c r k l d = record {
  represents = r;
  status_is = k.status_kept ∙ c.status_is ∙ ap worst_status (sym d);
  halt_is = k.halt_kept ∙ c.halt_is ∙ ap any_halting (sym d);
  accounted =
      rw (l, d)
        (subst (Perm (pid ∷ pids_of world.launched))
          (sym (append_assoc children (pid ∷ []) (pids_of world.reaped)))
          (Perm.trans (Perm.cons pid c.accounted)
            (Perm.symm (perm_middle children (pids_of world.reaped)))));
}

module _ (kernel : Kernel) (base : Command) where
  -- Why an execution may leave the process: the fork that comes next fails, or 2^63 children or more
  -- have been launched.
  pub data LaunchFails (forks : ℕ) (launched : List (List Str)) : Type 0 where
    no_fork : kernel.fork forks ≡ none → LaunchFails forks launched
    no_place : size_max / 2 < length launched → LaunchFails forks launched

  -- What an execution comes to: where the pool has halted, nothing; else the launch of the command,
  -- which is then empty.
  abbrev pub Executed : XargsMode → List (List Str) → XargsMode → Type 0
  Executed mode launched mode' =
      Continues mode mode'
      × ((mode'.pool.halt ≡ true) × (mode'.cmd ≡ mode.cmd) × Tracks base mode' launched
          ⊎ (mode'.pool.halt ≡ false)
            × (mode'.cmd ≡ recycle_command mode.cmd)
            × Tracks base mode' (build_exec_args mode.cmd ∷ launched))

  launched-Tracks :
      (mode : XargsMode) (pool' : ProcessPool) (launched : List (List Str)) (pid : ℕ)
      → (t : Tracks base mode launched) → Pids.Represents pool' (t.children ++ pid ∷ [])
      → Kept mode.pool pool'
      → Tracks base
          (record mode {
            cmd = recycle_command mode.cmd;
            pool = pool';
            world = record mode.world {
              forks = mode.world.forks + 1;
              launched = (pid, build_exec_args mode.cmd) ∷ mode.world.launched;
            };
          })
          (build_exec_args mode.cmd ∷ launched)
  unfolding recycle_command
  launched-Tracks mode pool' launched pid t r k = record {
    children = t.children ++ pid ∷ [];
    consistent = submit-Consistent pid (build_exec_args mode.cmd) t.consistent r k refl refl;
    same_command = record {
      same_max_args = t.same_command.same_max_args;
      same_max_length = t.same_command.same_max_length;
      same_placeholder = t.same_command.same_placeholder;
      same_terminate = t.same_command.same_terminate;
      same_line_mode = t.same_command.same_line_mode;
      same_env_length = t.same_command.same_env_length;
      same_fixed_args = t.same_command.same_fixed_args;
    };
    history = ap (◌∷◌ (build_exec_args mode.cmd)) t.history;
  }

  async-ok :
      (cmd : Command) (world : World) {pid : ℕ}
      → kernel.fork world.forks ≡ some pid
      → command_execute_async kernel cmd world
        ≡ ok (
          pid,
          recycle_command cmd,
          record world {
            forks = world.forks + 1;
            launched = (pid, build_exec_args cmd) ∷ world.launched;
          },
        )
  unfolding command_execute_async phxargs_fork
  async-ok cmd world forked = rw (forked, phxargs_fork) refl

  async-exit :
      (cmd : Command) (world : World)
      → kernel.fork world.forks ≡ none
      → command_execute_async kernel cmd world ≡ exit exit_failure
  unfolding command_execute_async phxargs_fork
  async-exit cmd world none_left = rw (none_left, phxargs_fork) refl

  launch_child-Tracks :
      (mode : XargsMode) (launched : List (List Str))
      → Tracks base mode launched
      → Yields
          (LaunchFails mode.world.forks launched)
          (λ mode'.
            Continues mode mode'
            × (mode'.pool.halt ≡ mode.pool.halt)
            × (mode'.cmd ≡ recycle_command mode.cmd)
            × Tracks base mode' (build_exec_args mode.cmd ∷ launched))
          (launch_child kernel mode)
  unfolding launch_child
  launch_child-Tracks mode launched t = elim (Option-cases (kernel.fork mode.world.forks)) [
    | inl none_left ↦ rw (async-exit mode.cmd mode.world none_left) (exits (no_fork none_left))
    | inr (pid, forked) ↦ rw (async-ok mode.cmd mode.world forked) (
        >>=-Yields _
          (Yields-weaken (process_pool_submit-Yields pid t.consistent.represents) (λ _ p. p)
            (λ many. no_place (omega (arith, children-le t))))
          (λ pool' (r, k). returns (
            record { toker_same = refl; source_same = refl; halt_stays = λ h. k.halt_kept ∙ h },
            k.halt_kept,
            refl,
            launched-Tracks mode pool' launched pid t r k,
          )))
  ]

  executed :
      (mode waited : XargsMode) (launched : List (List Str))
      → Tracks base waited launched
      → Continues mode waited
      → waited.cmd ≡ mode.cmd
      → Yields
          (LaunchFails waited.world.forks launched)
          (Executed mode launched)
          (launch kernel waited)
  unfolding launch
  executed mode waited launched t i c =
      let choice = λ (halted : Bool). if halted then ok waited else launch_child kernel waited in
      elim (Bool-cases waited.pool.halt) [
        | inl halted ↦ Yields-ok (ap choice halted) (i, inl (halted, c, t))
        | inr running ↦ subst (Yields _ _) (sym (ap choice running)) (
            Yields-weaken (launch_child-Tracks waited launched t)
              (λ mode' (i', kept, c', t'). (
                Continues-trans i i',
                inr (
                  kept ∙ running,
                  c' ∙ ap recycle_command c,
                  subst (λ d. Tracks base mode' (build_exec_args d ∷ launched)) c t',
                ),
              ))
              (λ why. why))
      ]

  waited-Tracks :
      (mode : XargsMode) (pool' : ProcessPool) (world' : World) (children' : List ℕ)
      (launched : List (List Str))
      → Tracks base mode launched
      → Consistent pool' world' children'
      → world'.launched ≡ mode.world.launched
      → Tracks base (record mode { pool = pool'; world = world' }) launched
  waited-Tracks mode pool' world' children' launched t c l = record {
    children = children';
    consistent = c;
    same_command = t.same_command;
    history = ap (map (λ c. c.1)) l ∙ t.history;
  }

  -- On a lawful system, executing the command of a mode waits for room; then, unless the pool has
  -- halted, it launches the command's argument vector and empties the command.
  pub execute_command-Tracks :
      (mode : XargsMode) (launched : List (List Str))
      → IsLawful kernel
      → Tracks base mode launched
      → Yields
          (LaunchFails mode.world.forks launched)
          (Executed mode launched)
          (xargs_mode_execute_command kernel mode)
  unfolding xargs_mode_execute_command
  execute_command-Tracks mode launched law t =
      let (pool', world', children', e, c, _, l, stays, _, f) =
        process_pool_wait_if_full-HasRoom kernel law mode.pool mode.world t.children t.consistent in
      rw e (
        Yields-weaken
          (executed mode (record mode { pool = pool'; world = world' }) launched
            (waited-Tracks mode pool' world' children' launched t c l)
            (record { toker_same = refl; source_same = refl; halt_stays = stays }) refl)
          (λ _ x. x) (λ why. subst (λ n. LaunchFails n launched) f why))
