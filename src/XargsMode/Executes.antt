-- ===== src/XargsMode/Executes.antt =====
-- What `xargs_mode_execute_command` does to the command and to the pool.
use mathlib.Core.Path.{subst}
use phxargs.Base.{◌≡◌, refl, sym, inl, inr, true, false, List, [], ◌∷◌, Yields, Yields-weaken}
use phxargs.Base.Strings.{Str}
use phxargs.World.{Kernel}
use phxargs.ProcessPool.Reap.{IsLawful}
use phxargs.CommandArgs.Refines as Args
use phxargs.Command.{Command, build_exec_args, recycle_command}
use phxargs.Command.Limits.{create_input_args-Represents}
use phxargs.XargsMode.{XargsMode, xargs_mode_execute_command}
use phxargs.XargsMode.Launches.{Tracks, LaunchFails, execute_command-Tracks}

-- Either the pool has halted, and nothing is launched and the command stays; or it has not, and one
-- child more has been launched with the command, which then has no input argument and no line.
pub data Execution (base : Command) (mode : XargsMode) (launched : List (List Str))
    (mode' : XargsMode) : Type 0 where
  held_back :
      mode'.pool.halt ≡ true
      → mode'.cmd ≡ mode.cmd
      → Tracks base mode' launched
      → Execution base mode launched mode'
  launched_one :
      mode'.pool.halt ≡ false
      → mode'.cmd.line_count ≡ 0
      → Args.Represents mode'.cmd.input_args []
      → Tracks base mode' (build_exec_args mode.cmd ∷ launched)
      → Execution base mode launched mode'

recycle_command-fresh :
    (cmd : Command)
    → ((recycle_command cmd).line_count ≡ 0) × Args.Represents (recycle_command cmd).input_args []
unfolding recycle_command
recycle_command-fresh cmd = (refl, create_input_args-Represents cmd.max_args)

recycled :
    (cmd : Command) {cmd' : Command}
    → cmd' ≡ recycle_command cmd
    → (cmd'.line_count ≡ 0) × Args.Represents cmd'.input_args []
recycled cmd e =
    subst (λ (c : Command). (c.line_count ≡ 0) × Args.Represents c.input_args []) (sym e)
      (recycle_command-fresh cmd)

-- On a lawful system, from a mode whose pool is consistent with its history of launches, executing the
-- command exits with status 1 only where the next fork fails, or 2^63 children or more have been
-- launched. Else it returns in one of two ways. Where a child that was reaped meanwhile, or one
-- before, has halted the pool, nothing is launched, and the command is as it was. Where the pool has
-- not halted, one child more is launched, with the argument vector of the command; and the command
-- then has no input argument and has counted no line. In both cases the pool is consistent with the
-- history.
pub execute_command-Execution :
    (kernel : Kernel) (base : Command) (mode : XargsMode) (launched : List (List Str))
    → IsLawful kernel
    → Tracks base mode launched
    → Yields
        (LaunchFails kernel base mode.world.forks launched)
        (Execution base mode launched)
        (xargs_mode_execute_command kernel mode)
execute_command-Execution kernel base mode launched law t =
    Yields-weaken (execute_command-Tracks kernel base mode launched law t)
      (λ mode' (_, ways). elim ways [
        | inl (halted, same, t') ↦ held_back halted same t'
        | inr (running, e, t') ↦
            let (no_line, empty) = recycled mode.cmd e in launched_one running no_line empty t'
      ])
      (λ why. why)
