-- ===== src/Xargs/Starting.antt =====
-- What a run starts from.
use mathlib.Core.Path.{subst}
use phxargs.Base.{
  ℕ, ◌≤◌, ◌≡◌, refl, sym, ap, ◌∙◌, inl, inr, true, false, List, [], Option, none, some, Yields,
  returns, exits, >>=-Yields, Yields-weaken, Option-cases, arith,
}
use phxargs.Base.Strings.{Str}
use phxargs.Getopt.{getopt}
use phxargs.Base.Int.{ℤ}
use phxargs.World.{Kernel}
use phxargs.ProcessPool.{ProcessPool, process_pool_create}
use phxargs.ProcessPool.Reap.{process_pool_create-Consistent}
use phxargs.CommandArgs.{CommandArgs, command_args_create_with_capacity}
use phxargs.CommandArgs.Refines as Args
use phxargs.CommandArgs.Refines.{command_args_create_with_capacity-Represents}
use phxargs.Stream.{Stream}
use phxargs.ArgSource.{Files, arg_source_open}
use phxargs.Options.{Options}
use phxargs.Options.Creates.{CreationFails, Created, options_create-Created}
use phxargs.Options.Exclusions.{Created-IsSound}
use phxargs.Command.Limits.{LineModeTerminates}
use phxargs.Command.Create.{SizeFails, Starts, command_create-Starts}
use phxargs.XargsMode.{XargsMode}
use phxargs.XargsMode.Launches.{Tracks, SameCommand-refl}
use phxargs.Xargs.{
  System, Xargs, create_tokenizer, appender_mode, replacer_mode, xargs_mode_create,
  appender_mode_create, replacer_mode_create, create_mode, xargs_create,
}

-- The input that is read: the standard input, or the file that `-a` names.
pub data Opened (files : Files) : Option Str → Stream → Type 0 where
  standard_input : Opened files none files.stdin
  file :
      {path : Str} {source : Stream}
      → files.fopen path ≡ some source
      → Opened files (some path) source

-- A pool with the limit of `-P`, that has run no child and has received no signal.
pub record IsIdle (child_max : ℤ) (max_procs : ℕ) (pool : ProcessPool) : Type 0 where
  pub limit_is : pool.max_procs ≡ max_procs
  pub bound_is : pool.child_max ≡ child_max
  pub none_running : pool.count ≡ 0
  pub no_status : pool.status ≡ 0
  pub not_halted : pool.halt ≡ false
  pub no_signal : (pool.sigusr1_count ≡ 0) × (pool.sigusr2_count ≡ 0)

process_pool_create-IsIdle :
    (kernel : Kernel) (max_procs : ℕ)
    → IsIdle kernel.sc_child_max max_procs (process_pool_create kernel max_procs)
unfolding process_pool_create
process_pool_create-IsIdle kernel max_procs = record {
  limit_is = refl;
  bound_is = refl;
  none_running = refl;
  no_status = refl;
  not_halted = refl;
  no_signal = (refl, refl);
}

-- A mode that has done nothing yet, as the options ask for it, with the operands as the words of
-- its command.
pub record IsNew (system : System) (argv : List Str) (opts : Options) (mode : XargsMode)
    : Type 0 where
  pub created : Created system.kernel.sc_child_max argv opts
  pub opened : Opened system.files opts.arg_file_path mode.arg_source
  pub toker_is : mode.toker ≡ create_tokenizer opts mode.cmd
  pub tracks : Tracks mode.cmd mode []
  pub idle : IsIdle system.kernel.sc_child_max opts.max_procs mode.pool
  pub starts : Starts opts (getopt none argv).operands system.environ system.sc_arg_max mode.cmd
  pub fresh : Args.Represents mode.cmd.replaced_fixed_args []
  pub room : mode.cmd.fixed_args.count ≤ mode.cmd.replaced_fixed_args.capacity
  pub implied : LineModeTerminates mode.cmd

-- The program is in the mode that fits its options.
pub data IsStarted (system : System) (argv : List Str) : Xargs → Type 0 where
  appends :
      {opts : Options} {mode : XargsMode}
      → IsNew system argv opts mode
      → mode.cmd.arg_placeholder ≡ none
      → IsStarted system argv (appender_mode opts.suppress_execution_on_empty_input mode)
  replaces :
      {opts : Options} {mode : XargsMode} (placeholder : Str)
      → IsNew system argv opts mode
      → mode.cmd.arg_placeholder ≡ some placeholder
      → mode.cmd.terminate_on_too_large_command ≡ true
      → IsStarted system argv (replacer_mode mode)

-- Why the program may end before it reads any input: for its options; or, with the options that the
-- arguments choose, for a file of `-a` that cannot be opened, or an `-s` that cannot be met.
pub data StartFails (system : System) (argv : List Str) : Type 0 where
  bad_options : CreationFails system.kernel.sc_child_max argv → StartFails system argv
  no_file :
      {opts : Options} {path : Str}
      → Created system.kernel.sc_child_max argv opts
      → opts.arg_file_path ≡ some path
      → system.files.fopen path ≡ none
      → StartFails system argv
  bad_size :
      {opts : Options}
      → Created system.kernel.sc_child_max argv opts
      → SizeFails opts (getopt none argv).operands system.environ system.sc_arg_max
      → StartFails system argv

module _ (system : System) (argv : List Str) where
  open_source-Yields :
      {opts : Options} (path : Option Str)
      → Created system.kernel.sc_child_max argv opts
      → opts.arg_file_path ≡ path
      → Yields
          (StartFails system argv)
          (Opened system.files path)
          (arg_source_open system.files path)
  unfolding arg_source_open
  open_source-Yields none created given = returns standard_input
  open_source-Yields (some path) created given = elim (Option-cases (system.files.fopen path)) [
    | inl missing ↦ rw (missing, arg_source_open) (exits (no_file created given missing))
    | inr (source, opened) ↦ rw (opened, arg_source_open) (returns (file opened))
  ]

  started-IsNew :
      (opts : Options) (mode : XargsMode)
      → Created system.kernel.sc_child_max argv opts
      → Opened system.files opts.arg_file_path mode.arg_source
      → mode.toker ≡ create_tokenizer opts mode.cmd
      → Tracks mode.cmd mode []
      → IsIdle system.kernel.sc_child_max opts.max_procs mode.pool
      → Starts opts (getopt none argv).operands system.environ system.sc_arg_max mode.cmd
      → IsNew system argv opts mode
  unfolding command_args_create_with_capacity
  started-IsNew opts mode created opened reads tracks idle s =
      let sound = Created-IsSound created in
      record {
        created = created;
        opened = opened;
        toker_is = reads;
        tracks = tracks;
        idle = idle;
        starts = s;
        fresh =
            subst (λ (a : CommandArgs). Args.Represents a []) (sym s.replaced)
              (command_args_create_with_capacity-Represents mode.cmd.fixed_args.count);
        room = omega (arith, ap (λ (a : CommandArgs). a.capacity) s.replaced);
        implied = λ h. s.strict ∙ (sound.lines (sym s.line_mode ∙ h)).0;
      }

  mode_create-IsNew :
      (opts : Options)
      → Created system.kernel.sc_child_max argv opts
      → Yields
          (StartFails system argv)
          (IsNew system argv opts)
          (xargs_mode_create system opts (getopt none argv).operands)
  unfolding xargs_mode_create
  mode_create-IsNew opts created =
      let operands = (getopt none argv).operands in
      >>=-Yields {Q = IsNew system argv opts} _ (open_source-Yields opts.arg_file_path created refl)
        (λ source opened.
          elim (command_create-Starts opts operands system.environ system.sc_arg_max) [
            | inl (refused, why) ↦ rw refused (exits (bad_size created why))
            | inr (cmd, e, s) ↦ rw e (
                returns (
                  started-IsNew opts _ created opened refl
                    (record {
                      children = [];
                      consistent = process_pool_create-Consistent system.kernel opts.max_procs;
                      same_command = SameCommand-refl cmd;
                      history = refl;
                    })
                    (process_pool_create-IsIdle system.kernel opts.max_procs) s))
          ])

  create_mode-IsStarted :
      (placeholder : Option Str) (opts : Options)
      → opts.arg_placeholder ≡ placeholder
      → Created system.kernel.sc_child_max argv opts
      → Yields
          (StartFails system argv)
          (IsStarted system argv)
          (create_mode placeholder system opts (getopt none argv).operands)
  unfolding create_mode appender_mode_create replacer_mode_create
  create_mode-IsStarted none opts e created =
      >>=-Yields {Q = IsStarted system argv} _ (mode_create-IsNew opts created)
        (λ mode h. returns (appends h (h.starts.placeholder ∙ e)))
  create_mode-IsStarted (some s) opts e created =
      >>=-Yields {Q = IsStarted system argv} _ (mode_create-IsNew opts created) (λ mode h. returns (
        replaces s h (h.starts.placeholder ∙ e)
          (h.starts.strict ∙ ((Created-IsSound created).replacing e).0)))

  -- The creation of the program, from any arguments, either exits with status 1, where the arguments
  -- choose no options, where the file that they choose with `-a` cannot be opened, or where the `-s`
  -- that they choose is too small for the environment and the words or more than the system leaves; or
  -- it gives the mode that `-I` asks for, or the default one where it is not given, with the options
  -- that the arguments choose. The mode reads the standard input or the file of `-a` with the tokenizer
  -- that the options ask for. Its command has the operands as its words (`/bin/echo` without any), no
  -- input argument, the placeholder and the options `-n`, `-L`, `-o`, `-p`, `-t` and `-x` as
  -- chosen (`-L` and `-I` imply `-x`), and the limit of `-s`, or without it the smaller of 128 KiB and
  -- what the system leaves. Its pool has the limit of `-P`, no child, the status 0, and is not halted;
  -- and nothing has been launched.
  pub xargs_create-IsStarted :
      Yields (StartFails system argv) (IsStarted system argv) (xargs_create system argv)
  unfolding xargs_create
  xargs_create-IsStarted =
      >>=-Yields {Q = IsStarted system argv} _
        (Yields-weaken (options_create-Created system.kernel.sc_child_max argv) (λ _ c. c)
          bad_options)
        (λ opts created.
          subst
            (λ xs.
              Yields (StartFails system argv) (IsStarted system argv)
                (create_mode opts.arg_placeholder system opts xs))
            (sym created.operands_at)
            (create_mode-IsStarted opts.arg_placeholder opts refl created))
