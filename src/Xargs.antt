-- ===== src/Xargs.antt =====
-- src/xargs.c, src/main.c and the creation of a mode: the program from its arguments to its status.
pub mod Starting
pub mod Inputs
pub mod Ends
pub mod Runs
pub mod RoundTrips
pub mod Success
use phxargs.Base.{
  ℕ, ◌-◌, Bool, true, false, not, ◌||◌, List, Option, none, some, Outcome, ok, ◌>>=◌, ◌==◌,
  if◌then◌else◌, drop,
}
use phxargs.Base.Int.{ℤ}
use phxargs.Base.Strings.{Str}
use phxargs.World.{Kernel}
use phxargs.ArgSource.{Files, arg_source_open}
use phxargs.Options.Accessors.{
  options_index_of_first_arg, options_use_nul_char_as_arg_delimiter, options_arg_file_path,
  options_arg_delimiter, options_logical_end_of_input_marker, options_arg_placeholder,
  options_max_procs, options_suppress_execution_on_empty_input,
}
use phxargs.Options.{Options, options_create}
use phxargs.Command.{Command, command_max_length, command_create}
use phxargs.ProcessPool.{process_pool_create}
use phxargs.ProcessPool.Reap.{new_world}
use phxargs.SpaceTokenizer.{space_tokenizer_create}
use phxargs.DelimTokenizer.{delim_tokenizer_create}
use phxargs.XargsMode.{XargsMode, Toker, space, delim}
use phxargs.AppenderMode.{appender_mode_run}
use phxargs.ReplacerMode.{replacer_mode_run}

-- What the program asks the system for. `sc_arg_max` is the answer of `sysconf (_SC_ARG_MAX)`.
pub record System : Type 0 where
  pub kernel : Kernel
  pub files : Files
  pub environ : List Str
  pub sc_arg_max : ℤ
  pub char_is_signed : Bool

-- The choice of the tokenizer in `xargs_mode_create`.
unfoldable pub create_tokenizer : Options → Command → Toker
create_tokenizer opts cmd =
    if options_use_nul_char_as_arg_delimiter opts || not (options_arg_delimiter opts == 0)
    then delim (delim_tokenizer_create (command_max_length cmd) (options_arg_delimiter opts))
    else space
        (space_tokenizer_create (command_max_length cmd) (options_logical_end_of_input_marker opts))

-- `argv` is what stands from `arg_index` on.
unfoldable pub xargs_mode_create : System → Options → List Str → Outcome XargsMode
unfolding create_tokenizer
xargs_mode_create system opts argv = do
  arg_source ← arg_source_open system.files (options_arg_file_path opts)
  cmd ← command_create opts argv system.environ system.sc_arg_max
  ok (record {
    arg_source = arg_source;
    cmd = cmd;
    toker = create_tokenizer opts cmd;
    pool = process_pool_create system.kernel (options_max_procs opts);
    world = new_world;
  })

-- The modes behind `xargs_mode_ops`, with the state of their own.
pub data Xargs : Type 0 where
  appender_mode : Bool → XargsMode → Xargs
  replacer_mode : XargsMode → Xargs

unfoldable pub appender_mode_create : System → Options → List Str → Outcome Xargs
unfolding xargs_mode_create
appender_mode_create system opts argv = do
  base ← xargs_mode_create system opts argv
  ok (appender_mode (options_suppress_execution_on_empty_input opts) base)

unfoldable pub replacer_mode_create : System → Options → List Str → Outcome Xargs
unfolding xargs_mode_create
replacer_mode_create system opts argv = do
  base ← xargs_mode_create system opts argv
  ok (replacer_mode base)

-- The mode that the options ask for.
unfoldable pub create_mode : Option Str → System → Options → List Str → Outcome Xargs
unfolding appender_mode_create replacer_mode_create
create_mode none system opts argv = appender_mode_create system opts argv
create_mode (some arg_placeholder) system opts argv = replacer_mode_create system opts argv

-- `argv` is what stands behind the program's name.
unfoldable pub xargs_create : System → List Str → Outcome Xargs
unfolding create_mode
xargs_create system argv = do
  opts ← options_create system.kernel.sc_child_max argv
  create_mode (options_arg_placeholder opts) system opts
      (drop (options_index_of_first_arg opts - 1) argv)

unfoldable pub xargs_run : System → Xargs → Outcome (ℕ × XargsMode)
xargs_run system (appender_mode suppress mode) =
    appender_mode_run system.kernel system.char_is_signed suppress mode
xargs_run system (replacer_mode mode) = replacer_mode_run system.kernel system.char_is_signed mode

-- `main`: the status is the result.
unfoldable pub main : System → List Str → Outcome ℕ
unfolding xargs_create xargs_run
main system argv = do
  x ← xargs_create system argv
  (execution_status, _) ← xargs_run system x
  ok execution_status
