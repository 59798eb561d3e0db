-- ===== src/Command.antt =====
-- src/command.c: the command line under construction, its limits, and its launch.
pub mod Limits
pub mod Create
pub mod Child
pub mod ChildEnds
use phxargs.Base.{
  ℕ, ◌+◌, ◌-◌, ◌*◌, Bool, true, false, ◌&&◌, ◌||◌, not, List, [], ◌∷◌, ◌++◌, Option, none, some,
  Outcome, ok, exit, undefined, defined, exit_failure, ◌>>=◌, ltb, ◌==◌, if◌then◌else◌, length,
}
use phxargs.Base.Int.{ℤ, pos, pos_part, ltb_ℤ, negsuc}
use phxargs.Base.Strings.{Str}
use phxargs.Util.{phxargs_min}
use phxargs.Options.Accessors.{
  options_arg_placeholder, options_max_lines_per_command, options_max_args_per_command,
  options_open_tty, options_prompt, options_max_command_length, options_trace,
  options_terminate_on_too_large_command, options_line_mode, options_max_command_length_specified,
}
use phxargs.Options.{Options}
use phxargs.Str.{str_replace}
use phxargs.CommandArgs.{
  CommandArgs, command_args_create, command_args_create_with_capacity, command_args_add,
  command_args_count, command_args_length,
}
use phxargs.World.{Kernel, World}

-- "/bin/echo"
abbrev pub default_cmd : Str
default_cmd = b'/' ∷ b'b' ∷ b'i' ∷ b'n' ∷ b'/' ∷ b'e' ∷ b'c' ∷ b'h' ∷ b'o' ∷ []

pub record Command : Type 0 where
  pub max_lines : ℕ
  pub max_args : ℕ
  pub max_length : ℕ
  pub arg_placeholder : Option Str
  pub open_tty : Bool
  pub prompt : Bool
  pub trace : Bool
  pub terminate_on_too_large_command : Bool
  pub line_mode : Bool
  pub line_count : ℕ
  pub env_length : ℕ
  pub fixed_args : CommandArgs
  pub input_args : CommandArgs
  pub replaced_fixed_args : CommandArgs

unfoldable pub calc_env_length : List Str → ℕ
calc_env_length [] = 0
calc_env_length (e ∷ environ) = (length e + 1) + calc_env_length environ

unfoldable pub command_length : Command → ℕ
command_length cmd =
    cmd.env_length + command_args_length cmd.fixed_args + command_args_length cmd.input_args

abbrev pub command_max_args_specified : Command → Bool
command_max_args_specified cmd = ltb 0 cmd.max_args

-- The limit that the system sets; `sysconf (_SC_ARG_MAX)` is not positive where there is none.
unfoldable pub system_max_length : ℤ → ℕ → ℕ
system_max_length sc_arg_max env_length =
    let margin = 2 * env_length + 2048 in
    if ltb_ℤ (pos 0) sc_arg_max
    then if ltb margin (pos_part sc_arg_max) then pos_part sc_arg_max - margin else 0
    else 128 * 1024

unfoldable pub decide_max_length : Command → Options → ℤ → Outcome ℕ
unfolding system_max_length
decide_max_length cmd opts sc_arg_max =
    let max_length = system_max_length sc_arg_max cmd.env_length in
    let specified = options_max_command_length opts in
    if not (options_max_command_length_specified opts)
    then ok (phxargs_min (128 * 1024) max_length)
    else if ltb specified (command_length cmd)
    then exit exit_failure
    else if ltb max_length specified
    then exit exit_failure
    else ok specified

-- `… != NULL`.
abbrev pub is_given : Option Str → Bool
is_given none = false
is_given (some _) = true

-- Fresh input arguments.
unfoldable pub create_input_args : ℕ → CommandArgs
unfolding command_args_create command_args_create_with_capacity
create_input_args max_args =
    if ltb 0 max_args then command_args_create_with_capacity max_args else command_args_create

unfoldable pub recycle_command : Command → Command
unfolding create_input_args command_args_create_with_capacity
recycle_command cmd =
    let replaced =
      if is_given cmd.arg_placeholder
      then command_args_create_with_capacity (command_args_count cmd.fixed_args)
      else cmd.replaced_fixed_args in
    record cmd {
      line_count = 0;
      replaced_fixed_args = replaced;
      input_args = create_input_args cmd.max_args;
    }

unfoldable pub build_exec_args : Command → List Str
build_exec_args cmd =
    let fixed_args_in_play =
      if is_given cmd.arg_placeholder then cmd.replaced_fixed_args else cmd.fixed_args in
    fixed_args_in_play.args ++ cmd.input_args.args

unfoldable pub add_fixed_arguments : CommandArgs → List Str → Outcome CommandArgs
add_fixed_arguments fixed_args [] = ok fixed_args
add_fixed_arguments fixed_args (arg ∷ argv) = do
  more ← command_args_add fixed_args arg
  add_fixed_arguments more argv

unfoldable pub create_fixed_args : List Str → Outcome CommandArgs
unfolding add_fixed_arguments
create_fixed_args [] = command_args_add (command_args_create_with_capacity 1) default_cmd
create_fixed_args (arg ∷ argv) =
    add_fixed_arguments (command_args_create_with_capacity (length (arg ∷ argv))) (arg ∷ argv)

-- The command before its limit is decided.
unfoldable pub unlimited_command : Options → CommandArgs → List Str → Command
unfolding create_input_args calc_env_length
unlimited_command opts fixed_args environ = record {
  max_lines = options_max_lines_per_command opts;
  max_args = options_max_args_per_command opts;
  max_length = 0;
  arg_placeholder = options_arg_placeholder opts;
  open_tty = options_open_tty opts;
  prompt = options_prompt opts;
  trace = options_trace opts;
  terminate_on_too_large_command = options_terminate_on_too_large_command opts;
  line_mode = options_line_mode opts;
  line_count = 0;
  env_length = calc_env_length environ;
  fixed_args = fixed_args;
  input_args = create_input_args (options_max_args_per_command opts);
  replaced_fixed_args = command_args_create_with_capacity (command_args_count fixed_args);
}

-- `argv` is what stands from `arg_index` on; `environ` and `sc_arg_max` are the system's.
unfoldable pub command_create : Options → List Str → List Str → ℤ → Outcome Command
unfolding create_fixed_args decide_max_length unlimited_command
command_create opts argv environ sc_arg_max = do
  fixed_args ← create_fixed_args argv
  let unlimited = unlimited_command opts fixed_args environ
  max_length ← decide_max_length unlimited opts sc_arg_max
  ok (record unlimited { max_length = max_length })

-- The loop over the fixed arguments behind the command word.
unfoldable pub replace_each : Option Str → Str → CommandArgs → List Str → Outcome CommandArgs
replace_each arg_placeholder new_arg replaced_fixed_args [] = ok replaced_fixed_args
replace_each arg_placeholder new_arg replaced_fixed_args (arg ∷ fixed_args) = do
  result ← str_replace (some arg) arg_placeholder (some new_arg)
  replaced ← defined result
  more ← command_args_add replaced_fixed_args replaced
  replace_each arg_placeholder new_arg more fixed_args

unfoldable pub command_replace_args : Command → Str → Outcome Command
unfolding replace_each
command_replace_args cmd new_arg = elim cmd.fixed_args.args [
  | [] ↦ undefined
  | word ∷ fixed_args ↦ (do
    with_word ← command_args_add cmd.replaced_fixed_args word
    replaced ← replace_each cmd.arg_placeholder new_arg with_word fixed_args
    ok (record cmd { replaced_fixed_args = replaced }))
]

abbrev pub length_with : Command → Str → ℕ
length_with cmd new_arg = command_length cmd + length new_arg + 1

unfoldable pub command_ensure_length_not_exceeded : Command → Str → Outcome (Unit {0})
command_ensure_length_not_exceeded cmd new_arg =
    if (is_given cmd.arg_placeholder || command_args_count cmd.input_args == 0)
      && ltb cmd.max_length (length_with cmd new_arg)
    then exit exit_failure
    else ok tt

unfoldable pub command_arg_would_exceed_limits : Command → Str → Outcome Bool
unfolding command_ensure_length_not_exceeded
command_arg_would_exceed_limits cmd new_arg = do
  _ ← command_ensure_length_not_exceeded cmd new_arg
  let would_exceed_size = not cmd.line_mode && ltb cmd.max_length (length_with cmd new_arg)
  let at_max_args = command_args_count cmd.input_args == cmd.max_args
  ok (
      if command_max_args_specified cmd
      then if cmd.terminate_on_too_large_command
        then at_max_args
        else at_max_args || would_exceed_size
      else would_exceed_size)

-- 1 to execute, 0 not to, -1 where the length limit is exceeded.
unfoldable pub command_should_execute_after_arg_added : Command → ℤ
command_should_execute_after_arg_added cmd =
    if cmd.terminate_on_too_large_command && ltb cmd.max_length (command_length cmd)
    then negsuc 0
    else if cmd.line_mode
    then if cmd.line_count == cmd.max_lines then pos 1 else pos 0
    else pos 0

unfoldable pub command_add_input_argument : Command → Str → Outcome Command
command_add_input_argument cmd new_arg = do
  input_args ← command_args_add cmd.input_args new_arg
  ok (record cmd { input_args = input_args })

abbrev pub command_input_args_remain : Command → Bool
command_input_args_remain cmd = ltb 0 (command_args_count cmd.input_args)

abbrev pub command_max_length : Command → ℕ
command_max_length cmd = cmd.max_length

abbrev pub command_increment_line_count : Command → Command
command_increment_line_count cmd = record cmd { line_count = cmd.line_count + 1 }

-- The pid of the child, as the parent gets it.
unfoldable pub phxargs_fork : Kernel → World → Outcome ℕ
phxargs_fork kernel world = elim (kernel.fork world.forks) [
  | none ↦ exit exit_failure
  | some pid ↦ ok pid
]

-- The parent's side: the child has been launched with the arguments, and the command is empty.
unfoldable pub command_execute_async : Kernel → Command → World → Outcome (ℕ × Command × World)
unfolding recycle_command build_exec_args phxargs_fork
command_execute_async kernel cmd world = do
  pid ← phxargs_fork kernel world
  ok (
    pid,
    recycle_command cmd,
    record world {
      forks = world.forks + 1;
      launched = (pid, build_exec_args cmd) ∷ world.launched;
    },
  )
