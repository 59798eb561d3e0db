-- ===== src/XargsMode.antt =====
-- src/xargs_mode.c: the operations that the two modes share, and the choice of the tokenizer.
pub mod Launches
pub mod Executes
pub mod Feeds
pub mod Inputs
pub mod SpaceInputs
pub mod DelimInputs
pub mod Unique
pub mod Prints
use phxargs.Base.{
  ℕ, Bool, true, false, not, Option, Outcome, ok, exit, exit_failure, ◌>>=◌, ◌==◌, if◌then◌else◌,
}
use phxargs.Base.Int.{pos, negsuc}
use phxargs.Base.Strings.{Str}
use phxargs.Stream.{Stream}
use phxargs.Tokenizer.{
  TokenizerError, err_none, err_io, err_backslash_at_eof, err_unterminated_quote,
  tokenizer_get_error,
}
use phxargs.SpaceTokenizer.{SpaceTokenizer, next_space_token}
use phxargs.DelimTokenizer.{DelimTokenizer, next_delim_token}
use phxargs.Command.{
  Command, command_arg_would_exceed_limits, command_should_execute_after_arg_added,
  command_add_input_argument, command_input_args_remain, command_increment_line_count,
  command_execute_async, command_ensure_length_not_exceeded, command_replace_args,
}
use phxargs.ProcessPool.{
  ProcessPool, process_pool_wait_if_full, process_pool_drain, process_pool_submit,
  process_pool_halted,
}
use phxargs.World.{Kernel, World}

-- The tokenizers behind `tokenizer_ops`.
pub data Toker : Type 0 where
  space : SpaceTokenizer → Toker
  delim : DelimTokenizer → Toker

pub record XargsMode : Type 0 where
  pub arg_source : Stream
  pub cmd : Command
  pub toker : Toker
  pub pool : ProcessPool
  pub world : World

abbrev pub toker_error : Toker → TokenizerError
toker_error (space t) = tokenizer_get_error t.base
toker_error (delim t) = tokenizer_get_error t.base

abbrev pub is_error : TokenizerError → Bool
is_error err_none = false
is_error err_io = true
is_error err_backslash_at_eof = true
is_error err_unterminated_quote = true

-- What the mode gets from its tokenizer.
pub record Fetched : Type 0 where
  pub token : Option Str
  pub toker : Toker
  pub source : Stream
  pub cmd : Command

-- `tokenizer_next_token`: the call through the table, with the callback of the mode.
unfoldable pub tokenizer_next_token : Bool → Toker → Stream → Command → Outcome Fetched
tokenizer_next_token char_is_signed (space t) source cmd = do
  n ← next_space_token command_increment_line_count t source cmd
  ok (record { token = n.token; toker = space n.self; source = n.source; cmd = n.ctx })
tokenizer_next_token char_is_signed (delim t) source cmd = do
  n ← next_delim_token char_is_signed command_increment_line_count t source cmd
  ok (record { token = n.token; toker = delim n.self; source = n.source; cmd = n.ctx })

unfoldable pub xargs_mode_next_token : Bool → XargsMode → Outcome (Option Str × XargsMode)
xargs_mode_next_token char_is_signed mode = do
  f ← tokenizer_next_token char_is_signed mode.toker mode.arg_source mode.cmd
  ok (f.token, record mode { toker = f.toker; arg_source = f.source; cmd = f.cmd })

abbrev pub xargs_mode_tokenizer_errored : XargsMode → Bool
xargs_mode_tokenizer_errored mode = is_error (toker_error mode.toker)

abbrev pub xargs_mode_arg_would_exceed_limits : XargsMode → Str → Outcome Bool
xargs_mode_arg_would_exceed_limits mode new_arg = command_arg_would_exceed_limits mode.cmd new_arg

unfoldable pub xargs_mode_add_input_argument : XargsMode → Str → Outcome XargsMode
xargs_mode_add_input_argument mode new_arg = do
  cmd ← command_add_input_argument mode.cmd new_arg
  ok (record mode { cmd = cmd })

abbrev pub xargs_mode_ensure_command_length_not_exceeded : XargsMode → Str → Outcome (Unit {0})
xargs_mode_ensure_command_length_not_exceeded mode new_arg =
    command_ensure_length_not_exceeded mode.cmd new_arg

unfoldable pub xargs_replace_args : XargsMode → Str → Outcome XargsMode
xargs_replace_args mode new_arg = do
  cmd ← command_replace_args mode.cmd new_arg
  ok (record mode { cmd = cmd })

abbrev pub xargs_mode_input_args_remain : XargsMode → Bool
xargs_mode_input_args_remain mode = command_input_args_remain mode.cmd

abbrev pub xargs_mode_halted : XargsMode → Bool
xargs_mode_halted mode = process_pool_halted mode.pool

module _ (kernel : Kernel) where
  unfoldable pub xargs_mode_drain : XargsMode → Outcome (ℕ × XargsMode)
  xargs_mode_drain mode = do
    (pool, world) ← process_pool_drain kernel mode.pool mode.world
    ok (pool.status, record mode { pool = pool; world = world })

  -- Where the limit on the length is exceeded, the children are waited for before the exit.
  unfoldable pub xargs_mode_should_execute_command_after_arg_added : XargsMode → Outcome Bool
  xargs_mode_should_execute_command_after_arg_added mode =
      elim (command_should_execute_after_arg_added mode.cmd) [
        | negsuc _ ↦ (do _ ← process_pool_drain kernel mode.pool mode.world; exit exit_failure)
        | pos result ↦ ok (not (result == 0))
      ]

  unfoldable pub launch_child : XargsMode → Outcome XargsMode
  launch_child mode = do
    (pid, cmd, world) ← command_execute_async kernel mode.cmd mode.world
    pool ← process_pool_submit mode.pool pid
    ok (record mode { cmd = cmd; pool = pool; world = world })

  -- The launch, once there is room and nothing has halted the pool.
  unfoldable pub launch : XargsMode → Outcome XargsMode
  unfolding launch_child
  launch mode = if process_pool_halted mode.pool then ok mode else launch_child mode

  unfoldable pub xargs_mode_execute_command : XargsMode → Outcome XargsMode
  unfolding launch
  xargs_mode_execute_command mode = do
    (pool, world) ← process_pool_wait_if_full kernel mode.pool mode.world
    launch (record mode { pool = pool; world = world })
