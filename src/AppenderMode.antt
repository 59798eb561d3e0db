-- ===== src/AppenderMode.antt =====
-- src/appender_mode.c: tokens are appended to the command line until a limit is reached.
pub mod Batches
pub mod Serves
pub mod Tests
pub mod Passes
pub mod Loop
pub mod Finish
pub mod Runs
use phxargs.Base.{
  ℕ, zero, suc, ◌+◌, Bool, true, false, not, none, some, Outcome, ok, exit, no_fuel, exit_failure,
  ◌>>=◌, if◌then◌else◌, length,
}
use phxargs.Base.Strings.{Str}
use phxargs.World.{Kernel}
use phxargs.XargsMode.{
  XargsMode, xargs_mode_next_token, xargs_mode_tokenizer_errored,
  xargs_mode_arg_would_exceed_limits, xargs_mode_add_input_argument, xargs_mode_input_args_remain,
  xargs_mode_halted, xargs_mode_drain, xargs_mode_should_execute_command_after_arg_added,
  xargs_mode_execute_command,
}

module _ (kernel : Kernel) where
  -- `if (…) { execute; if (halted) break; }`: the new mode, and whether the loop is left.
  unfoldable pub execute_if : Bool → XargsMode → Outcome (XargsMode × Bool)
  execute_if due mode =
      if due
      then (do mode' ← xargs_mode_execute_command kernel mode; ok (mode', xargs_mode_halted mode'))
      else ok (mode, false)

  -- The second half of the body: the token is added, unless the loop is left.
  unfoldable pub append_unless : Bool → XargsMode → Str → Outcome (XargsMode × Bool)
  unfolding execute_if
  append_unless true mode token = ok (mode, true)
  append_unless false mode token = do
    added ← xargs_mode_add_input_argument mode token
    due ← xargs_mode_should_execute_command_after_arg_added kernel added
    execute_if due added

  -- The body of the loop, at a token.
  unfoldable pub appender_step : XargsMode → Str → Outcome (XargsMode × Bool)
  unfolding execute_if append_unless
  appender_step mode token = do
    exceeds ← xargs_mode_arg_would_exceed_limits mode token
    (flushed, stop) ← execute_if exceeds mode
    append_unless stop flushed token

  -- The execution after the loop: without input, or with arguments that are left.
  unfoldable pub execute_last : Bool → XargsMode → Bool → Outcome XargsMode
  execute_last suppress_execution_on_empty_input mode input_present =
      if not input_present
      then if not suppress_execution_on_empty_input
        then xargs_mode_execute_command kernel mode
        else ok mode
      else if xargs_mode_input_args_remain mode
      then xargs_mode_execute_command kernel mode
      else ok mode

  -- What follows the loop: the status that is returned, and the final state.
  unfoldable pub appender_finish : Bool → XargsMode → Bool → Outcome (ℕ × XargsMode)
  unfolding execute_last
  appender_finish suppress_execution_on_empty_input mode input_present =
      if xargs_mode_tokenizer_errored mode
      then (do _ ← xargs_mode_drain kernel mode; exit exit_failure)
      else (do
        last ← execute_last suppress_execution_on_empty_input mode input_present
        xargs_mode_drain kernel last)

module _ (kernel : Kernel) (char_is_signed : Bool) where
  -- The loop, with a bound on the rounds; the result says whether input was present.
  unfoldable pub appender_loop : ℕ → XargsMode → Bool → Outcome (XargsMode × Bool)
  appender_loop zero mode input_present = no_fuel
  appender_loop (suc rounds) mode input_present = do
    (token, read) ← xargs_mode_next_token char_is_signed mode
    elim token [
      | none ↦ ok (read, input_present)
      | some arg ↦ (do
        (next, stop) ← appender_step kernel read arg
        elim stop [ true ↦ ok (next, true) | false ↦ appender_loop rounds next true ])
    ]

  -- Each token takes a byte of the input at least, so the rounds cannot be more than the bytes.
  unfoldable pub appender_mode_run : Bool → XargsMode → Outcome (ℕ × XargsMode)
  appender_mode_run suppress_execution_on_empty_input mode = do
    (after, input_present) ← appender_loop (length mode.arg_source.bytes + 1) mode false
    appender_finish kernel suppress_execution_on_empty_input after input_present
