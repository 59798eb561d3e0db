-- ===== src/ReplacerMode.antt =====
-- src/replacer_mode.c: each token replaces the placeholder in a command of its own.
pub mod Arguments
pub mod Rounds
pub mod Loop
pub mod Runs
use phxargs.Base.{
  ℕ, zero, suc, ◌+◌, Bool, true, false, none, some, Outcome, ok, exit, no_fuel, exit_failure, ◌>>=◌,
  if◌then◌else◌, length,
}
use phxargs.Base.Strings.{Str}
use phxargs.World.{Kernel}
use phxargs.XargsMode.{
  XargsMode, xargs_mode_next_token, xargs_mode_tokenizer_errored,
  xargs_mode_ensure_command_length_not_exceeded, xargs_replace_args, xargs_mode_execute_command,
  xargs_mode_halted, xargs_mode_drain,
}

-- The body of the loop, at a token: the new mode, and whether the loop is left.
unfoldable pub replacer_step : Kernel → XargsMode → Str → Outcome (XargsMode × Bool)
replacer_step kernel mode token = do
  _ ← xargs_mode_ensure_command_length_not_exceeded mode token
  replaced ← xargs_replace_args mode token
  executed ← xargs_mode_execute_command kernel replaced
  ok (executed, xargs_mode_halted executed)

-- The loop, with a bound on the rounds.
unfoldable pub replacer_loop : Kernel → Bool → ℕ → XargsMode → Outcome XargsMode
unfolding replacer_step
replacer_loop kernel char_is_signed zero mode = no_fuel
replacer_loop kernel char_is_signed (suc rounds) mode = do
  (token, read) ← xargs_mode_next_token char_is_signed mode
  elim token [
    | none ↦ ok read
    | some arg ↦ (do
      (next, stop) ← replacer_step kernel read arg
      elim stop [ true ↦ ok next | false ↦ replacer_loop kernel char_is_signed rounds next ])
  ]

-- What follows the loop: the status that is returned, and the final state.
unfoldable pub replacer_finish : Kernel → XargsMode → Outcome (ℕ × XargsMode)
replacer_finish kernel mode =
    if xargs_mode_tokenizer_errored mode
    then (do _ ← xargs_mode_drain kernel mode; exit exit_failure)
    else xargs_mode_drain kernel mode

-- Each token takes a byte of the input at least, so the rounds cannot be more than the bytes.
unfoldable pub replacer_mode_run : Kernel → Bool → XargsMode → Outcome (ℕ × XargsMode)
unfolding replacer_loop replacer_finish
replacer_mode_run kernel char_is_signed mode = do
  after ← replacer_loop kernel char_is_signed (length mode.arg_source.bytes + 1) mode
  replacer_finish kernel after
