-- ===== src/Xargs/Ends.antt =====
-- What the program relies on, and what it comes to.
use phxargs.Base.{ℕ, ◌≤◌, ◌≡◌, ◌⊎◌, Bool, List, ◌∷◌, Option, none, some, ok, length}
use phxargs.Base.Int.{pos_part}
use phxargs.Base.Strings.{Str}
use phxargs.Stream.{Stream}
use phxargs.ProcessPool.Reap.{IsLawful}
use phxargs.DelimTokenizer.Steps.{room}
use phxargs.Getopt.{getopt}
use phxargs.Options.{Options}
use phxargs.Command.{Command}
use phxargs.Command.Create.{words_of}
use phxargs.XargsMode.{XargsMode}
use phxargs.AppenderMode.Finish as Appends
use phxargs.ReplacerMode.Arguments.{length_bound}
use phxargs.ReplacerMode.Loop as ReplacerLoop
use phxargs.ReplacerMode.Runs as Replaces
use phxargs.ReplacerMode.Runs.{replacer_mode_run-Completed}
use phxargs.Xargs.{System, Xargs, appender_mode, replacer_mode, xargs_create, xargs_run}
use phxargs.Xargs.Starting.{Opened, IsNew, StartFails}
use phxargs.Xargs.Inputs.{IsInput}

-- What the program relies on: the children can be waited for; no input has 2^63 bytes or more; and
-- the limit of the system on the arguments is at most 2^31 bytes.
pub record IsFit (system : System) : Type 0 where
  pub lawful : IsLawful system.kernel
  pub short :
      (path : Option Str) (source : Stream)
      → Opened system.files path source
      → length source.bytes ≤ room
  pub limited : pos_part system.sc_arg_max ≤ length_bound

-- What a run has done, with its status and its final state, in the mode that the options ask for.
pub data Done (suppress : Bool) (tokens words : List Str) (cmd : Command) (result : ℕ × XargsMode)
    : Type 0 where
  appended :
      cmd.arg_placeholder ≡ none
      → cmd.fixed_args.args ≡ words
      → Appends.Completed cmd suppress tokens result
      → Done suppress tokens words cmd result
  replaced :
      (placeholder word : Str) (args : List Str)
      → cmd.arg_placeholder ≡ some placeholder
      → words ≡ word ∷ args
      → Replaces.Completed placeholder word args tokens result
      → Done suppress tokens words cmd result

-- Why a run may leave the process.
pub data RunStops (system : System) (tokens words : List Str) (errored : Bool) (cmd : Command)
    : Type 0 where
  appending_stops :
      cmd.arg_placeholder ≡ none
      → Appends.RunFails system.kernel cmd tokens errored
      → RunStops system tokens words errored cmd
  replacing_stops :
      (placeholder word : Str) (args : List Str)
      → cmd.arg_placeholder ≡ some placeholder
      → words ≡ word ∷ args
      → ReplacerLoop.Fails system.kernel cmd word args tokens errored
      → RunStops system tokens words errored cmd

-- The program has started as its arguments ask for, with the tokens of its input.
pub record Begun (system : System) (argv : List Str) : Type 0 where
  pub opts : Options
  pub start : XargsMode
  pub x : Xargs
  pub creates : xargs_create system argv ≡ ok x
  pub mode_is :
      (x ≡ appender_mode opts.suppress_execution_on_empty_input start) ⊎ (x ≡ replacer_mode start)
  pub is_new : IsNew system argv opts start
  pub tokens : List Str
  pub errored : Bool
  pub input : IsInput system.char_is_signed opts start.arg_source tokens errored

abbrev pub words_given : List Str → List Str
words_given argv = words_of (getopt none argv).operands

-- Why the program may end with a status of its own.
pub data Stops (system : System) (argv : List Str) : Type 0 where
  not_started : StartFails system argv → Stops system argv
  run_stops :
      (b : Begun system argv)
      → RunStops system b.tokens (words_given argv) b.errored b.start.cmd
      → Stops system argv

-- The program has done what its arguments ask for, and its status is that of the run.
pub record Finished (system : System) (argv : List Str) (status : ℕ) : Type 0 where
  pub begun : Begun system argv
  pub end : XargsMode
  pub runs : xargs_run system begun.x ≡ ok (status, end)
  pub done :
      Done begun.opts.suppress_execution_on_empty_input begun.tokens
        (words_given argv)
        begun.start.cmd
        (status, end)
