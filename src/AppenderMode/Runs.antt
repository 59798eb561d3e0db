-- ===== src/AppenderMode/Runs.antt =====
-- A whole run of the default mode.
use phxargs.Base.{
  ◌+◌, ◌≡◌, refl, inl, inr, Bool, false, List, [], none, Yields, >>=-Yields, Yields-weaken, length,
  arith,
}
use phxargs.Base.Strings.{Str}
use phxargs.World.{Kernel}
use phxargs.ProcessPool.Reap.{IsLawful}
use phxargs.Command.{Command}
use phxargs.XargsMode.Feeds.{Feeds, Feeds-length}
use phxargs.XargsMode.{XargsMode}
use phxargs.AppenderMode.{appender_mode_run}
use phxargs.AppenderMode.Batches.Moves.{empty-Limited}
use phxargs.AppenderMode.Serves.{Serves}
use phxargs.AppenderMode.Loop.{loop-Ended}
use phxargs.AppenderMode.Finish.{Completed, RunFails, finish-Completed}

module _ (kernel : Kernel) (law : IsLawful kernel) (base : Command)
    (appending : base.arg_placeholder ≡ none) where
  -- A run of the default mode (no placeholder) on a lawful system, over an input that a tokenizer
  -- feeds it as tokens, from a mode that has launched nothing, holds no argument and has a consistent
  -- pool, either returns or leaves the process with status 1. It leaves only where fork fails, where
  -- there are about 2^62 tokens or more, where consecutive tokens, no more than `-n` allows, make a
  -- command longer than the limit, either one alone, or several with `-x` and with `-L` or `-n` in
  -- force, or where the tokenizer ends with an error. It returns with
  -- every child launched reaped, and the worst of their statuses; the argument vectors are the fixed
  -- arguments with a batch of input arguments each; the batches in order of their launch, then what
  -- is held, then what has not been read, are the tokens; and nothing is held or unread unless a
  -- child has halted the pool. Where there is a token, no batch is empty; where there is none, a single
  -- empty batch is launched, or with `-r` nothing. A batch has at most as many arguments as `-n` says,
  -- and makes a command within the limit, unless it is empty, or one argument without `-x` in force,
  -- or `-L` is in force without `-x`. And each batch is full before the argument that comes next: it has
  -- as many arguments as `-n` says, or would with that argument make a command longer than the limit;
  -- or `-L` is in force.
  pub appender_mode_run-Completed :
      (char_is_signed suppress errored : Bool) (tokens : List Str) (mode : XargsMode)
      → Feeds char_is_signed mode.toker mode.arg_source tokens errored
      → Serves base mode [] []
      → Yields
          (RunFails kernel base tokens errored)
          (Completed base suppress tokens)
          (appender_mode_run kernel char_is_signed suppress mode)
  unfolding appender_mode_run
  appender_mode_run-Completed char_is_signed suppress errored tokens mode feeds s =
      >>=-Yields {Q = Completed base suppress tokens} _
        (Yields-weaken
          (loop-Ended kernel law base appending char_is_signed (length mode.arg_source.bytes + 1)
            mode [] tokens false feeds refl refl refl (inr (refl, refl))
            (record {
              batches = [];
              items = [];
              serves = s;
              in_order = refl;
              launches = omega arith;
              known = record {
                sound = record { limited = tt; filled = tt; full = tt; held = empty-Limited base };
                resting = inr (inl refl);
              };
            })
            (omega (arith, Feeds-length mode.cmd feeds)))
          (λ _ x. x) inl)
        (λ (after, input_present) x.
          finish-Completed kernel law base appending char_is_signed suppress _ errored input_present
            tokens after x refl)
