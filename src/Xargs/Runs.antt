-- ===== src/Xargs/Runs.antt =====
-- The whole program.
use mathlib.Core.Path.{subst}
use phxargs.Base.{
  ℕ, zero, suc, ◌-◌, ◌≤◌, ◌≡◌, ◌⊎◌, refl, sym, inl, inr, List, [], ◌∷◌, none, some, ok, Outcome,
  ◌>>=◌, Yields, Yields-same, returns, >>=-Yields, Yields-weaken, drop, arith,
}
use phxargs.Base.Int.{ℤ, pos_part}
use phxargs.Base.Strings.{Str, NoNuls}
use phxargs.Getopt.{getopt}
use phxargs.Options.{Options}
use phxargs.CommandArgs.Refines as Args
use phxargs.Command.{default_cmd}
use phxargs.Command.Create.{words_of, Leaves, unlimited, room_left, none_left}
use phxargs.XargsMode.{XargsMode}
use phxargs.XargsMode.Feeds.{Feeds}
use phxargs.AppenderMode.Runs.{appender_mode_run-Completed}
use phxargs.ReplacerMode.Arguments.{length_bound}
use phxargs.ReplacerMode.Runs.{replacer_mode_run-Completed}
use phxargs.Xargs.{System, Xargs, appender_mode, replacer_mode, xargs_create, xargs_run, main}
use phxargs.Xargs.Starting.{IsNew, IsStarted, appends, replaces, xargs_create-IsStarted}
use phxargs.Xargs.Inputs.{IsInput-any, IsInput-NoNuls, create_tokenizer-Feeds}
use phxargs.Xargs.Ends.{
  IsFit, Done, appended, replaced, RunStops, appending_stops, replacing_stops, Begun, words_given,
  Stops, not_started, run_stops, Finished,
}

Leaves-bound :
    {sc_arg_max : ℤ} {env_length left : ℕ}
    → Leaves sc_arg_max env_length left
    → pos_part sc_arg_max ≤ length_bound
    → left ≤ length_bound
Leaves-bound (unlimited _) h = omega arith
Leaves-bound (room_left e) h = omega (arith, e, h)
Leaves-bound (none_left _ _) h = omega arith

words_cases :
    (operands : List Str)
    → NoNuls operands
    → (word : Str) × (args : List Str) × (words_of operands ≡ word ∷ args) × NoNuls args
words_cases [] whole = (default_cmd, [], refl, tt)
words_cases (word ∷ args) whole = (word, args, refl, whole.1)

NoNuls-drop : (n : ℕ) (strings : List Str) → NoNuls strings → NoNuls (drop n strings)
NoNuls-drop zero strings whole = whole
NoNuls-drop (suc n) [] whole = tt
NoNuls-drop (suc n) (s ∷ strings) whole = NoNuls-drop n strings whole.1

module _ (system : System) (argv : List Str) (fit : IsFit system) (whole : NoNuls argv) where
  -- A run over the tokens of its input, from the start.
  abbrev Ran : Begun system argv → Outcome (ℕ × XargsMode) → Type 0
  Ran b run =
      Yields (RunStops system b.tokens (words_given argv) b.errored b.start.cmd)
        (Done b.opts.suppress_execution_on_empty_input b.tokens (words_given argv) b.start.cmd) run

  feeds :
      (b : Begun system argv)
      → Feeds system.char_is_signed b.start.toker b.start.arg_source b.tokens b.errored
  feeds b =
      subst (λ toker. Feeds system.char_is_signed toker b.start.arg_source b.tokens b.errored)
        (sym b.is_new.toker_is)
        (create_tokenizer-Feeds system.char_is_signed b.opts b.start.cmd b.start.arg_source b.tokens
          b.errored (fit.short _ _ b.is_new.opened) b.input)

  appends-Ran :
      (b : Begun system argv)
      → b.start.cmd.arg_placeholder ≡ none
      → Ran b (xargs_run system (appender_mode b.opts.suppress_execution_on_empty_input b.start))
  unfolding xargs_run
  appends-Ran b appending =
      let start = b.is_new in
      Yields-weaken
        (appender_mode_run-Completed system.kernel fit.lawful b.start.cmd appending
          system.char_is_signed b.opts.suppress_execution_on_empty_input b.errored b.tokens b.start
          (feeds b) (record { tracks = start.tracks; arguments = start.starts.within.arguments }))
        (λ _ c. appended appending start.starts.words.items_are c)
        (λ why. appending_stops appending why)

  operands_whole : (b : Begun system argv) → NoNuls (getopt none argv).operands
  operands_whole b =
      subst NoNuls b.is_new.created.operands_at (NoNuls-drop (b.opts.optind_val - 1) argv whole)

  limit_fits : (b : Begun system argv) → b.start.cmd.max_length ≤ length_bound
  limit_fits b =
      omega (arith, b.is_new.starts.system, Leaves-bound b.is_new.starts.leaves fit.limited)

  replaces-Ran :
      (b : Begun system argv) (placeholder : Str)
      → b.start.cmd.arg_placeholder ≡ some placeholder
      → Ran b (xargs_run system (replacer_mode b.start))
  unfolding xargs_run
  replaces-Ran b placeholder replacing =
      let start = b.is_new in
      let (word, args, e, args_whole) =
        words_cases (getopt none argv).operands (operands_whole b) in
      let fixed = subst (Args.Represents b.start.cmd.fixed_args) e start.starts.words in
      Yields-weaken
        (replacer_mode_run-Completed system.kernel fit.lawful b.start.cmd placeholder word args
          replacing fixed args_whole (limit_fits b) system.char_is_signed b.errored b.tokens b.start
          (feeds b) (IsInput-NoNuls b.input)
          (record {
            tracks = start.tracks;
            no_input = start.starts.within.arguments;
            fresh = start.fresh;
            room = omega (arith, start.room, fixed.counted);
          }))
        (λ _ c. replaced placeholder word args replacing e c)
        (λ why. replacing_stops placeholder word args replacing e why)

  begin :
      {opts : Options} {start : XargsMode} (x : Xargs)
      → xargs_create system argv ≡ ok x
      → (x ≡ appender_mode opts.suppress_execution_on_empty_input start) ⊎ (x ≡ replacer_mode start)
      → IsNew system argv opts start
      → Begun system argv
  begin {opts} {start} x e m n =
      let (tokens, errored, input) = IsInput-any system.char_is_signed opts start.arg_source in
      record {
        opts = opts;
        start = start;
        x = x;
        creates = e;
        mode_is = m;
        is_new = n;
        tokens = tokens;
        errored = errored;
        input = input;
      }

  finished :
      (b : Begun system argv)
      → Ran b (xargs_run system b.x)
      → Yields
          (Stops system argv)
          (Finished system argv)
          (xargs_run system b.x >>= λ (execution_status, _). ok execution_status)
  finished b ran =
      >>=-Yields {Q = Finished system argv} _
        (Yields-weaken (Yields-same ran) (λ _ p. p) (λ why. run_stops b why))
        (λ (status, end) (e, d). returns (record { begun = b; end = end; runs = e; done = d }))

  main-step :
      (x : Xargs)
      → xargs_create system argv ≡ ok x
      → IsStarted system argv x
      → Yields
          (Stops system argv)
          (Finished system argv)
          (xargs_run system x >>= λ (execution_status, _). ok execution_status)
  unfolding begin
  main-step x e (appends {opts} {mode} n appending) =
      let b = begin x e (inl refl) n in finished b (appends-Ran b appending)
  main-step x e (replaces {mode} placeholder n replacing strict) =
      let b = begin x e (inr refl) n in finished b (replaces-Ran b placeholder replacing)

  -- The program, from any arguments that are strings without NUL, on a system whose children can be
  -- waited for, where no input has 2^63 bytes or more and `sysconf (_SC_ARG_MAX)` is at most 2^31,
  -- either exits with status 1 or returns a status; it fails no assert, and reads no memory without
  -- a value. It exits so only where the creation fails (the arguments choose no options, or a file
  -- that cannot be opened, or an `-s` that cannot be met), or the run does: where fork fails, the tokens are too many or too
  -- long, or the input is read or formed badly. Where it returns, the options are those that the
  -- arguments choose; the tokens are those of the input, by the grammar of the default mode or by
  -- the delimiter in force; the status is that of the mode's run from there, the worst of the
  -- statuses of its children, all of which have been reaped; and each of them has been launched with
  -- the operands (`/bin/echo` without any) and, in their order, a batch of the tokens, limited and
  -- filled as AppenderMode.Batches has it, or with the placeholder of `-I` replaced by one token
  -- behind the first operand. All tokens are passed on, unless a child has halted the pool. Without
  -- any token the operands are launched alone, or with `-r` nothing, where `-I` is not given.
  pub main-Finished : Yields (Stops system argv) (Finished system argv) (main system argv)
  unfolding main
  main-Finished =
      >>=-Yields {Q = Finished system argv} _
        (Yields-weaken (Yields-same (xargs_create-IsStarted system argv)) (λ _ p. p) not_started)
        (λ x (e, started). main-step x e started)
