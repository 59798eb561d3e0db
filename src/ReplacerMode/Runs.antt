-- ===== src/ReplacerMode/Runs.antt =====
-- A whole run with a placeholder.
use mathlib.Core.Path.{subst}
use mathlib.Core.List.{Perm}
use phxargs.Base.{
  ℕ, ◌+◌, ◌≤◌, ◌≡◌, ◌⊎◌, refl, sym, ap, ◌∙◌, inl, inr, Bool, true, List, [], ◌∷◌, ◌++◌, some,
  Yields, returns, exits, >>=-Yields, length, arith, map, Bool-cases,
}
use phxargs.Base.Strings.{Str, NoNuls}
use phxargs.World.{Kernel}
use phxargs.ProcessPool.Status.{worst_status}
use phxargs.ProcessPool.Reap.{IsLawful, pids_of, any_halting}
use phxargs.ProcessPool.Loops.{process_pool_drain-reaps}
use phxargs.CommandArgs.Refines as Args
use phxargs.CommandArgs.Refines.{bytes_of}
use phxargs.Command.{Command}
use phxargs.XargsMode.{XargsMode, xargs_mode_tokenizer_errored, xargs_mode_drain}
use phxargs.XargsMode.Launches.{vectors}
use phxargs.XargsMode.Feeds.{Feeds, Feeds-length}
use phxargs.ReplacerMode.{replacer_finish, replacer_mode_run}
use phxargs.ReplacerMode.Arguments.{length_bound}
use phxargs.ReplacerMode.Rounds.{Ready}
use phxargs.ReplacerMode.Loop.{Vectors, no_vectors, Fails, bad_input, Ended, loop-Ended}

-- What a run comes to, with its status and its final state: a command has been launched for each
-- token taken; those left are none, unless a child has halted the pool.
pub record Completed (placeholder word : Str) (args tokens : List Str) (result : ℕ × XargsMode)
    : Type 0 where
  pub taken : List Str
  pub left : List Str
  pub all : taken ++ left ≡ tokens
  pub made : Vectors placeholder word args taken (vectors result.1.world)
  pub complete : (left ≡ []) ⊎ (result.1.pool.halt ≡ true)
  pub reaped : Perm (pids_of result.1.world.launched) (pids_of result.1.world.reaped)
  pub status : result.0 ≡ worst_status result.1.world.reaped
  pub halts : result.1.pool.halt ≡ any_halting result.1.world.reaped

module _ (kernel : Kernel) (law : IsLawful kernel) (base : Command) (placeholder word : Str)
    (args : List Str) (replacing : base.arg_placeholder ≡ some placeholder)
    (fixed : Args.Represents base.fixed_args (word ∷ args)) (whole : NoNuls args)
    (limit : base.max_length ≤ length_bound) where
  finish-Completed :
      (failing errored : Bool) (tokens : List Str) (mode : XargsMode)
      → Ended base placeholder word args tokens errored mode
      → xargs_mode_tokenizer_errored mode ≡ failing
      → Yields
          (Fails kernel base word args tokens errored)
          (Completed placeholder word args tokens)
          (replacer_finish kernel mode)
  unfolding replacer_finish xargs_mode_drain
  finish-Completed failing errored tokens mode x e =
      let (pool', world', drained, empty, reaped, status, halts, same, stays) =
        process_pool_drain-reaps kernel law mode.pool mode.world x.tracks.children
          x.tracks.consistent in
      elim (Bool-cases failing) [
        | inl h ↦ rw (e ∙ h, drained) (exits (bad_input (x.fails (e ∙ h))))
        | inr h ↦
            rw (e ∙ h, drained)
              (returns (record {
                taken = x.taken;
                left = x.left;
                all = x.all;
                made =
                    subst (Vectors placeholder word args x.taken)
                      (sym (ap (map (λ c. c.1)) same ∙ x.tracks.history)) x.made;
                complete = elim x.stopped [ inl done ↦ inl done | inr h ↦ inr (stays h) ];
                reaped = subst (λ l. Perm (pids_of l) (pids_of world'.reaped)) (sym same) reaped;
                status = status;
                halts = halts;
              }))
      ]

  -- A run with a placeholder on a lawful system, over an input that a tokenizer feeds it as tokens,
  -- either returns or leaves the process with status 1. It starts from a mode that has launched nothing and
  -- holds no argument, with a limit of at most 2^31 bytes and strings without NUL. It leaves only where
  -- fork fails, where there are 2^63 tokens or more, where a token and the words, before any
  -- replacement, are longer than the limit, or where the tokenizer ends with an error. It returns with
  -- every child launched reaped, and the worst of their statuses; the argument vectors are, one for each
  -- token taken and in their order, the word and the other words with each occurrence of the
  -- placeholder replaced by the token (an empty one replaces nothing); and all tokens are taken unless a child has halted the pool.
  pub replacer_mode_run-Completed :
      (char_is_signed errored : Bool) (tokens : List Str) (mode : XargsMode)
      → Feeds char_is_signed mode.toker mode.arg_source tokens errored
      → NoNuls tokens
      → Ready base word args mode []
      → Yields
          (Fails kernel base word args tokens errored)
          (Completed placeholder word args tokens)
          (replacer_mode_run kernel char_is_signed mode)
  unfolding replacer_mode_run
  replacer_mode_run-Completed char_is_signed errored tokens mode feeds n r =
      >>=-Yields {Q = Completed placeholder word args tokens} _
        (loop-Ended kernel law base placeholder word args replacing fixed whole limit char_is_signed
          (length mode.arg_source.bytes + 1) mode [] tokens [] feeds refl refl refl n no_vectors r
          (omega (arith, Feeds-length mode.cmd feeds)))
        (λ after x. finish-Completed _ errored tokens after x refl)
