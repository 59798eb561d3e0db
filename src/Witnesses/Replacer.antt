-- ===== src/Witnesses/Replacer.antt =====
-- A run with a placeholder at a concrete input.
use phxargs.Base.{refl, true, false, [], ◌∷◌, some, arith, Yields}
use phxargs.Base.Strings.{Str, NoNuls}
use phxargs.ProcessPool.Reap.{process_pool_create-Consistent}
use phxargs.CommandArgs.Refines as Args
use phxargs.CommandArgs.Refines.{bytes_of}
use phxargs.Command.{default_cmd}
use phxargs.XargsMode.{XargsMode}
use phxargs.XargsMode.Launches.{SameCommand-refl}
use phxargs.ReplacerMode.{replacer_mode_run}
use phxargs.ReplacerMode.Loop.{Fails}
use phxargs.ReplacerMode.Rounds.{Ready}
use phxargs.ReplacerMode.Runs.{Completed, replacer_mode_run-Completed}
use phxargs.Witnesses.{steady, steady-IsLawful}
use phxargs.Witnesses.Appender.{echo_mode, echo_tokens, echo_mode-Feeds}

abbrev braces : Str
braces = b'{' ∷ b'}' ∷ []

-- /bin/echo {}, with "a" and "b" as the input.
abbrev braces_mode : XargsMode
braces_mode = record echo_mode {
  cmd = record echo_mode.cmd {
    arg_placeholder = some braces;
    fixed_args = record {
      count = 2;
      capacity = 2;
      args = default_cmd ∷ braces ∷ [];
      length_bytes = 13;
    };
    replaced_fixed_args = record { count = 0; capacity = 2; args = []; length_bytes = 0 };
  };
}

braces_fixed : Args.Represents braces_mode.cmd.fixed_args (default_cmd ∷ braces ∷ [])
unfolding bytes_of
braces_fixed = record { items_are = refl; counted = refl; measured = refl; fits = omega arith }

braces_whole : NoNuls (braces ∷ [])
braces_whole = ((λ e. cc, (λ e. cc, tt)), tt)

echo_tokens_whole : NoNuls echo_tokens
echo_tokens_whole = ((λ e. cc, tt), ((λ e. cc, tt), tt))

braces_mode-Ready : Ready braces_mode.cmd default_cmd (braces ∷ []) braces_mode []
unfolding bytes_of
braces_mode-Ready = record {
  tracks = record {
    children = [];
    consistent = process_pool_create-Consistent steady 1;
    same_command = SameCommand-refl braces_mode.cmd;
    history = refl;
  };
  no_input = record { items_are = refl; counted = refl; measured = refl; fits = omega arith };
  fresh = record { items_are = refl; counted = refl; measured = refl; fits = omega arith };
  room = omega arith;
}

replacer_mode_run-Completed_example :
    Yields
      (Fails steady braces_mode.cmd default_cmd (braces ∷ []) echo_tokens false)
      (Completed braces default_cmd (braces ∷ []) echo_tokens)
      (replacer_mode_run steady true braces_mode)
replacer_mode_run-Completed_example =
    replacer_mode_run-Completed steady steady-IsLawful braces_mode.cmd braces default_cmd
      (braces ∷ []) refl braces_fixed braces_whole (omega arith) true false echo_tokens braces_mode
      echo_mode-Feeds echo_tokens_whole braces_mode-Ready
