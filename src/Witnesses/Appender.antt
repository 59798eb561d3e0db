-- ===== src/Witnesses/Appender.antt =====
-- A run of the default mode at a concrete input.
use phxargs.Base.{◌+◌, refl, true, false, List, [], ◌∷◌, arith, Yields}
use phxargs.Base.Strings.{Str}
use phxargs.DelimTokenizer.{
  delim_tokenizer_create, next_delim_token, delim_loop, delim_tokenizer_start_token,
  delim_tokenizer_append_to_token, delim_tokenizer_end_token, strip_newline, is_delim, delim_eof,
}
use phxargs.Tokenizer.{
  tokenizer_create, tokenizer_add, tokenizer_drop_last, tokenizer_token, tokenizer_reset,
  tokenizer_char,
}
use phxargs.Buffer.{buffer_create, grow, store, buffer_put, buffer_drop_last, buffer_reset}
use phxargs.ProcessPool.{process_pool_create}
use phxargs.ProcessPool.Reap.{new_world, process_pool_create-Consistent}
use phxargs.Command.{command_increment_line_count}
use phxargs.CommandArgs.Refines.{bytes_of}
use phxargs.XargsMode.{XargsMode, delim, tokenizer_next_token}
use phxargs.XargsMode.Launches.{SameCommand-refl}
use phxargs.XargsMode.Feeds.{Feeds, finished, fed}
use phxargs.AppenderMode.{appender_mode_run}
use phxargs.AppenderMode.Serves.{Serves}
use phxargs.AppenderMode.Finish.{Completed, RunFails}
use phxargs.AppenderMode.Runs.{appender_mode_run-Completed}
use phxargs.Witnesses.{small_command, steady, steady-IsLawful}

-- /bin/echo with no limit that matters, no argument yet, and "a" and "b" as the input.
abbrev pub echo_mode : XargsMode
echo_mode = record {
  arg_source = record { bytes = b'a' ∷ b'\n' ∷ b'b' ∷ b'\n' ∷ []; error = false };
  cmd = record small_command {
    input_args = record { count = 0; capacity = 2; args = []; length_bytes = 0 };
  };
  toker = delim (delim_tokenizer_create 4 b'\n');
  pool = process_pool_create steady 1;
  world = new_world;
}

abbrev pub echo_tokens : List Str
echo_tokens = (b'a' ∷ []) ∷ (b'b' ∷ []) ∷ []

pub echo_mode-Serves : Serves echo_mode.cmd echo_mode [] []
unfolding bytes_of
echo_mode-Serves = record {
  tracks = record {
    children = [];
    consistent = process_pool_create-Consistent steady 1;
    same_command = SameCommand-refl echo_mode.cmd;
    history = refl;
  };
  arguments = record { items_are = refl; counted = refl; measured = refl; fits = omega arith };
}

pub echo_mode-Feeds : Feeds true echo_mode.toker echo_mode.arg_source echo_tokens false
unfolding tokenizer_next_token next_delim_token delim_loop delim_tokenizer_create
    delim_tokenizer_start_token delim_tokenizer_append_to_token delim_tokenizer_end_token
    strip_newline is_delim delim_eof tokenizer_create tokenizer_add tokenizer_drop_last
    tokenizer_token tokenizer_reset tokenizer_char buffer_create grow store buffer_put
    buffer_drop_last buffer_reset
echo_mode-Feeds =
    fed
      (λ cmd. record {
        after = _;
        counted = command_increment_line_count cmd;
        lines_only = (cmd.line_count + 1, refl);
        error_is = refl;
        fetches = refl;
      })
      (omega arith)
      (λ _.
        fed
          (λ cmd. record {
            after = _;
            counted = command_increment_line_count cmd;
            lines_only = (cmd.line_count + 1, refl);
            error_is = refl;
            fetches = refl;
          })
          (omega arith)
          (λ _. finished (λ cmd. record {
            after = _;
            counted = cmd;
            lines_only = (cmd.line_count, refl);
            error_is = refl;
            fetches = refl;
          })))

appender_mode_run-Completed_example :
    Yields
      (RunFails steady echo_mode.cmd echo_tokens false)
      (Completed echo_mode.cmd false echo_tokens)
      (appender_mode_run steady true false echo_mode)
appender_mode_run-Completed_example =
    appender_mode_run-Completed steady steady-IsLawful echo_mode.cmd refl true false false
      echo_tokens echo_mode echo_mode-Feeds echo_mode-Serves
