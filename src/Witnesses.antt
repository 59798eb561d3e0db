-- ===== src/Witnesses.antt =====
-- The theorems at concrete inputs, and tests of the definitions.
mod Appender
mod Executing
mod Replacing
mod Configuring
mod Replacer
mod Starting
mod Whole
use mathlib.Core.List.{Perm, map}
use mathlib.Core.List.Perm
use phxargs.Base.{
  ◌⊎◌, inr, ◌++◌, exit, exit_failure, ℕ, suc, ◌+◌, ◌≤◌, ◌<◌, ◌≡◌, ◌≢◌, refl, inl, true, false, List,
  [], ◌∷◌, none, some, ok, arith, length,
}
use phxargs.Base.Int.{pos, negsuc}
use phxargs.Base.Strings.{Str, until_nul}
use phxargs.Buffer.{Buffer, buffer_create, buffer_put}
use phxargs.Buffer.Refines.{Represents, buffer_create-Represents, buffer_put-Represents}
use phxargs.SpaceTokenizer.{Next, next_space_token, space_tokenizer_create}
use phxargs.SpaceTokenizer.Grammar.{nil, cons, plain, quoted, Shape, word}
use phxargs.SpaceTokenizer.Reads.{Reads, next_space_token-Shape}
use phxargs.SpaceTokenizer.Total.{next_space_token-total, space_tokenizer_create-IsReady}
use phxargs.DelimTokenizer.{DelimNext, next_delim_token, delim_tokenizer_create}
use phxargs.DelimTokenizer.Items.{first_item, without_newline}
use phxargs.DelimTokenizer.Reads as Delim
use phxargs.DelimTokenizer.Steps.{delim_tokenizer_create-Represents}
use phxargs.DelimTokenizer.SignedChar.{next_delim_token_high}
use phxargs.Options.{Options}
use phxargs.CommandArgs.{CommandArgs, command_args_add}
use phxargs.CommandArgs.Refines as Args
use phxargs.CommandArgs.Refines.{bytes_of}
use phxargs.Command.{
  Command, default_cmd, command_length, command_arg_would_exceed_limits,
  command_ensure_length_not_exceeded, command_add_input_argument,
  command_should_execute_after_arg_added, recycle_command, command_create, system_max_length,
}
use phxargs.Command.Limits.{IsWithin, accepted-IsWithin, oversized_token_lem}
use phxargs.Command.Create.{SizeFails, Starts, command_create-Starts}
use phxargs.World.{
  Kernel, World, RawStatus, exited, signalled, WaitAnswer, interrupted, failed, child, sigusr1,
  sigusr2,
}
use phxargs.ProcessPool.{
  ProcessPool, process_pool_drain, process_pool_wait_if_full, process_pool_submit, reap_one,
  apply_signal_adjustments, deliver, severity,
}
use phxargs.ProcessPool.Pids as Pids
use phxargs.ProcessPool.Status.{
  Reaped, worst_status, status_of, worst_status-Perm, worst_status-bound,
}
use phxargs.ProcessPool.Reap.{
  Consistent, any_halting, IsLawful, Untouched, new_world, reap_one-Consistent,
}
use phxargs.ProcessPool.Loops.{HasRoom, process_pool_wait_if_full-HasRoom, process_pool_drain-reaps}
use phxargs.ProcessPool.Signals.{
  Settled, adjusted, apply_signal_adjustments-max_procs, apply_signal_adjustments_loses,
  apply_signal_adjustments_bounds,
}

-- a 'b c' d
abbrev quoted_bytes : List ℕ
quoted_bytes = b'a' ∷ b'\'' ∷ b'b' ∷ b' ' ∷ b'\'' ∷ b'\n' ∷ b'd' ∷ []

abbrev quoted_word : List ℕ
quoted_word = b'a' ∷ b'\'' ∷ b'b' ∷ b' ' ∷ b'\'' ∷ []

quoted_word_ne : quoted_word ≢ []
quoted_word_ne e = cc

abbrev quoted_shape : Shape quoted_bytes
quoted_shape =
    word [] (b'a' ∷ b'\'' ∷ b'b' ∷ b' ' ∷ b'\'' ∷ []) (b'a' ∷ b'b' ∷ b' ' ∷ []) b'\n' (b'd' ∷ [])
      refl nil
      (plain refl (
        quoted {q = b'\''} {body = b'b' ∷ b' ' ∷ []} {raw = []} refl
          (cons refl refl (cons refl refl nil)) nil))
      quoted_word_ne refl

next_space_token-Shape_example :
    (n : Next ℕ) × (next_space_token suc
        (space_tokenizer_create 4 none)
        (record { bytes = quoted_bytes; error = false })
        0
      ≡ ok n)
    × Reads suc (space_tokenizer_create 4 none) quoted_shape false 0 n
next_space_token-Shape_example =
    next_space_token-Shape suc (space_tokenizer_create 4 none) quoted_bytes false 0
      (space_tokenizer_create-IsReady 4 none) (omega arith) quoted_shape

next_space_token-total_example :
    (s : Shape quoted_bytes) × (n : Next ℕ) × (next_space_token suc
        (space_tokenizer_create 4 none)
        (record { bytes = quoted_bytes; error = false })
        0
      ≡ ok n)
    × Reads suc (space_tokenizer_create 4 none) s false 0 n
next_space_token-total_example =
    next_space_token-total suc (space_tokenizer_create 4 none) quoted_bytes false 0
      (space_tokenizer_create-IsReady 4 none) (omega arith)

-- a,b
abbrev comma_bytes : List ℕ
comma_bytes = b'a' ∷ b',' ∷ b'b' ∷ []

next_delim_token-Item_example :
    (n : DelimNext ℕ) × (next_delim_token true suc
        (delim_tokenizer_create 4 b',')
        (record { bytes = comma_bytes; error = false })
        0
      ≡ ok n)
    × Delim.Reads true suc
        (delim_tokenizer_create 4 b',')
        (first_item true (delim_tokenizer_create 4 b',').delim comma_bytes)
        false
        0
        n
next_delim_token-Item_example =
    Delim.next_delim_token-Item true suc (delim_tokenizer_create 4 b',') comma_bytes false 0
      (delim_tokenizer_create-Represents 4 b',') (omega arith)
      (first_item true (delim_tokenizer_create 4 b',').delim comma_bytes)

next_delim_token_high_example :
    (n : DelimNext ℕ) × (next_delim_token true suc
        (delim_tokenizer_create 4 200)
        (record { bytes = b'a' ∷ 200 ∷ b'b' ∷ []; error = false })
        0
      ≡ ok n)
    × (n.token ≡ some (until_nul (without_newline (b'a' ∷ 200 ∷ b'b' ∷ []))))
    × (n.ctx ≡ 0)
unfolding delim_tokenizer_create
next_delim_token_high_example =
    next_delim_token_high suc (delim_tokenizer_create 4 200) b'a' (200 ∷ b'b' ∷ []) 0
      (delim_tokenizer_create-Represents 4 200) (omega arith) (omega arith)

buffer_put-Represents_example :
    (b' : Buffer) × (buffer_put (buffer_create 0) b'x' ≡ ok b') × Represents b' (b'x' ∷ [])
buffer_put-Represents_example =
    buffer_put-Represents b'x' (buffer_create-Represents 0) (omega arith)

-- A system on which the first child in flight is the first to end, with status 0.
abbrev answer_first : List ℕ → WaitAnswer
answer_first [] = failed
answer_first (pid ∷ pids) = interrupted (child pid (exited 0))

abbrev steady : Kernel
steady = record {
  fork = λ n. some (100 + n);
  waitpid = λ n pids. answer_first pids;
  before = λ n. [];
  between = λ n. [];
  sc_child_max = pos 50;
}

steady-IsLawful : IsLawful steady
steady-IsLawful = record { waits = λ n pid pids. (inl refl, λ e. cc) }

-- Two children in flight.
abbrev two_pool : ProcessPool
two_pool = record {
  max_procs = 2;
  capacity = 2;
  child_max = pos 50;
  count = 2;
  status = 0;
  halt = false;
  pids = some 100 ∷ some 101 ∷ [];
  sigusr1_count = 0;
  sigusr2_count = 0;
  applied_sigusr1 = 0;
  applied_sigusr2 = 0;
}

abbrev two_world : World
two_world = record new_world { forks = 2; launched = (101, []) ∷ (100, []) ∷ [] }

two-Consistent : Consistent two_pool two_world (100 ∷ 101 ∷ [])
unfolding worst_status
two-Consistent = record {
  represents = record { allocated = refl; fits = omega arith; counted = refl; contents = refl };
  status_is = refl;
  halt_is = refl;
  accounted = Perm.swap 100 101 [];
}

two-Settled : Settled two_pool
two-Settled = record { settled1 = refl; settled2 = refl }

reap_one-Consistent_example :
    (pool' : ProcessPool) × (world' : World) × (children' : List ℕ) × (reap_one steady two_pool
        two_world
      ≡ ok (pool', world'))
    × Consistent pool' world' children'
    × (length children' ≡ 1)
    × Untouched two_pool pool' two_world world'
reap_one-Consistent_example =
    reap_one-Consistent steady two_pool two_world 100 (101 ∷ []) steady-IsLawful two-Consistent

process_pool_wait_if_full-HasRoom_example :
    (pool' : ProcessPool) × (world' : World) × (children' : List ℕ) × (process_pool_wait_if_full
        steady two_pool two_world
      ≡ ok (pool', world'))
    × Consistent pool' world' children'
    × HasRoom pool'
    × (world'.launched ≡ two_world.launched)
    × (two_pool.halt ≡ true → pool'.halt ≡ true)
    × (pool'.max_procs ≡ (apply_signal_adjustments (deliver [] two_pool) []).max_procs)
    × (world'.forks ≡ two_world.forks)
process_pool_wait_if_full-HasRoom_example =
    process_pool_wait_if_full-HasRoom steady steady-IsLawful two_pool two_world (100 ∷ 101 ∷ [])
      two-Consistent

process_pool_drain-reaps_example :
    (pool' : ProcessPool) × (world' : World) × (process_pool_drain steady two_pool two_world
      ≡ ok (pool', world'))
    × (pool'.count ≡ 0)
    × Perm (101 ∷ 100 ∷ []) (map (λ c. c.0) world'.reaped)
    × (pool'.status ≡ worst_status world'.reaped)
    × (pool'.halt ≡ any_halting world'.reaped)
    × (world'.launched ≡ two_world.launched)
    × (two_pool.halt ≡ true → pool'.halt ≡ true)
process_pool_drain-reaps_example =
    process_pool_drain-reaps steady steady-IsLawful two_pool two_world (100 ∷ 101 ∷ [])
      two-Consistent

process_pool_submit-Represents_example :
    (pool' : ProcessPool) × (process_pool_submit two_pool 102 ≡ ok pool')
    × Pids.Represents pool' (100 ∷ 101 ∷ 102 ∷ [])
    × Pids.Kept two_pool pool'
process_pool_submit-Represents_example =
    Pids.process_pool_submit-Represents 102 two-Consistent.represents (omega arith)

abbrev endings : List (ℕ × RawStatus)
endings = (7, exited 3) ∷ (8, signalled 9) ∷ []

worst_status-Perm_example :
    worst_status endings ≡ worst_status ((8, signalled 9) ∷ (7, exited 3) ∷ [])
worst_status-Perm_example =
    worst_status-Perm {xs = endings} (Perm.swap (8, signalled 9) (7, exited 3) [])

worst_status-bound_example :
    (status_of (exited 3) ≤ worst_status endings)
    × ((d : ℕ × RawStatus) × Reaped d endings × (worst_status endings ≡ status_of d.1))
worst_status-bound_example = worst_status-bound (7, exited 3) endings (inl refl)

apply_signal_adjustments-max_procs_example :
    (apply_signal_adjustments (deliver (sigusr1 ∷ sigusr2 ∷ sigusr1 ∷ []) two_pool) []).max_procs
    ≡ adjusted (pos 50) 2 2 1
apply_signal_adjustments-max_procs_example =
    apply_signal_adjustments-max_procs two_pool (sigusr1 ∷ sigusr2 ∷ sigusr1 ∷ []) [] two-Settled

apply_signal_adjustments_bounds_example :
    (0
      < (apply_signal_adjustments
          (deliver (sigusr2 ∷ sigusr2 ∷ sigusr2 ∷ []) two_pool)
          []).max_procs)
    × ((apply_signal_adjustments (deliver (sigusr2 ∷ sigusr2 ∷ sigusr2 ∷ []) two_pool) []).max_procs
        ≤ 50)
apply_signal_adjustments_bounds_example =
    apply_signal_adjustments_bounds two_pool (sigusr2 ∷ sigusr2 ∷ sigusr2 ∷ []) [] 50 two-Settled
      refl (omega arith) (omega arith)

apply_signal_adjustments_loses_example :
    ((apply_signal_adjustments (deliver (sigusr1 ∷ []) two_pool) (sigusr1 ∷ [])).max_procs
      ≡ (apply_signal_adjustments (deliver (sigusr1 ∷ []) two_pool) []).max_procs)
    × Settled (apply_signal_adjustments (deliver (sigusr1 ∷ []) two_pool) (sigusr1 ∷ []))
apply_signal_adjustments_loses_example =
    apply_signal_adjustments_loses two_pool (sigusr1 ∷ []) (sigusr1 ∷ []) two-Settled (omega arith)

-- `-n 2` and a limit of 20 bytes, with /bin/echo and no environment.
abbrev small_command : Command
small_command = record {
  max_lines = 0;
  max_args = 2;
  max_length = 20;
  arg_placeholder = none;
  open_tty = false;
  prompt = false;
  trace = false;
  terminate_on_too_large_command = false;
  line_mode = false;
  line_count = 0;
  env_length = 0;
  fixed_args = record { count = 1; capacity = 1; args = default_cmd ∷ []; length_bytes = 10 };
  input_args = record { count = 1; capacity = 2; args = (b'a' ∷ []) ∷ []; length_bytes = 2 };
  replaced_fixed_args = record { count = 0; capacity = 1; args = []; length_bytes = 0 };
}

small_arguments : Args.Represents small_command.input_args ((b'a' ∷ []) ∷ [])
unfolding bytes_of
small_arguments = record { items_are = refl; counted = refl; measured = refl; fits = omega arith }

small-IsWithin : IsWithin small_command ((b'a' ∷ []) ∷ [])
unfolding command_length
small-IsWithin = record {
  arguments = small_arguments;
  number = inr (omega arith);
  size = inr (omega arith);
}

command_args_add-Represents_example :
    (a' : CommandArgs) × (command_args_add small_command.input_args (b'b' ∷ []) ≡ ok a')
    × Args.Represents a' ((b'a' ∷ []) ∷ (b'b' ∷ []) ∷ [])
command_args_add-Represents_example =
    Args.command_args_add-Represents (b'b' ∷ []) small_arguments (omega arith)

small_accepts : command_arg_would_exceed_limits small_command (b'b' ∷ []) ≡ ok false
unfolding command_arg_would_exceed_limits command_ensure_length_not_exceeded command_length
small_accepts = refl

accepted-IsWithin_example :
    (cmd' : Command) × (command_add_input_argument small_command (b'b' ∷ []) ≡ ok cmd')
    × ((command_should_execute_after_arg_added cmd' ≡ negsuc 0)
          × (cmd'.terminate_on_too_large_command ≡ true)
          × (cmd'.max_length < command_length cmd')
        ⊎ IsWithin cmd' ((b'a' ∷ []) ∷ (b'b' ∷ []) ∷ []))
accepted-IsWithin_example =
    accepted-IsWithin small_command ((b'a' ∷ []) ∷ []) (b'b' ∷ []) small-IsWithin (λ e. cc)
      (omega arith) small_accepts

abbrev one_item : List Str
one_item = (b'a' ∷ []) ∷ []

abbrev long_token : Str
long_token = default_cmd ++ default_cmd

oversized_token_lem_example :
    (one_item ≡ []) × (command_arg_would_exceed_limits small_command long_token ≡ exit exit_failure)
    ⊎ (command_arg_would_exceed_limits small_command long_token ≡ ok true)
      × (cmd' : Command) × (command_add_input_argument (recycle_command small_command) long_token
          ≡ ok cmd')
      × (command_should_execute_after_arg_added cmd' ≡ pos 0)
      × (cmd'.max_length < command_length cmd')
oversized_token_lem_example =
    oversized_token_lem small_command one_item long_token small_arguments refl refl refl
      (omega arith) (omega arith)

-- No options but `-s 20`.
abbrev small_options : Options
small_options = record {
  optind_val = 1;
  use_nul_char_as_arg_delimiter = false;
  arg_file_path = none;
  arg_delimiter = 0;
  logical_end_of_input_marker = none;
  arg_placeholder = none;
  max_lines_per_command = 0;
  line_mode_specified = false;
  max_args_per_command = 0;
  open_tty = false;
  prompt = false;
  suppress_execution_on_empty_input = false;
  max_command_length = 20;
  max_command_length_specified = true;
  trace = false;
  terminate_on_too_large_command = false;
  max_procs = 1;
}

command_create-Starts_example :
    (command_create small_options [] [] (pos 4096) ≡ exit exit_failure)
      × SizeFails small_options [] [] (pos 4096)
    ⊎ (cmd : Command) × (command_create small_options [] [] (pos 4096) ≡ ok cmd)
      × Starts small_options [] [] (pos 4096) cmd
command_create-Starts_example = command_create-Starts small_options [] [] (pos 4096)
