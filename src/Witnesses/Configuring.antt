-- ===== src/Witnesses/Configuring.antt =====
-- Options at concrete command lines.
use phxargs.Base.{ℕ, ◌≡◌, ◌⊎◌, refl, true, List, [], ◌∷◌, ok, exit, exit_failure, arith, Yields}
use phxargs.Base.Int.{pos}
use phxargs.Base.Strings.{Str}
use phxargs.Strtol.{strtol, skip_spaces, take_sign, read_digits, in_range, has_digit}
use phxargs.Getopt.{getopt, cluster_answers, kind_of, argument_kind}
use phxargs.Options.{
  options_create, configure_options, parse_options, parse_option, finish_options,
  imply_by_placeholder, parse_number_arg, parse_number_arg_with_min, set_max_lines_per_command,
  set_max_args_per_command, set_max_procs, with_optarg, init_options,
}
use phxargs.Options.Numbers.{IsNumber, parse_number_arg-cases, decimal, parse_number_arg-decimal}
use phxargs.Options.Creates.{CreationFails, Created, options_create-Created}
use phxargs.Options.Exclusions.{IsSound, options_create-IsSound}

-- -L2 -n 3 -pt ls
abbrev line_then_args : List Str
line_then_args =
    (b'-' ∷ b'L' ∷ b'2' ∷ [])
    ∷ (b'-' ∷ b'n' ∷ [])
    ∷ (b'3' ∷ [])
    ∷ (b'-' ∷ b'p' ∷ b't' ∷ [])
    ∷ (b'l' ∷ b's' ∷ [])
    ∷ []

-- The option that comes last is in force.
args_after_lines :
    options_create (pos 40) line_then_args
    ≡ ok (record init_options {
      optind_val = 5;
      max_args_per_command = 3;
      prompt = true;
      trace = true;
    })
unfolding options_create configure_options parse_options parse_option finish_options
    imply_by_placeholder parse_number_arg parse_number_arg_with_min set_max_lines_per_command
    set_max_args_per_command with_optarg getopt cluster_answers kind_of argument_kind strtol
    skip_spaces take_sign read_digits in_range has_digit
args_after_lines = refl

-- -p -P0
abbrev prompt_unlimited : List Str
prompt_unlimited = (b'-' ∷ b'p' ∷ []) ∷ (b'-' ∷ b'P' ∷ b'0' ∷ []) ∷ []

prompt_unlimited_accepted :
    options_create (pos 40) prompt_unlimited
    ≡ ok (record init_options { optind_val = 3; prompt = true; trace = true; max_procs = 0 })
unfolding options_create configure_options parse_options parse_option finish_options
    imply_by_placeholder parse_number_arg_with_min set_max_procs with_optarg getopt cluster_answers
    kind_of argument_kind strtol skip_spaces take_sign read_digits in_range has_digit
prompt_unlimited_accepted = refl

-- -n x
bad_number : options_create (pos 40) ((b'-' ∷ b'n' ∷ []) ∷ (b'x' ∷ []) ∷ []) ≡ exit exit_failure
unfolding options_create configure_options parse_options parse_option parse_number_arg
    parse_number_arg_with_min set_max_args_per_command with_optarg getopt cluster_answers kind_of
    argument_kind strtol skip_spaces take_sign read_digits in_range has_digit
bad_number = refl

options_create-Created_example :
    Yields
      (CreationFails (pos 40) line_then_args)
      (Created (pos 40) line_then_args)
      (options_create (pos 40) line_then_args)
options_create-Created_example = options_create-Created (pos 40) line_then_args

options_create-IsSound_example :
    Yields
      (CreationFails (pos 40) prompt_unlimited)
      (IsSound (pos 40))
      (options_create (pos 40) prompt_unlimited)
options_create-IsSound_example = options_create-IsSound (pos 40) prompt_unlimited

parse_number_arg-cases_example :
    ((n : ℕ) × (parse_number_arg (b' ' ∷ b'+' ∷ b'7' ∷ []) ≡ ok n)
      × IsNumber (b' ' ∷ b'+' ∷ b'7' ∷ []) 1 n)
    ⊎ (parse_number_arg (b' ' ∷ b'+' ∷ b'7' ∷ []) ≡ exit exit_failure)
      × ((n : ℕ) → IsNumber (b' ' ∷ b'+' ∷ b'7' ∷ []) 1 n → ⊥)
parse_number_arg-cases_example = parse_number_arg-cases (b' ' ∷ b'+' ∷ b'7' ∷ [])

parse_number_arg-decimal_example : parse_number_arg (decimal 1025 1024) ≡ ok 1024
parse_number_arg-decimal_example = parse_number_arg-decimal 1024 (omega arith) (omega arith)
