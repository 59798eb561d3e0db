-- ===== src/Options.antt =====
-- src/options.c: the options, as the command line gives them and the rest of the program asks for them.
pub mod Numbers
pub mod Choices
pub mod Parses
pub mod Creates
pub mod Exclusions
pub mod Accessors
use phxargs.Base.{
  ℕ, ◌+◌, ◌-◌, ◌^◌, Bool, true, false, not, ◌&&◌, ◌||◌, List, [], ◌∷◌, Option, none, some, Outcome,
  ok, exit, abort, undefined, exit_failure, ◌>>=◌, ltb, ◌==◌, if◌then◌else◌, length, defined,
}
use phxargs.Base.Int.{ℤ, pos, negsuc, ltb_ℤ}
use phxargs.Base.Strings.{Str}
use phxargs.Strtol.{strtol}
use phxargs.Getopt.{Answer, getopt}

pub record Options : Type 0 where
  pub optind_val : ℕ
  pub use_nul_char_as_arg_delimiter : Bool
  pub arg_file_path : Option Str
  pub arg_delimiter : ℕ
  pub logical_end_of_input_marker : Option Str
  pub arg_placeholder : Option Str
  pub max_lines_per_command : ℕ
  pub line_mode_specified : Bool
  pub max_args_per_command : ℕ
  pub open_tty : Bool
  pub prompt : Bool
  pub suppress_execution_on_empty_input : Bool
  pub max_command_length : ℕ
  pub max_command_length_specified : Bool
  pub trace : Bool
  pub terminate_on_too_large_command : Bool
  pub max_procs : ℕ

unfoldable pub parse_number_arg_with_min : Str → ℤ → Outcome ℤ
parse_number_arg_with_min arg min_val =
    let parsed = strtol arg in
    if not parsed.converts || parsed.out_of_range || not (length parsed.rest == 0)
    then exit exit_failure
    else if ltb_ℤ parsed.value min_val
    then exit exit_failure
    else ok parsed.value

-- The conversion of a `long` to `size_t`.
abbrev pub size_of_long : ℤ → ℕ
size_of_long (pos n) = n
size_of_long (negsuc n) = 2 ^ 64 - 1 - n

unfoldable pub parse_number_arg : Str → Outcome ℕ
unfolding parse_number_arg_with_min
parse_number_arg arg = do parsed ← parse_number_arg_with_min arg (pos 1); ok (size_of_long parsed)

abbrev pub disable_nul_char_as_arg_delimiter : Options → Options
disable_nul_char_as_arg_delimiter opts = record opts { use_nul_char_as_arg_delimiter = false }

abbrev pub reset_arg_delimiter : Options → Options
reset_arg_delimiter opts = record opts { arg_delimiter = 0 }

abbrev pub enable_nul_char_as_arg_delimiter : Options → Options
enable_nul_char_as_arg_delimiter opts =
    reset_arg_delimiter (record opts { use_nul_char_as_arg_delimiter = true })

abbrev pub set_arg_delimiter : Options → ℕ → Options
set_arg_delimiter opts ch = disable_nul_char_as_arg_delimiter (record opts { arg_delimiter = ch })

abbrev pub set_arg_file_path : Options → Option Str → Options
set_arg_file_path opts path = record opts { arg_file_path = path }

abbrev pub set_logical_end_of_input_marker : Options → Option Str → Options
set_logical_end_of_input_marker opts marker = record opts { logical_end_of_input_marker = marker }

abbrev pub reset_logical_end_of_input_marker : Options → Options
reset_logical_end_of_input_marker opts = record opts { logical_end_of_input_marker = none }

abbrev pub reset_arg_placeholder : Options → Options
reset_arg_placeholder opts = record opts { arg_placeholder = none }

abbrev pub reset_max_lines_per_command : Options → Options
reset_max_lines_per_command opts = record opts {
  max_lines_per_command = 0;
  line_mode_specified = false;
}

abbrev pub reset_max_args_per_command : Options → Options
reset_max_args_per_command opts = record opts { max_args_per_command = 0 }

unfoldable pub set_max_lines_per_command : Options → Str → Outcome Options
unfolding parse_number_arg
set_max_lines_per_command opts new_val = do
  lines ← parse_number_arg new_val
  let given = record opts { max_lines_per_command = lines; line_mode_specified = true }
  ok (reset_max_args_per_command (reset_arg_placeholder given))

unfoldable pub set_max_args_per_command : Options → Str → Outcome Options
unfolding parse_number_arg
set_max_args_per_command opts new_val = do
  args ← parse_number_arg new_val
  let given = record opts { max_args_per_command = args }
  ok (reset_max_lines_per_command (reset_arg_placeholder given))

unfoldable pub set_max_command_length : Options → Str → Outcome Options
unfolding parse_number_arg
set_max_command_length opts new_val = do
  bytes ← parse_number_arg new_val
  ok (record opts { max_command_length = bytes; max_command_length_specified = true })

-- `child_max` is the answer of `sysconf (_SC_CHILD_MAX)`.
unfoldable pub set_max_procs : ℤ → Options → Str → Outcome Options
unfolding parse_number_arg_with_min
set_max_procs child_max opts new_val = do
  parsed ← parse_number_arg_with_min new_val (pos 0)
  if ltb_ℤ (pos 0) parsed && ltb_ℤ (pos 0) child_max && ltb_ℤ child_max parsed
      then exit exit_failure
      else ok (record opts { max_procs = size_of_long parsed })

abbrev pub set_arg_placeholder : Options → Option Str → Options
set_arg_placeholder opts placeholder =
    reset_max_args_per_command
      (reset_max_lines_per_command (record opts { arg_placeholder = placeholder }))

abbrev pub set_open_tty : Options → Options
set_open_tty opts = record opts { open_tty = true }

abbrev pub enable_trace : Options → Options
enable_trace opts = record opts { trace = true }

abbrev pub enable_prompt : Options → Options
enable_prompt opts = enable_trace (record opts { prompt = true })

abbrev pub enable_suppress_execution_on_empty_input : Options → Options
enable_suppress_execution_on_empty_input opts = record opts {
  suppress_execution_on_empty_input = true;
}

abbrev pub enable_terminate_on_too_large_command : Options → Options
enable_terminate_on_too_large_command opts = record opts { terminate_on_too_large_command = true }

abbrev pub init_options : Options
init_options = record {
  optind_val = 0;
  use_nul_char_as_arg_delimiter = false;
  arg_file_path = none;
  arg_delimiter = 0;
  logical_end_of_input_marker = none;
  arg_placeholder = none;
  max_lines_per_command = 0;
  line_mode_specified = false;
  max_args_per_command = 0;
  open_tty = false;
  prompt = false;
  suppress_execution_on_empty_input = false;
  max_command_length = 0;
  max_command_length_specified = false;
  trace = false;
  terminate_on_too_large_command = false;
  max_procs = 1;
}

-- `-d`: `strlen (optarg) != 1`.
unfoldable pub set_delimiter_from : Options → Str → Outcome Options
set_delimiter_from opts (ch ∷ []) = ok (set_arg_delimiter opts ch)
set_delimiter_from opts _ = exit exit_failure

-- The cases that read `optarg`; it is NULL where `getopt` found no argument.
unfoldable pub with_optarg : Option Str → (Str → Outcome Options) → Outcome Options
with_optarg none set_from = undefined
with_optarg (some optarg) set_from = set_from optarg

-- The `switch` on what `getopt` has returned.
unfoldable pub parse_option : ℤ → Options → Answer → Outcome Options
unfolding set_max_lines_per_command set_max_args_per_command set_max_command_length set_max_procs
    set_delimiter_from with_optarg
parse_option child_max opts answer =
    let opt = answer.opt in
    if opt == b'0'
    then ok (enable_nul_char_as_arg_delimiter opts)
    else if opt == b'a'
    then ok (set_arg_file_path opts answer.optarg)
    else if opt == b'd'
    then with_optarg answer.optarg (set_delimiter_from opts)
    else if opt == b'E'
    then ok (set_logical_end_of_input_marker opts answer.optarg)
    else if opt == b'I'
    then ok (set_arg_placeholder opts answer.optarg)
    else if opt == b'L'
    then with_optarg answer.optarg (set_max_lines_per_command opts)
    else if opt == b'n'
    then with_optarg answer.optarg (set_max_args_per_command opts)
    else if opt == b'o'
    then ok (set_open_tty opts)
    else if opt == b'p'
    then ok (enable_prompt opts)
    else if opt == b'P'
    then with_optarg answer.optarg (set_max_procs child_max opts)
    else if opt == b'r'
    then ok (enable_suppress_execution_on_empty_input opts)
    else if opt == b's'
    then with_optarg answer.optarg (set_max_command_length opts)
    else if opt == b't'
    then ok (enable_trace opts)
    else if opt == b'x'
    then ok (enable_terminate_on_too_large_command opts)
    else if opt == b':'
    then exit exit_failure
    else if opt == b'?'
    then exit exit_failure
    else abort

-- The loop, over the answers in front of -1.
unfoldable pub parse_options : ℤ → Options → List Answer → Outcome Options
unfolding parse_option
parse_options child_max opts [] = ok opts
parse_options child_max opts (answer ∷ answers) = do
  next ← parse_option child_max opts answer
  parse_options child_max next answers

-- `-I` implies `-x`, `-L 1` and no end marker, and the newline as the delimiter if none is in force.
unfoldable pub imply_by_placeholder : Options → Options
imply_by_placeholder opts =
    let implied =
      record (reset_logical_end_of_input_marker (enable_terminate_on_too_large_command opts)) {
        max_lines_per_command = 1;
      } in
    elim opts.arg_placeholder [
      | none ↦ opts
      | some _ ↦
          if not implied.use_nul_char_as_arg_delimiter && implied.arg_delimiter == 0
          then set_arg_delimiter implied b'\n'
          else implied
    ]

-- What follows the parsing: the implications of `-L` and `-I`, and the check of `-p` with `-P`.
unfoldable pub finish_options : Options → ℕ → Outcome Options
unfolding imply_by_placeholder
finish_options opts optind =
    let lined =
      if opts.line_mode_specified then enable_terminate_on_too_large_command opts else opts in
    let implied = imply_by_placeholder lined in
    if implied.prompt && ltb 1 implied.max_procs
    then exit exit_failure
    else ok (record implied { optind_val = optind })

-- `argv` is what stands behind the program's name, which counts in `optind`.
unfoldable pub configure_options : ℤ → Options → List Str → Outcome Options
unfolding parse_options finish_options getopt
configure_options child_max opts argv = do
  let scan = getopt none argv
  parsed ← parse_options child_max opts scan.answers
  finish_options parsed (1 + (length argv - length scan.operands))

unfoldable pub options_create : ℤ → List Str → Outcome Options
unfolding configure_options
options_create child_max argv = configure_options child_max init_options argv
