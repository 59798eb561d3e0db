-- ===== src/Options/Accessors.antt =====
-- What the other parts ask the options of src/options.c for.
use phxargs.Base.{ℕ, Bool, Option}
use phxargs.Base.Strings.{Str}
use phxargs.Options.{Options}

abbrev pub options_index_of_first_arg : Options → ℕ
options_index_of_first_arg opts = opts.optind_val

abbrev pub options_use_nul_char_as_arg_delimiter : Options → Bool
options_use_nul_char_as_arg_delimiter opts = opts.use_nul_char_as_arg_delimiter

abbrev pub options_arg_file_path : Options → Option Str
options_arg_file_path opts = opts.arg_file_path

abbrev pub options_arg_delimiter : Options → ℕ
options_arg_delimiter opts = opts.arg_delimiter

abbrev pub options_logical_end_of_input_marker : Options → Option Str
options_logical_end_of_input_marker opts = opts.logical_end_of_input_marker

abbrev pub options_arg_placeholder : Options → Option Str
options_arg_placeholder opts = opts.arg_placeholder

abbrev pub options_max_lines_per_command : Options → ℕ
options_max_lines_per_command opts = opts.max_lines_per_command

abbrev pub options_max_args_per_command : Options → ℕ
options_max_args_per_command opts = opts.max_args_per_command

abbrev pub options_open_tty : Options → Bool
options_open_tty opts = opts.open_tty

abbrev pub options_prompt : Options → Bool
options_prompt opts = opts.prompt

abbrev pub options_max_procs : Options → ℕ
options_max_procs opts = opts.max_procs

abbrev pub options_suppress_execution_on_empty_input : Options → Bool
options_suppress_execution_on_empty_input opts = opts.suppress_execution_on_empty_input

abbrev pub options_max_command_length : Options → ℕ
options_max_command_length opts = opts.max_command_length

abbrev pub options_trace : Options → Bool
options_trace opts = opts.trace

abbrev pub options_terminate_on_too_large_command : Options → Bool
options_terminate_on_too_large_command opts = opts.terminate_on_too_large_command

abbrev pub options_line_mode : Options → Bool
options_line_mode opts = opts.line_mode_specified

abbrev pub options_max_command_length_specified : Options → Bool
options_max_command_length_specified opts = opts.max_command_length_specified
