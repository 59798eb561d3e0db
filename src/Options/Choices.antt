-- ===== src/Options/Choices.antt =====
-- What the options mean, with the options that exclude each other as the cases of one choice.
use phxargs.Base.{ℕ, ◌≡◌, ◌≤◌, ◌⊎◌, Bool, true, false, List, [], ◌∷◌, Option, none, some}
use phxargs.Base.Int.{ℤ, pos}
use phxargs.Base.Strings.{Str}
use phxargs.Getopt.{Answer}
use phxargs.Options.{Options}
use phxargs.Options.Numbers.{IsNumber}

-- How a command is filled: `-L`, `-n` and `-I`, of which one at most is in force.
pub data Filling : Type 0 where
  by_length : Filling
  by_lines : ℕ → Filling
  by_args : ℕ → Filling
  by_replacing : Str → Filling

-- What stands between the tokens: `-0` and `-d`, of which one at most is in force.
pub data Separator : Type 0 where
  blanks : Separator
  nul_byte : Separator
  byte : ℕ → Separator

pub record Choices : Type 0 where
  pub filling : Filling
  pub separator : Separator
  pub marker : Option Str
  pub file : Option Str
  pub tty : Bool
  pub confirms : Bool
  pub traces : Bool
  pub skips_empty : Bool
  pub strict : Bool
  pub length_limit : Option ℕ
  pub parallel : ℕ

abbrev pub no_choices : Choices
no_choices = record {
  filling = by_length;
  separator = blanks;
  marker = none;
  file = none;
  tty = false;
  confirms = false;
  traces = false;
  skips_empty = false;
  strict = false;
  length_limit = none;
  parallel = 1;
}

abbrev pub lines_of : Filling → ℕ
lines_of by_length = 0
lines_of (by_lines n) = n
lines_of (by_args n) = 0
lines_of (by_replacing s) = 0

abbrev pub counts_lines : Filling → Bool
counts_lines by_length = false
counts_lines (by_lines n) = true
counts_lines (by_args n) = false
counts_lines (by_replacing s) = false

abbrev pub args_of : Filling → ℕ
args_of by_length = 0
args_of (by_lines n) = 0
args_of (by_args n) = n
args_of (by_replacing s) = 0

abbrev pub placeholder_of : Filling → Option Str
placeholder_of by_length = none
placeholder_of (by_lines n) = none
placeholder_of (by_args n) = none
placeholder_of (by_replacing s) = some s

abbrev pub is_nul : Separator → Bool
is_nul blanks = false
is_nul nul_byte = true
is_nul (byte c) = false

abbrev pub delimiter_of : Separator → ℕ
delimiter_of blanks = 0
delimiter_of nul_byte = 0
delimiter_of (byte c) = c

abbrev pub number_or_zero : Option ℕ → ℕ
number_or_zero none = 0
number_or_zero (some n) = n

abbrev pub is_limited : Option ℕ → Bool
is_limited none = false
is_limited (some n) = true

-- The record that `options.c` keeps for the choices.
abbrev pub stored : Choices → Options
stored c = record {
  optind_val = 0;
  use_nul_char_as_arg_delimiter = is_nul c.separator;
  arg_file_path = c.file;
  arg_delimiter = delimiter_of c.separator;
  logical_end_of_input_marker = c.marker;
  arg_placeholder = placeholder_of c.filling;
  max_lines_per_command = lines_of c.filling;
  line_mode_specified = counts_lines c.filling;
  max_args_per_command = args_of c.filling;
  open_tty = c.tty;
  prompt = c.confirms;
  suppress_execution_on_empty_input = c.skips_empty;
  max_command_length = number_or_zero c.length_limit;
  max_command_length_specified = is_limited c.length_limit;
  trace = c.traces;
  terminate_on_too_large_command = c.strict;
  max_procs = c.parallel;
}

-- The system's limit on children, where it has one, is kept.
abbrev pub Allows : ℤ → ℕ → Type 0
Allows (pos child_max) n = (child_max ≡ 0) ⊎ (n ≤ child_max)
Allows _ n = Unit {0}

-- What an answer of `getopt` makes of the choices.
pub data Chooses (child_max : ℤ) (c : Choices) (answer : Answer) : Choices → Type 0 where
  option_0 : answer.opt ≡ b'0' → Chooses child_max c answer (record c { separator = nul_byte })
  option_a :
      {path : Str}
      → answer.opt ≡ b'a'
      → answer.optarg ≡ some path
      → Chooses child_max c answer (record c { file = some path })
  option_d :
      {ch : ℕ}
      → answer.opt ≡ b'd'
      → answer.optarg ≡ some (ch ∷ [])
      → Chooses child_max c answer (record c { separator = byte ch })
  option_E :
      {marker : Str}
      → answer.opt ≡ b'E'
      → answer.optarg ≡ some marker
      → Chooses child_max c answer (record c { marker = some marker })
  option_I :
      {placeholder : Str}
      → answer.opt ≡ b'I'
      → answer.optarg ≡ some placeholder
      → Chooses child_max c answer (record c { filling = by_replacing placeholder })
  option_L :
      {arg : Str} {n : ℕ}
      → answer.opt ≡ b'L'
      → answer.optarg ≡ some arg
      → IsNumber arg 1 n
      → Chooses child_max c answer (record c { filling = by_lines n })
  option_n :
      {arg : Str} {n : ℕ}
      → answer.opt ≡ b'n'
      → answer.optarg ≡ some arg
      → IsNumber arg 1 n
      → Chooses child_max c answer (record c { filling = by_args n })
  option_o : answer.opt ≡ b'o' → Chooses child_max c answer (record c { tty = true })
  option_p :
      answer.opt ≡ b'p' → Chooses child_max c answer (record c { confirms = true; traces = true })
  option_P :
      {arg : Str} {n : ℕ}
      → answer.opt ≡ b'P'
      → answer.optarg ≡ some arg
      → IsNumber arg 0 n
      → Allows child_max n
      → Chooses child_max c answer (record c { parallel = n })
  option_r : answer.opt ≡ b'r' → Chooses child_max c answer (record c { skips_empty = true })
  option_s :
      {arg : Str} {n : ℕ}
      → answer.opt ≡ b's'
      → answer.optarg ≡ some arg
      → IsNumber arg 1 n
      → Chooses child_max c answer (record c { length_limit = some n })
  option_t : answer.opt ≡ b't' → Chooses child_max c answer (record c { traces = true })
  option_x : answer.opt ≡ b'x' → Chooses child_max c answer (record c { strict = true })

-- Why an answer ends the process.
pub data Refuses (child_max : ℤ) (answer : Answer) : Type 0 where
  no_argument : answer.opt ≡ b':' → Refuses child_max answer
  no_option : answer.opt ≡ b'?' → Refuses child_max answer
  no_delimiter :
      {arg : Str}
      → answer.opt ≡ b'd'
      → answer.optarg ≡ some arg
      → ((ch : ℕ) → arg ≡ ch ∷ [] → ⊥)
      → Refuses child_max answer
  no_positive_number :
      {arg : Str}
      → (answer.opt ≡ b'L') ⊎ ((answer.opt ≡ b'n') ⊎ (answer.opt ≡ b's'))
      → answer.optarg ≡ some arg
      → ((n : ℕ) → IsNumber arg 1 n → ⊥)
      → Refuses child_max answer
  no_process_number :
      {arg : Str}
      → answer.opt ≡ b'P'
      → answer.optarg ≡ some arg
      → ((n : ℕ) → IsNumber arg 0 n → ⊥) ⊎ ((n : ℕ) × IsNumber arg 0 n × (Allows child_max n → ⊥))
      → Refuses child_max answer

-- The choices after all answers, in their order.
pub data ChoosesAll (child_max : ℤ) : Choices → List Answer → Choices → Type 0 where
  chosen : {c : Choices} → ChoosesAll child_max c [] c
  choosing :
      {c c' c'' : Choices} {answer : Answer} {answers : List Answer}
      → Chooses child_max c answer c'
      → ChoosesAll child_max c' answers c''
      → ChoosesAll child_max c (answer ∷ answers) c''

-- One of the answers ends the process.
pub data RefusesOne (child_max : ℤ) : List Answer → Type 0 where
  first :
      {answer : Answer} {answers : List Answer}
      → Refuses child_max answer
      → RefusesOne child_max (answer ∷ answers)
  later :
      {answer : Answer} {answers : List Answer}
      → RefusesOne child_max answers
      → RefusesOne child_max (answer ∷ answers)
