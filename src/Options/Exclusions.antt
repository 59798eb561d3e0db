-- ===== src/Options/Exclusions.antt =====
-- What always holds of the options that are created.
use phxargs.Base.{
  ℕ, ◌≡◌, ◌≢◌, ◌≤◌, ◌⊎◌, refl, inl, inr, Bool, true, false, List, Option, none, some, arith, ◌==◌,
  Bool-cases, Yields, Yields-weaken,
}
use phxargs.Base.Int.{ℤ, pos, negsuc}
use phxargs.Base.Strings.{Str}
use phxargs.Strtol.{long_max}
use phxargs.Getopt.{Answer}
use phxargs.Options.Choices.{
  Filling, by_length, by_lines, by_args, by_replacing, Separator, blanks, nul_byte, byte, Choices,
  no_choices, counts_lines, args_of, placeholder_of, is_nul, delimiter_of, number_or_zero,
  is_limited, Allows, Chooses, option_0, option_a, option_d, option_E, option_I, option_L, option_n,
  option_o, option_p, option_P, option_r, option_s, option_t, option_x, ChoosesAll, chosen,
  choosing,
}
use phxargs.Options.Creates.{
  Created, configured, strict_in_force, lines_in_force, marker_in_force, separator_in_force,
  CreationFails, options_create-Created,
}
use phxargs.Options.{Options, options_create}

-- The numbers of the choices are in their bounds, and `-p` implies `-t`.
abbrev IsPositive : ℕ → Type 0
IsPositive n = (1 ≤ n) × (n ≤ long_max)

abbrev IsFitFilling : Filling → Type 0
IsFitFilling by_length = Unit {0}
IsFitFilling (by_lines n) = IsPositive n
IsFitFilling (by_args n) = IsPositive n
IsFitFilling (by_replacing s) = Unit {0}

abbrev IsFitLimit : Option ℕ → Type 0
IsFitLimit none = Unit {0}
IsFitLimit (some n) = IsPositive n

abbrev IsFit : ℤ → Choices → Type 0
IsFit child_max c =
    IsFitFilling c.filling
    × IsFitLimit c.length_limit
    × (c.confirms ≡ true → c.traces ≡ true)
    × Allows child_max c.parallel
    × (c.parallel ≤ long_max)

Allows-1 : (child_max : ℤ) → Allows child_max 1
Allows-1 (pos n) = ground arith
Allows-1 (negsuc n) = tt

no_choices-IsFit : (child_max : ℤ) → IsFit child_max no_choices
no_choices-IsFit child_max = (tt, tt, λ e. cc, Allows-1 child_max, omega arith)

Chooses-IsFit :
    {child_max : ℤ} {c c' : Choices} {answer : Answer}
    → Chooses child_max c answer c'
    → IsFit child_max c
    → IsFit child_max c'
Chooses-IsFit (option_0 e) f = f
Chooses-IsFit (option_a e o) f = f
Chooses-IsFit (option_d e o) f = f
Chooses-IsFit (option_E e o) f = f
Chooses-IsFit (option_I e o) (_, q, r, a, b) = (tt, q, r, a, b)
Chooses-IsFit (option_L e o (_, low, high)) (_, q, r, a, b) = ((low, high), q, r, a, b)
Chooses-IsFit (option_n e o (_, low, high)) (_, q, r, a, b) = ((low, high), q, r, a, b)
Chooses-IsFit (option_o e) f = f
Chooses-IsFit (option_p e) (p, q, _, a, b) = (p, q, λ _. refl, a, b)
Chooses-IsFit (option_P e o (_, _, small) allowed) (p, q, r, _, _) = (p, q, r, allowed, small)
Chooses-IsFit (option_r e) f = f
Chooses-IsFit (option_s e o (_, low, high)) (p, _, r, a, b) = (p, (low, high), r, a, b)
Chooses-IsFit (option_t e) (p, q, _, a, b) = (p, q, λ _. refl, a, b)
Chooses-IsFit (option_x e) f = f

ChoosesAll-IsFit :
    {child_max : ℤ} {c c' : Choices} {answers : List Answer}
    → ChoosesAll child_max c answers c'
    → IsFit child_max c
    → IsFit child_max c'
ChoosesAll-IsFit chosen f = f
ChoosesAll-IsFit (choosing one all) f = ChoosesAll-IsFit all (Chooses-IsFit one f)

-- `-L` is in force, with its number of lines; then `-x` is, and neither `-n` nor `-I`.
abbrev CountsLines : Options → Type 0
CountsLines opts =
    (opts.terminate_on_too_large_command ≡ true)
    × (opts.max_args_per_command ≡ 0)
    × (opts.arg_placeholder ≡ none)
    × IsPositive opts.max_lines_per_command

-- `-I` is in force; then `-x` is, one line, no end marker, and a delimiter, but neither `-n` nor `-L`.
abbrev Replaces : Options → Type 0
Replaces opts =
    (opts.terminate_on_too_large_command ≡ true)
    × (opts.max_args_per_command ≡ 0)
    × (opts.line_mode_specified ≡ false)
    × (opts.max_lines_per_command ≡ 1)
    × (opts.logical_end_of_input_marker ≡ none)
    × ((opts.use_nul_char_as_arg_delimiter ≡ true) ⊎ (opts.arg_delimiter ≢ 0))

pub record IsSound (child_max : ℤ) (opts : Options) : Type 0 where
  pub lines : opts.line_mode_specified ≡ true → CountsLines opts
  pub replacing : {s : Str} → opts.arg_placeholder ≡ some s → Replaces opts
  pub args : opts.max_args_per_command ≤ long_max
  pub nul : opts.use_nul_char_as_arg_delimiter ≡ true → opts.arg_delimiter ≡ 0
  pub length : opts.max_command_length_specified ≡ true → IsPositive opts.max_command_length
  pub prompts : opts.prompt ≡ true → (opts.trace ≡ true) × (opts.max_procs ≤ 1)
  pub procs : Allows child_max opts.max_procs × (opts.max_procs ≤ long_max)

counts_lines-cases :
    (filling : Filling) (strict : Bool)
    → IsFitFilling filling
    → counts_lines filling ≡ true
    → (strict_in_force filling strict ≡ true)
      × (args_of filling ≡ 0)
      × (placeholder_of filling ≡ none)
      × IsPositive (lines_in_force filling)
counts_lines-cases by_length strict f h = cc
counts_lines-cases (by_lines n) strict f h = (refl, refl, refl, f)
counts_lines-cases (by_args n) strict f h = cc
counts_lines-cases (by_replacing s) strict f h = cc

args_of-bound : (filling : Filling) → IsFitFilling filling → args_of filling ≤ long_max
args_of-bound by_length f = omega arith
args_of-bound (by_lines n) f = omega arith
args_of-bound (by_args n) f = f.1
args_of-bound (by_replacing s) f = omega arith

delimiter_in_force :
    (s : Str) (separator : Separator)
    → (is_nul separator ≡ true) ⊎ (delimiter_of (separator_in_force (by_replacing s) separator) ≢ 0)
delimiter_in_force s blanks = inr (omega arith)
delimiter_in_force s nul_byte = inl refl
delimiter_in_force s (byte c) = elim (Bool-cases (c == 0)) [
  | inl z ↦ inr (rw z (omega arith))
  | inr z ↦ inr (rw z (ground arith))
]

placeholder_of-cases :
    (filling : Filling) (separator : Separator) (marker : Option Str) (strict : Bool) {s : Str}
    → placeholder_of filling ≡ some s
    → (strict_in_force filling strict ≡ true)
      × (args_of filling ≡ 0)
      × (counts_lines filling ≡ false)
      × (lines_in_force filling ≡ 1)
      × (marker_in_force filling marker ≡ none)
      × ((is_nul separator ≡ true) ⊎ (delimiter_of (separator_in_force filling separator) ≢ 0))
placeholder_of-cases by_length separator marker strict h = cc
placeholder_of-cases (by_lines n) separator marker strict h = cc
placeholder_of-cases (by_args n) separator marker strict h = cc
placeholder_of-cases (by_replacing s) separator marker strict h =
    (refl, refl, refl, refl, refl, delimiter_in_force s separator)

no_delimiter_with_nul :
    (filling : Filling) (separator : Separator)
    → is_nul separator ≡ true
    → delimiter_of (separator_in_force filling separator) ≡ 0
no_delimiter_with_nul filling blanks h = cc
no_delimiter_with_nul by_length nul_byte h = refl
no_delimiter_with_nul (by_lines n) nul_byte h = refl
no_delimiter_with_nul (by_args n) nul_byte h = refl
no_delimiter_with_nul (by_replacing s) nul_byte h = refl
no_delimiter_with_nul filling (byte c) h = cc

limit-IsPositive :
    (limit : Option ℕ)
    → IsFitLimit limit
    → is_limited limit ≡ true
    → IsPositive (number_or_zero limit)
limit-IsPositive none f h = cc
limit-IsPositive (some n) f h = f

configured-IsSound :
    {child_max : ℤ} (c : Choices) (optind : ℕ)
    → IsFit child_max c
    → (c.confirms ≡ true → c.parallel ≤ 1)
    → IsSound child_max (configured c optind)
configured-IsSound c optind (filling, limit, traces, allowed, small) alone = record {
  lines = counts_lines-cases c.filling c.strict filling;
  replacing = placeholder_of-cases c.filling c.separator c.marker c.strict;
  args = args_of-bound c.filling filling;
  nul = no_delimiter_with_nul c.filling c.separator;
  length = limit-IsPositive c.length_limit limit;
  prompts = λ h. (traces h, alone h);
  procs = (allowed, small);
}

pub Created-IsSound :
    {child_max : ℤ} {argv : List Str} {opts : Options}
    → Created child_max argv opts
    → IsSound child_max opts
Created-IsSound {child_max} {opts} created = rw created.configures (
    configured-IsSound created.choices opts.optind_val
      (ChoosesAll-IsFit created.made (no_choices-IsFit child_max)) created.alone)

-- Options that are created are sound, whatever the arguments, or the process ends: `-L` has a positive
-- number and implies `-x`; `-I` implies `-x`, one line, no end marker and a delimiter; `-L`, `-n` and
-- `-I` exclude each other; `-0` goes with no delimiter; the limit of `-s` is positive; `-p` implies `-t`
-- and one process, or 0 for any number; and the processes are within the system's limit, if it has one.
pub options_create-IsSound :
    (child_max : ℤ) (argv : List Str)
    → Yields (CreationFails child_max argv) (IsSound child_max) (options_create child_max argv)
options_create-IsSound child_max argv =
    Yields-weaken (options_create-Created child_max argv) (λ _. Created-IsSound) (λ why. why)
