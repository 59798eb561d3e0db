-- ===== src/Options/Creates.antt =====
-- The options as they are created from the command line.
use phxargs.Base.{
  ℕ, ◌+◌, ◌-◌, ◌≡◌, ◌<◌, ◌≤◌, refl, ap, ◌∙◌, inl, inr, Bool, true, ◌&&◌, ◌==◌, List, [], ◌∷◌, ◌++◌,
  Option, none, ok, exit, exit_failure, Yields, >>=-Yields, Yields-weaken, Yields-ok, Yields-exit,
  Bool-cases, ltb, arith, if◌then◌else◌, length, length-append, drop,
}
use phxargs.Base.Int.{ℤ}
use phxargs.Base.Strings.{Str}
use phxargs.Getopt.{getopt}
use phxargs.Getopt.Answers.{getopt-AreAnswers, getopt-operands}
use phxargs.Options.Choices.{
  Filling, by_length, by_lines, by_args, by_replacing, Separator, blanks, nul_byte, byte, Choices,
  no_choices, delimiter_of, stored, ChoosesAll, RefusesOne,
}
use phxargs.Options.Parses.{parse_options-ChoosesAll}
use phxargs.Options.{
  Options, finish_options, imply_by_placeholder, configure_options, options_create,
}

-- The separator in force: `-I` splits at newlines where nothing else is asked for.
abbrev pub separator_in_force : Filling → Separator → Separator
separator_in_force (by_replacing s) blanks = byte b'\n'
separator_in_force (by_replacing s) (byte c) = if c == 0 then byte b'\n' else byte c
separator_in_force (by_replacing s) nul_byte = nul_byte
separator_in_force by_length sep = sep
separator_in_force (by_lines n) sep = sep
separator_in_force (by_args n) sep = sep

abbrev pub marker_in_force : Filling → Option Str → Option Str
marker_in_force (by_replacing s) marker = none
marker_in_force by_length marker = marker
marker_in_force (by_lines n) marker = marker
marker_in_force (by_args n) marker = marker

abbrev pub lines_in_force : Filling → ℕ
lines_in_force (by_replacing s) = 1
lines_in_force by_length = 0
lines_in_force (by_lines n) = n
lines_in_force (by_args n) = 0

abbrev pub strict_in_force : Filling → Bool → Bool
strict_in_force (by_replacing s) strict = true
strict_in_force by_length strict = strict
strict_in_force (by_lines n) strict = true
strict_in_force (by_args n) strict = strict

-- The options that the choices come to.
abbrev pub configured : Choices → ℕ → Options
configured c optind = record (stored c) {
  optind_val = optind;
  arg_delimiter = delimiter_of (separator_in_force c.filling c.separator);
  logical_end_of_input_marker = marker_in_force c.filling c.marker;
  max_lines_per_command = lines_in_force c.filling;
  terminate_on_too_large_command = strict_in_force c.filling c.strict;
}

finish_lem :
    (c : Choices) (optind : ℕ) (filling : Filling) (separator : Separator)
    → c.filling ≡ filling
    → c.separator ≡ separator
    → finish_options (stored c) optind
      ≡ (if c.confirms && ltb 1 c.parallel then exit exit_failure else ok (configured c optind))
unfolding finish_options imply_by_placeholder
finish_lem c optind by_length separator e f = rw e refl
finish_lem c optind (by_lines n) separator e f = rw e refl
finish_lem c optind (by_args n) separator e f = rw e refl
finish_lem c optind (by_replacing s) blanks e f = rw (e, f) refl
finish_lem c optind (by_replacing s) nul_byte e f = rw (e, f) refl
finish_lem c optind (by_replacing s) (byte d) e f = elim (Bool-cases (d == 0)) [
  | inl z ↦ rw (e, f, z) refl
  | inr z ↦ rw (e, f, z) refl
]

-- Why the creation of the options ends the process: an option is refused, or `-p` meets `-P`.
pub data CreationFails (child_max : ℤ) (argv : List Str) : Type 0 where
  one_refused : RefusesOne child_max (getopt none argv).answers → CreationFails child_max argv
  prompts_in_parallel :
      {c : Choices}
      → ChoosesAll child_max no_choices (getopt none argv).answers c
      → c.confirms ≡ true
      → 1 < c.parallel
      → CreationFails child_max argv

-- The options come from the choices that the arguments make; the index is that of the operands.
pub record Created (child_max : ℤ) (argv : List Str) (opts : Options) : Type 0 where
  pub choices : Choices
  pub made : ChoosesAll child_max no_choices (getopt none argv).answers choices
  pub alone : choices.confirms ≡ true → choices.parallel ≤ 1
  pub operands_at : drop (opts.optind_val - 1) argv ≡ (getopt none argv).operands
  pub configures : opts ≡ configured choices opts.optind_val

drop-front : (front xs : List Str) → drop (length front) (front ++ xs) ≡ xs
drop-front [] xs = refl
drop-front (f ∷ front) xs = drop-front front xs

operand_index : List Str → ℕ
operand_index argv = 1 + (length argv - length (getopt none argv).operands)

operand_index_lem :
    (argv : List Str) → drop (operand_index argv - 1) argv ≡ (getopt none argv).operands
unfolding operand_index
operand_index_lem argv =
    let (front, e) = getopt-operands none argv in
    let operands = (getopt none argv).operands in
    let size : 1 + (length argv - length operands) - 1 ≡ length front =
      omega (arith, ap length e, length-append front operands) in
    ap (λ n. drop n argv) size ∙ ap (drop (length front)) e ∙ drop-front front operands

-- Creating the options either gives those that the choices come to which the answers of `getopt`
-- make in their order, with the index of the operands, and with `-p` only where at most one
-- process is asked for (0 stands for any number); or exits with status 1, because an answer is
-- refused, or `-p` is given and more than one process. It fails no assert and reads no NULL.
pub options_create-Created :
    (child_max : ℤ) (argv : List Str)
    → Yields (CreationFails child_max argv) (Created child_max argv) (options_create child_max argv)
unfolding options_create configure_options operand_index
options_create-Created child_max argv =
    let optind = operand_index argv in
    >>=-Yields {Q = Created child_max argv} _
      (Yields-weaken
        (parse_options-ChoosesAll child_max no_choices (getopt none argv).answers
          (getopt-AreAnswers none argv tt))
        (λ _ p. p) one_refused)
      (λ opts (c, made, e). rw e (elim (Bool-cases (c.confirms && ltb 1 c.parallel)) [
        | inl both ↦
            Yields-exit
              (finish_lem c optind c.filling c.separator refl refl
                ∙ ap (λ b. if b then exit exit_failure else ok (configured c optind)) both)
              (prompts_in_parallel made (ground arith) (ground arith))
        | inr fine ↦
            Yields-ok
              (finish_lem c optind c.filling c.separator refl refl
                ∙ ap (λ b. if b then exit exit_failure else ok (configured c optind)) fine)
              (record {
                choices = c;
                made = made;
                alone = ground arith;
                operands_at = operand_index_lem argv;
                configures = refl;
              })
      ]))
