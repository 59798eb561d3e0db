-- ===== src/Options/Parses.antt =====
-- The parsing of the options, against the choices that they mean.
use phxargs.Base.{
  ℕ, ◌≡◌, ◌⊎◌, refl, inl, inr, true, false, ◌&&◌, ◌==◌, List, [], ◌∷◌, some, Outcome, ◌>>=◌, Yields,
  returns, exits, >>=-Yields, Yields-weaken, Bool-cases, arith,
}
use phxargs.Base.Int.{ℤ, pos, negsuc, ltb_ℤ}
use phxargs.Base.Strings.{Str}
use phxargs.Getopt.{Answer, kind_of, flag, takes_argument}
use phxargs.Getopt.Answers.{
  IsAnswer, missing, invalid, plain, given, AreAnswers, no_answers, answers_on,
}
use phxargs.Options.Numbers.{IsNumber, parse_number_arg-cases, parse_number_arg_with_min-cases}
use phxargs.Options.Choices.{
  Choices, stored, by_lines, by_args, by_replacing, nul_byte, byte, Allows, Chooses, option_0,
  option_a, option_d, option_E, option_I, option_L, option_n, option_o, option_p, option_P,
  option_r, option_s, option_t, option_x, Refuses, no_argument, no_option, no_delimiter,
  no_positive_number, no_process_number, ChoosesAll, chosen, choosing, RefusesOne, first, later,
}
use phxargs.Options.{
  Options, parse_option, parse_options, set_max_lines_per_command, set_max_args_per_command,
  set_max_command_length, set_max_procs, parse_number_arg, set_delimiter_from, with_optarg,
}

data FlagOption (c : ℕ) : Type 0 where
  flag_0 : c ≡ b'0' → FlagOption c
  flag_o : c ≡ b'o' → FlagOption c
  flag_p : c ≡ b'p' → FlagOption c
  flag_r : c ≡ b'r' → FlagOption c
  flag_t : c ≡ b't' → FlagOption c
  flag_x : c ≡ b'x' → FlagOption c

flag-cases : (c : ℕ) → kind_of c ≡ flag → FlagOption c
unfolding kind_of
flag-cases c h = elim (Bool-cases (c == b'0')) [
  | inl e ↦ flag_0 (ground arith)
  | inr not_0 ↦ elim (Bool-cases (c == b'o')) [
    | inl e ↦ flag_o (ground arith)
    | inr not_o ↦ elim (Bool-cases (c == b'p')) [
      | inl e ↦ flag_p (ground arith)
      | inr not_p ↦ elim (Bool-cases (c == b'r')) [
        | inl e ↦ flag_r (ground arith)
        | inr not_r ↦ elim (Bool-cases (c == b't')) [
          | inl e ↦ flag_t (ground arith)
          | inr not_t ↦ flag_x (ground arith)
        ]
      ]
    ]
  ]
]

data ArgumentOption (c : ℕ) : Type 0 where
  takes_a : c ≡ b'a' → ArgumentOption c
  takes_d : c ≡ b'd' → ArgumentOption c
  takes_E : c ≡ b'E' → ArgumentOption c
  takes_I : c ≡ b'I' → ArgumentOption c
  takes_L : c ≡ b'L' → ArgumentOption c
  takes_n : c ≡ b'n' → ArgumentOption c
  takes_P : c ≡ b'P' → ArgumentOption c
  takes_s : c ≡ b's' → ArgumentOption c

argument-cases : (c : ℕ) → kind_of c ≡ takes_argument → ArgumentOption c
unfolding kind_of
argument-cases c h = elim (Bool-cases (c == b'a')) [
  | inl e ↦ takes_a (ground arith)
  | inr not_a ↦ elim (Bool-cases (c == b'd')) [
    | inl e ↦ takes_d (ground arith)
    | inr not_d ↦ elim (Bool-cases (c == b'E')) [
      | inl e ↦ takes_E (ground arith)
      | inr not_E ↦ elim (Bool-cases (c == b'I')) [
        | inl e ↦ takes_I (ground arith)
        | inr not_I ↦ elim (Bool-cases (c == b'L')) [
          | inl e ↦ takes_L (ground arith)
          | inr not_L ↦ elim (Bool-cases (c == b'n')) [
            | inl e ↦ takes_n (ground arith)
            | inr not_n ↦ elim (Bool-cases (c == b'P')) [
              | inl e ↦ takes_P (ground arith)
              | inr not_P ↦ takes_s (ground arith)
            ]
          ]
        ]
      ]
    ]
  ]
]

Allows-cases :
    (child_max : ℤ) (n : ℕ)
    → ((ltb_ℤ (pos 0) (pos n) && ltb_ℤ (pos 0) child_max && ltb_ℤ child_max (pos n)) ≡ false)
        × Allows child_max n
      ⊎ ((ltb_ℤ (pos 0) (pos n) && ltb_ℤ (pos 0) child_max && ltb_ℤ child_max (pos n)) ≡ true)
        × (Allows child_max n → ⊥)
Allows-cases (pos m) n = ground arith
Allows-cases (negsuc m) n = inl (ground arith, tt)

module _ (child_max : ℤ) where
  -- The record is that of the choices which the answer makes.
  abbrev Parsed : Choices → Answer → Options → Type 0
  Parsed c answer opts = (c' : Choices) × Chooses child_max c answer c' × (opts ≡ stored c')

  parse_flag :
      (c : Choices) (answer : Answer)
      → FlagOption answer.opt
      → Yields
          (Refuses child_max answer)
          (Parsed c answer)
          (parse_option child_max (stored c) answer)
  unfolding parse_option
  parse_flag c answer (flag_0 e) =
      rw (e, parse_option) (returns (record c { separator = nul_byte }, option_0 refl, refl))
  parse_flag c answer (flag_o e) =
      rw (e, parse_option) (returns (record c { tty = true }, option_o refl, refl))
  parse_flag c answer (flag_p e) =
      rw (e, parse_option)
        (returns (record c { confirms = true; traces = true }, option_p refl, refl))
  parse_flag c answer (flag_r e) =
      rw (e, parse_option) (returns (record c { skips_empty = true }, option_r refl, refl))
  parse_flag c answer (flag_t e) =
      rw (e, parse_option) (returns (record c { traces = true }, option_t refl, refl))
  parse_flag c answer (flag_x e) =
      rw (e, parse_option) (returns (record c { strict = true }, option_x refl, refl))

  -- An option whose argument is a positive number.
  parse_positive :
      (c : Choices) (answer : Answer) (arg : Str) (set : ℕ → Outcome Options)
      → ((n : ℕ) → IsNumber arg 1 n → Yields (Refuses child_max answer) (Parsed c answer) (set n))
      → (((n : ℕ) → IsNumber arg 1 n → ⊥) → Refuses child_max answer)
      → Yields (Refuses child_max answer) (Parsed c answer) (parse_number_arg arg >>= set)
  parse_positive c answer arg set go_on refuse = elim (parse_number_arg-cases arg) [
    | inl (n, e, is) ↦ rw e (go_on n is)
    | inr (e, unfit) ↦ rw e (exits (refuse unfit))
  ]

  parse_delimiter :
      (c : Choices) (answer : Answer) (arg : Str)
      → answer.opt ≡ b'd'
      → answer.optarg ≡ some arg
      → Yields (Refuses child_max answer) (Parsed c answer) (set_delimiter_from (stored c) arg)
  unfolding set_delimiter_from
  parse_delimiter c answer [] e o = exits (no_delimiter e o (λ ch e. cc))
  parse_delimiter c answer (ch ∷ []) e o =
      returns (record c { separator = byte ch }, option_d e o, refl)
  parse_delimiter c answer (ch ∷ d ∷ arg) e o = exits (no_delimiter e o (λ ch e. cc))

  parse_processes :
      (c : Choices) (answer : Answer) (arg : Str)
      → answer.opt ≡ b'P'
      → answer.optarg ≡ some arg
      → Yields (Refuses child_max answer) (Parsed c answer) (set_max_procs child_max (stored c) arg)
  unfolding set_max_procs
  parse_processes c answer arg e o = elim (parse_number_arg_with_min-cases arg 0) [
    | inr (refused, unfit) ↦ rw refused (exits (no_process_number e o (inl unfit)))
    | inl (n, parsed, is) ↦ elim (Allows-cases child_max n) [
      | inl (h, allowed) ↦
          rw (parsed, h) (returns (record c { parallel = n }, option_P e o is allowed, refl))
      | inr (h, over) ↦ rw (parsed, h) (exits (no_process_number e o (inr (n, is, over))))
    ]
  ]

  parse_argument :
      (c : Choices) (answer : Answer) (arg : Str)
      → ArgumentOption answer.opt
      → answer.optarg ≡ some arg
      → Yields
          (Refuses child_max answer)
          (Parsed c answer)
          (parse_option child_max (stored c) answer)
  unfolding parse_option with_optarg set_max_lines_per_command set_max_args_per_command
      set_max_command_length
  parse_argument c answer arg (takes_a e) o =
      rw (e, o, parse_option) (returns (record c { file = some arg }, option_a refl refl, refl))
  parse_argument c answer arg (takes_d e) o =
      rw (e, o, parse_option) (parse_delimiter c _ arg refl refl)
  parse_argument c answer arg (takes_E e) o =
      rw (e, o, parse_option) (returns (record c { marker = some arg }, option_E refl refl, refl))
  parse_argument c answer arg (takes_I e) o =
      rw (e, o, parse_option)
        (returns (record c { filling = by_replacing arg }, option_I refl refl, refl))
  parse_argument c answer arg (takes_L e) o =
      rw (e, o, parse_option)
        (parse_positive c _ arg _
          (λ n is. returns (record c { filling = by_lines n }, option_L refl refl is, refl))
          (no_positive_number (inl refl) refl))
  parse_argument c answer arg (takes_n e) o =
      rw (e, o, parse_option)
        (parse_positive c _ arg _
          (λ n is. returns (record c { filling = by_args n }, option_n refl refl is, refl))
          (no_positive_number (inr (inl refl)) refl))
  parse_argument c answer arg (takes_P e) o =
      rw (e, o, parse_option) (parse_processes c _ arg refl refl)
  parse_argument c answer arg (takes_s e) o =
      rw (e, o, parse_option)
        (parse_positive c _ arg _
          (λ n is. returns (record c { length_limit = some n }, option_s refl refl is, refl))
          (no_positive_number (inr (inr refl)) refl))

  -- The `switch` does what the option means, or ends the process for the reason stated.
  parse_option-Chooses :
      (c : Choices) (answer : Answer)
      → IsAnswer answer
      → Yields
          (Refuses child_max answer)
          (Parsed c answer)
          (parse_option child_max (stored c) answer)
  unfolding parse_option
  parse_option-Chooses c answer (missing e) = rw (e, parse_option) (exits (no_argument refl))
  parse_option-Chooses c answer (invalid e) = rw (e, parse_option) (exits (no_option refl))
  parse_option-Chooses c answer (plain k) = parse_flag c answer (flag-cases answer.opt k)
  parse_option-Chooses c answer (given arg k e) =
      parse_argument c answer arg (argument-cases answer.opt k) e

  -- The loop on the answers, from the record of some choices, ends with the record of the choices that
  -- the answers make in their order, or ends the process where one of them is refused.
  pub parse_options-ChoosesAll :
      (c : Choices) (answers : List Answer)
      → AreAnswers answers
      → Yields
          (RefusesOne child_max answers)
          (λ opts. (c' : Choices) × ChoosesAll child_max c answers c' × (opts ≡ stored c'))
          (parse_options child_max (stored c) answers)
  unfolding parse_options
  parse_options-ChoosesAll c [] no_answers = returns (c, chosen, refl)
  parse_options-ChoosesAll c (answer ∷ answers) (answers_on h more) =
      >>=-Yields _ (Yields-weaken (parse_option-Chooses c answer h) (λ _ p. p) first)
        (λ opts (c', one, e). rw e (
          Yields-weaken (parse_options-ChoosesAll c' answers more)
            (λ _ (c'', all, e'). (c'', choosing one all, e')) later))
