-- ===== src/Command/Create.antt =====
-- What `command_create` starts with: the fixed arguments, the environment's size and the limit.
use mathlib.Core.Path.{subst}
use phxargs.Base.{
  ℕ, ◌+◌, ◌*◌, ◌≤◌, ◌<◌, ◌≡◌, refl, sym, ap, ◌⊎◌, inl, inr, true, false, List, [], ◌∷◌, ◌++◌, ok,
  exit, exit_failure, Bool-cases, length, arith, append-nil, append_assoc, ltb, length-append,
}
use phxargs.Base.Int.{ℤ, pos, negsuc, pos_part}
use phxargs.Base.Strings.{Str}
use phxargs.Util.{phxargs_min}
use phxargs.Options.{Options}
use phxargs.CommandArgs.{CommandArgs, command_args_create_with_capacity}
use phxargs.CommandArgs.Refines.{
  Represents, bytes_of, command_args_add-room, command_args_create_with_capacity-Represents,
}
use phxargs.Command.Limits.{IsWithin, create_input_args-Represents}
use phxargs.Command.{
  unlimited_command, Command, default_cmd, command_create, create_fixed_args, add_fixed_arguments,
  decide_max_length, system_max_length, command_length, calc_env_length,
}

-- The words of the command: those given, or `/bin/echo`.
abbrev pub words_of : List Str → List Str
words_of [] = default_cmd ∷ []
words_of (arg ∷ argv) = arg ∷ argv

add_fixed_arguments-Represents :
    (argv : List Str) {a : CommandArgs} {items : List Str}
    → Represents a items
    → a.count + length argv ≤ a.capacity
    → (a' : CommandArgs) × (add_fixed_arguments a argv ≡ ok a') × Represents a' (items ++ argv)
unfolding add_fixed_arguments
add_fixed_arguments-Represents [] {a} {items} r h = (a, refl, rw (append-nil items) r)
add_fixed_arguments-Represents (arg ∷ argv) {a} {items} r h =
    let (a', e, r', same) = command_args_add-room arg r (omega arith) in
    let (a'', e', r'') =
      add_fixed_arguments-Represents argv r'
        (omega (arith, same, r.counted, r'.counted, length-append items (arg ∷ []))) in
    (a'', rw e e', subst (Represents a'') (append_assoc items (arg ∷ []) argv) r'')

pub create_fixed_args-Represents :
    (argv : List Str)
    → (a : CommandArgs) × (create_fixed_args argv ≡ ok a) × Represents a (words_of argv)
unfolding create_fixed_args command_args_create_with_capacity
create_fixed_args-Represents [] =
    let (a, e, r, _) =
      command_args_add-room default_cmd (command_args_create_with_capacity-Represents 1)
        (omega arith) in
    (a, e, r)
create_fixed_args-Represents (arg ∷ argv) =
    add_fixed_arguments-Represents (arg ∷ argv)
      (command_args_create_with_capacity-Represents (length (arg ∷ argv))) (omega arith)

-- What the system leaves to a command: 128 KiB where it states no limit; else its limit less twice the
-- environment and 2048 bytes, or nothing where these take all of it.
pub data Leaves (sc_arg_max : ℤ) (env_length : ℕ) : ℕ → Type 0 where
  unlimited : pos_part sc_arg_max ≡ 0 → Leaves sc_arg_max env_length (128 * 1024)
  room_left :
      {left : ℕ}
      → left + (2 * env_length + 2048) ≡ pos_part sc_arg_max
      → Leaves sc_arg_max env_length left
  none_left :
      0 < pos_part sc_arg_max
      → pos_part sc_arg_max ≤ 2 * env_length + 2048
      → Leaves sc_arg_max env_length 0

system_max_length-cases :
    (sc_arg_max : ℤ) (env_length : ℕ)
    → let left = system_max_length sc_arg_max env_length in
      (pos_part sc_arg_max ≡ 0) × (left ≡ 128 * 1024)
      ⊎ ((left + (2 * env_length + 2048) ≡ pos_part sc_arg_max)
          ⊎ ((0 < pos_part sc_arg_max)
              × (pos_part sc_arg_max ≤ 2 * env_length + 2048)
              × (left ≡ 0)))
unfolding system_max_length
system_max_length-cases (negsuc n) env_length = inl (refl, ground arith)
system_max_length-cases (pos n) env_length = ground arith

system_max_length-Leaves :
    (sc_arg_max : ℤ) (env_length : ℕ)
    → Leaves sc_arg_max env_length (system_max_length sc_arg_max env_length)
system_max_length-Leaves sc_arg_max env_length =
    elim (system_max_length-cases sc_arg_max env_length) [
      | inl (no_limit, e) ↦ subst (Leaves sc_arg_max env_length) (sym e) (unlimited no_limit)
      | inr (inl room) ↦ room_left room
      | inr (inr (limited, taken, e)) ↦
          subst (Leaves sc_arg_max env_length) (sym e) (none_left limited taken)
    ]

decide_max_length-cases :
    (cmd : Command) (opts : Options) (sc_arg_max : ℤ)
    → (decide_max_length cmd opts sc_arg_max ≡ exit exit_failure)
        × (opts.max_command_length_specified ≡ true)
        × ((opts.max_command_length < command_length cmd)
            ⊎ (system_max_length sc_arg_max cmd.env_length < opts.max_command_length))
      ⊎ (m : ℕ) × (decide_max_length cmd opts sc_arg_max ≡ ok m)
        × (m ≤ system_max_length sc_arg_max cmd.env_length)
        × ((opts.max_command_length_specified ≡ true)
              × (m ≡ opts.max_command_length)
              × (command_length cmd ≤ m)
            ⊎ (opts.max_command_length_specified ≡ false)
              × ((m ≡ 128 * 1024)
                  ⊎ (m ≤ 128 * 1024) × (m ≡ system_max_length sc_arg_max cmd.env_length)))
unfolding decide_max_length phxargs_min
decide_max_length-cases cmd opts sc_arg_max =
    let system = system_max_length sc_arg_max cmd.env_length in
    elim (Bool-cases opts.max_command_length_specified) [
      | inr free ↦ inr (phxargs_min (128 * 1024) system, rw free refl, ground arith, ground arith)
      | inl given ↦ elim (Bool-cases (ltb opts.max_command_length (command_length cmd))) [
        | inl small ↦ inl (rw (given, small) refl, given, ground arith)
        | inr enough ↦ elim (Bool-cases (ltb system opts.max_command_length)) [
          | inl large ↦ inl (rw (given, enough, large) refl, given, ground arith)
          | inr fits ↦
              inr
                (opts.max_command_length, rw (given, enough, fits) refl, ground arith, ground arith)
        ]
      ]
    ]

calc_env_length_lem : (environ : List Str) → calc_env_length environ ≡ bytes_of environ
unfolding calc_env_length bytes_of
calc_env_length_lem [] = refl
calc_env_length_lem (e ∷ environ) = ap (λ n. (length e + 1) + n) (calc_env_length_lem environ)

-- A command as the options, the words and the environment ask for.
pub record Starts (opts : Options) (argv environ : List Str) (sc_arg_max : ℤ) (cmd : Command)
    : Type 0 where
  pub words : Represents cmd.fixed_args (words_of argv)
  pub placeholder : cmd.arg_placeholder ≡ opts.arg_placeholder
  pub line_mode : cmd.line_mode ≡ opts.line_mode_specified
  pub strict : cmd.terminate_on_too_large_command ≡ opts.terminate_on_too_large_command
  pub max_args : cmd.max_args ≡ opts.max_args_per_command
  pub max_lines : cmd.max_lines ≡ opts.max_lines_per_command
  pub open_tty : cmd.open_tty ≡ opts.open_tty
  pub prompt : cmd.prompt ≡ opts.prompt
  pub trace : cmd.trace ≡ opts.trace
  pub no_line : cmd.line_count ≡ 0
  pub replaced : cmd.replaced_fixed_args ≡ command_args_create_with_capacity cmd.fixed_args.count
  pub within : IsWithin cmd []
  pub environment : cmd.env_length ≡ bytes_of environ
  pub left : ℕ
  pub leaves : Leaves sc_arg_max (bytes_of environ) left
  pub system : cmd.max_length ≤ left
  pub limit :
      (opts.max_command_length_specified ≡ true)
        × (cmd.max_length ≡ opts.max_command_length)
        × (bytes_of environ + bytes_of (words_of argv) ≤ cmd.max_length)
      ⊎ (opts.max_command_length_specified ≡ false)
        × ((cmd.max_length ≡ 128 * 1024) ⊎ (cmd.max_length ≤ 128 * 1024) × (cmd.max_length ≡ left))

command_length_unlimited :
    (opts : Options) (argv environ : List Str) (fixed_args : CommandArgs)
    → Represents fixed_args (words_of argv)
    → command_length (unlimited_command opts fixed_args environ)
      ≡ bytes_of environ + bytes_of (words_of argv)
unfolding command_length unlimited_command bytes_of
command_length_unlimited opts argv environ fixed_args r = omega (
  arith,
  r.measured,
  (create_input_args-Represents opts.max_args_per_command).measured,
  calc_env_length_lem environ,
)

-- `-s` cannot be met: it is less than the environment and the words take, or more than the system leaves.
pub data SizeFails (opts : Options) (argv environ : List Str) (sc_arg_max : ℤ) : Type 0 where
  too_small :
      opts.max_command_length_specified ≡ true
      → opts.max_command_length < bytes_of environ + bytes_of (words_of argv)
      → SizeFails opts argv environ sc_arg_max
  too_large :
      {left : ℕ}
      → opts.max_command_length_specified ≡ true
      → Leaves sc_arg_max (bytes_of environ) left
      → left < opts.max_command_length
      → SizeFails opts argv environ sc_arg_max

-- Creating a command either leaves the process with status 1, where `-s` is given and is less than the
-- bytes of the environment and the words, with their NULs, or more than the system leaves; or it gives a
-- command whose fixed arguments are the words (`/bin/echo` without any), whose environment has its size
-- in bytes, which has no input argument and has counted no line, and whose placeholder and options
-- `-n`, `-L`, `-o`, `-p`, `-t` and `-x` are those given. Its limit is that of `-s`, or without it
-- 128 KiB or what the system leaves, the smaller of the two. The system leaves 128 KiB where it states no
-- limit; else its limit less 2048 bytes and twice the environment, or 0 where these take all of it.
pub command_create-Starts :
    (opts : Options) (argv environ : List Str) (sc_arg_max : ℤ)
    → (command_create opts argv environ sc_arg_max ≡ exit exit_failure)
        × SizeFails opts argv environ sc_arg_max
      ⊎ (cmd : Command) × (command_create opts argv environ sc_arg_max ≡ ok cmd)
        × Starts opts argv environ sc_arg_max cmd
unfolding command_create unlimited_command
command_create-Starts opts argv environ sc_arg_max =
    let (fixed_args, e, r) = create_fixed_args-Represents argv in
    let cmd = unlimited_command opts fixed_args environ in
    let size = command_length_unlimited opts argv environ fixed_args r in
    let env = calc_env_length_lem environ in
    let leaves =
      subst (λ n. Leaves sc_arg_max n (system_max_length sc_arg_max cmd.env_length)) env
        (system_max_length-Leaves sc_arg_max cmd.env_length) in
    elim (decide_max_length-cases cmd opts sc_arg_max) [
      | inl (refused, given, why) ↦ inl (
        rw (e, refused) refl,
        elim why [
          | inl small ↦ too_small given (subst (λ n. opts.max_command_length < n) size small)
          | inr large ↦ too_large given leaves large
        ],
      )
      | inr (m, decided, below, limit) ↦ inr (
        record cmd { max_length = m },
        rw (e, decided) refl,
        record {
          words = r;
          placeholder = refl;
          line_mode = refl;
          strict = refl;
          max_args = refl;
          max_lines = refl;
          open_tty = refl;
          prompt = refl;
          trace = refl;
          no_line = refl;
          replaced = refl;
          within = record {
            arguments = create_input_args-Represents opts.max_args_per_command;
            number = inr (omega arith);
            size = inl refl;
          };
          environment = env;
          left = system_max_length sc_arg_max cmd.env_length;
          leaves = leaves;
          system = below;
          limit = elim limit [
            | inl (given, same, room) ↦ inl (given, same, subst (λ n. n ≤ m) size room)
            | inr free ↦ inr free
          ];
        },
      )
    ]
