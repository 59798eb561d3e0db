-- ===== src/Command/Limits.antt =====
-- The limits of a command line: `-n`, `-s`, and what is done with a token at a limit.
use phxargs.Base.{
  if◌then◌else◌, ◌&&◌, ◌==◌, ℕ, ◌+◌, ◌/◌, ◌≤◌, ◌<◌, ◌≡◌, refl, ◌⊎◌, inl, inr, true, false, List, [],
  ◌∷◌, ◌++◌, none, ok, exit, exit_failure, Bool-cases, length, arith, ltb, length-append,
}
use phxargs.Base.Int.{pos, negsuc}
use phxargs.Base.Strings.{Str}
use phxargs.Util.{size_max}
use phxargs.CommandArgs.{CommandArgs, command_args_create_with_capacity, command_args_create}
use phxargs.CommandArgs.Refines.{
  Represents, bytes_of, bytes_of-append, command_args_add-Represents,
  command_args_create_with_capacity-Represents,
}
use phxargs.Command.{
  Command, command_length, command_arg_would_exceed_limits, command_ensure_length_not_exceeded,
  command_add_input_argument, command_should_execute_after_arg_added, recycle_command,
  create_input_args,
}

-- The items are the input arguments, and no more than the options allow.
pub record IsWithin (cmd : Command) (items : List Str) : Type 0 where
  pub arguments : Represents cmd.input_args items
  pub number : (cmd.max_args ≡ 0) ⊎ (length items ≤ cmd.max_args)
  pub size : (items ≡ []) ⊎ (command_length cmd ≤ cmd.max_length)

-- `-L` implies `-x`, as `configure_options` has it.
abbrev pub LineModeTerminates : Command → Type 0
LineModeTerminates cmd = cmd.line_mode ≡ true → cmd.terminate_on_too_large_command ≡ true

-- The token is added, and the command is longer by it.
pub add_input_argument-Represents :
    (cmd : Command) (items : List Str) (token : Str)
    → Represents cmd.input_args items
    → cmd.input_args.capacity ≤ size_max / 2
    → (input_args : CommandArgs) × (command_add_input_argument cmd token
        ≡ ok (record cmd { input_args = input_args }))
      × Represents input_args (items ++ token ∷ [])
      × (command_length (record cmd { input_args = input_args })
          ≡ command_length cmd + (length token + 1))
unfolding command_add_input_argument command_length bytes_of
add_input_argument-Represents cmd items token r h =
    let (input_args, e, r') = command_args_add-Represents {a = cmd.input_args} token r h in
    (
      input_args,
      rw e,
      r',
      omega (arith, r.measured, r'.measured, bytes_of-append items (token ∷ [])),
    )

-- 1 where the lines of `-L` have been read.
abbrev pub executes : Command → ℕ
executes cmd = if cmd.line_mode && cmd.line_count == cmd.max_lines then 1 else 0

-- Where the size is checked after the addition, a command that is not refused is in its size.
pub should_execute-cases :
    (cmd : Command)
    → (command_should_execute_after_arg_added cmd ≡ negsuc 0)
        × (cmd.terminate_on_too_large_command ≡ true)
        × (cmd.max_length < command_length cmd)
      ⊎ (command_should_execute_after_arg_added cmd ≡ pos (executes cmd))
        × (cmd.terminate_on_too_large_command ≡ true → command_length cmd ≤ cmd.max_length)
unfolding command_should_execute_after_arg_added
should_execute-cases cmd = elim (Bool-cases (ltb cmd.max_length (command_length cmd))) [
  | inr short ↦ inr (ground arith, λ _. ground arith)
  | inl long ↦ elim (Bool-cases cmd.terminate_on_too_large_command) [
    | inl checked ↦ inl (rw (long, checked), checked, ground arith)
    | inr unchecked ↦ inr (ground arith, λ t. cc)
  ]
]

-- What a token that does not exceed the limits leaves room for.
not_exceeding_lem :
    (cmd : Command) (token : Str)
    → LineModeTerminates cmd
    → (cmd.max_args ≡ 0) ⊎ (cmd.input_args.count ≤ cmd.max_args)
    → command_arg_would_exceed_limits cmd token ≡ ok false
    → ((cmd.max_args ≡ 0) ⊎ (cmd.input_args.count < cmd.max_args))
      × ((cmd.terminate_on_too_large_command ≡ true)
          ⊎ (command_length cmd + length token + 1 ≤ cmd.max_length))
unfolding command_arg_would_exceed_limits command_ensure_length_not_exceeded
not_exceeding_lem cmd token implied number h = ground arith

-- A token that does not exceed the limits of a command within them is added, where the array has
-- at most (2^64 - 1) / 2 places and `-L` implies `-x`. Then either the check after the addition
-- gives -1, with `-x` in force and a command longer than the limit, or the command with the token is
-- within its limits.
pub accepted-IsWithin :
    (cmd : Command) (items : List Str) (token : Str)
    → IsWithin cmd items
    → LineModeTerminates cmd
    → cmd.input_args.capacity ≤ size_max / 2
    → command_arg_would_exceed_limits cmd token ≡ ok false
    → (cmd' : Command) × (command_add_input_argument cmd token ≡ ok cmd')
      × ((command_should_execute_after_arg_added cmd' ≡ negsuc 0)
            × (cmd'.terminate_on_too_large_command ≡ true)
            × (cmd'.max_length < command_length cmd')
          ⊎ IsWithin cmd' (items ++ token ∷ []))
accepted-IsWithin cmd items token w implied h accepted =
    let (input_args, added, r, longer) =
      add_input_argument-Represents cmd items token w.arguments h in
    let cmd' = record cmd { input_args = input_args } in
    let number : (cmd.max_args ≡ 0) ⊎ (cmd.input_args.count ≤ cmd.max_args) =
      ground (arith, w.number, w.arguments.counted) in
    let (room, size) = not_exceeding_lem cmd token implied number accepted in
    (
      cmd',
      added,
      elim (should_execute-cases cmd') [
        | inl refused ↦ inl refused
        | inr (_, fits) ↦ inr (record {
          arguments = r;
          number = elim room [
            | inl unlimited ↦ inl unlimited
            | inr below ↦ inr (omega (arith, w.arguments.counted, length-append items (token ∷ [])))
          ];
          size = elim size [
            | inl checked ↦ inr (fits checked)
            | inr short ↦ inr (omega (arith, longer))
          ];
        })
      ],
    )

-- Fresh input arguments are none.
pub create_input_args-Represents : (max_args : ℕ) → Represents (create_input_args max_args) []
unfolding create_input_args command_args_create
create_input_args-Represents max_args = elim (Bool-cases (ltb 0 max_args)) [
  | inl some_max ↦ rw some_max (command_args_create_with_capacity-Represents max_args)
  | inr no_max ↦ rw no_max (command_args_create_with_capacity-Represents 10)
]

pub recycle_command-IsWithin : (cmd : Command) → IsWithin (recycle_command cmd) []
unfolding recycle_command
recycle_command-IsWithin cmd = record {
  arguments = create_input_args-Represents cmd.max_args;
  number = inr (omega arith);
  size = inl refl;
}

-- A fresh command has room for `-n` arguments, or for ten.
recycle_command-capacity :
    (cmd : Command)
    → cmd.max_args ≤ size_max / 2
    → (recycle_command cmd).input_args.capacity ≤ size_max / 2
unfolding recycle_command create_input_args command_args_create command_args_create_with_capacity
recycle_command-capacity cmd h = elim (Bool-cases (ltb 0 cmd.max_args)) [
  | inl some_max ↦ rw some_max h
  | inr no_max ↦ rw no_max (omega arith)
]

-- The token alone, after the fixed arguments, is more than the limit.
abbrev pub IsOversized : Command → Str → Type 0
IsOversized cmd token =
    cmd.max_length < cmd.env_length + cmd.fixed_args.length_bytes + (length token + 1)

-- Without `-x` and `-L`, and with no placeholder, a token that is too long for any command is refused
-- only where it is the first: on a command with no input argument yet the process exits with
-- status 1. On one that holds input arguments, `-n` or `-s` asks for the command's execution, and the token
-- is then added to the fresh command (whose array has at most (2^64 - 1) / 2 places), which
-- nothing refuses and which is longer than the limit.
pub oversized_token_lem :
    (cmd : Command) (items : List Str) (token : Str)
    → Represents cmd.input_args items
    → cmd.arg_placeholder ≡ none
    → cmd.terminate_on_too_large_command ≡ false
    → cmd.line_mode ≡ false
    → cmd.max_args ≤ size_max / 2
    → IsOversized cmd token
    → (items ≡ []) × (command_arg_would_exceed_limits cmd token ≡ exit exit_failure)
      ⊎ (command_arg_would_exceed_limits cmd token ≡ ok true)
        × (cmd' : Command) × (command_add_input_argument (recycle_command cmd) token ≡ ok cmd')
        × (command_should_execute_after_arg_added cmd' ≡ pos 0)
        × (cmd'.max_length < command_length cmd')
unfolding command_arg_would_exceed_limits command_ensure_length_not_exceeded command_length
    command_should_execute_after_arg_added bytes_of recycle_command
oversized_token_lem cmd [] token r p x l h big = inl (refl, ground (arith, r.counted, r.measured))
oversized_token_lem cmd (item ∷ items) token r p x l h big =
    let (input_args, added, r', longer) =
      add_input_argument-Represents (recycle_command cmd) [] token
        (recycle_command-IsWithin cmd).arguments (recycle_command-capacity cmd h) in
    inr (
      rw (p, x, l) (ground (arith, r.counted, r.measured)),
      record (recycle_command cmd) { input_args = input_args },
      added,
      rw (x, l) refl,
      omega (arith, r'.measured),
    )
