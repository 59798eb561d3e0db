-- ===== src/AppenderMode/Tests.antt =====
-- The tests before and after a token is added.
use phxargs.Base.{
  ℕ, ◌≤◌, ◌<◌, ◌≡◌, refl, sym, ap, ◌∙◌, ◌⊎◌, inl, inr, ◌&&◌, ◌||◌, not, Bool, true, false, List, [],
  ◌∷◌, ◌++◌, Yields, returns, exits, Bool-cases, ok, append_assoc, ltb, ◌==◌, length, arith, none,
}
use phxargs.Base.Strings.{Str}
use phxargs.World.{Kernel}
use phxargs.ProcessPool.Reap.{IsLawful}
use phxargs.ProcessPool.Loops.{process_pool_drain-reaps}
use phxargs.CommandArgs.{CommandArgs}
use phxargs.CommandArgs.Refines.{bytes_of}
use phxargs.Command.{
  Command, command_arg_would_exceed_limits, command_ensure_length_not_exceeded, length_with,
  is_given, command_length,
}
use phxargs.Command.Limits.{executes, should_execute-cases}
use phxargs.XargsMode.{XargsMode, xargs_mode_should_execute_command_after_arg_added}
use phxargs.AppenderMode.Batches.{Room, Admitted, Growing, IsFull, full_number, full_size, size_of}
use phxargs.AppenderMode.Batches.Moves.{Admitted-Limited, Within-full}
use phxargs.AppenderMode.Serves.{Reason, too_long, Passed, Passing, flat}

refused_facts :
    (cmd : Command) (token : Str)
    → cmd.arg_placeholder ≡ none
    → ((is_given cmd.arg_placeholder || cmd.input_args.count == 0)
        && ltb cmd.max_length (length_with cmd token))
      ≡ true
    → (cmd.input_args.count ≡ 0) × (cmd.max_length < length_with cmd token)
refused_facts cmd token e h = ground arith

no_bytes : (items : List Str) → length items ≡ 0 → bytes_of items ≡ 0
unfolding bytes_of
no_bytes [] h = refl
no_bytes (item ∷ items) h = absurd (omega arith)

-- What the test for the limits says of a command with its number of arguments within `-n`.
exceeds_facts :
    (cmd : Command) (token : Str) (exceeds : Bool)
    → cmd.arg_placeholder ≡ none
    → (cmd.max_args ≡ 0) ⊎ (cmd.input_args.count ≤ cmd.max_args)
    → command_arg_would_exceed_limits cmd token ≡ ok exceeds
    → (exceeds ≡ true)
        × (0 < cmd.input_args.count)
        × ((0 < cmd.max_args) × (cmd.input_args.count ≡ cmd.max_args)
            ⊎ (cmd.max_length < length_with cmd token))
      ⊎ (exceeds ≡ false)
        × ((cmd.max_args ≡ 0) ⊎ (cmd.input_args.count < cmd.max_args))
        × ((length_with cmd token ≤ cmd.max_length)
            ⊎ (cmd.line_mode ≡ true)
            ⊎ (cmd.terminate_on_too_large_command ≡ true) × (0 < cmd.max_args))
unfolding command_arg_would_exceed_limits command_ensure_length_not_exceeded
exceeds_facts cmd token true e n h = inl (refl, ground (arith, h), ground (arith, h))
exceeds_facts cmd token false e n h = inr (refl, ground (arith, h), ground (arith, h))

-- More launches may be allowed, and less may be known.
unfoldable pub Passing-weaken :
    {base : Command} {Known Less : List (List Str) → List Str → Type 0} {mode : XargsMode}
    {seen : List Str} {bound bound' : ℕ}
    → (p : Passing base Known mode seen bound) → bound ≤ bound'
    → Less p.batches p.items
    → Passing base Less mode seen bound'
Passing-weaken p h less = record {
  batches = p.batches;
  items = p.items;
  serves = p.serves;
  in_order = p.in_order;
  launches = omega (arith, p.launches);
  known = less;
}

pub Passed-more :
    {base : Command} {Known : List (List Str) → List Str → Type 0} {mode : XargsMode}
    {seen : List Str} {bound bound' : ℕ}
    → Passing base Known mode seen bound
    → bound ≤ bound'
    → Passing base Known mode seen bound'
Passed-more p h = Passing-weaken p h p.known

one-within : (max_args : ℕ) → (max_args ≡ 0) ⊎ (1 ≤ max_args)
one-within max_args = ground arith

-- Why a batch that is too long for a command has been put together.
Admitted-long :
    {base : Command} {batch : List Str}
    → Admitted base batch
    → base.terminate_on_too_large_command ≡ true
    → base.max_length < size_of base batch
    → (length batch ≡ 1)
      ⊎ (base.terminate_on_too_large_command ≡ true)
        × ((base.line_mode ≡ true) ⊎ (0 < base.max_args))
Admitted-long admitted strict long = elim admitted.size [
  | inl short ↦ absurd (omega (arith, short, long))
  | inr (inl one) ↦ inl one
  | inr (inr (inl lines)) ↦ inr (strict, inl lines)
  | inr (inr (inr (_, some_max))) ↦ inr (strict, inr some_max)
]

module _ (kernel : Kernel) (law : IsLawful kernel) (base : Command)
    (appending : base.arg_placeholder ≡ none) where
  -- The length of the command that holds the items.
  command_length-Passed :
      {Known : List (List Str) → List Str → Type 0} {mode : XargsMode} {seen : List Str} {bound : ℕ}
      → (p : Passing base Known mode seen bound) → command_length mode.cmd ≡ size_of base p.items
  unfolding command_length
  command_length-Passed {mode} p =
      let same = p.serves.tracks.same_command in
      omega (
        arith,
        same.same_env_length,
        ap (λ (a : CommandArgs). a.length_bytes) same.same_fixed_args,
        p.serves.arguments.measured,
      )

  -- The test for the limits leaves the process only at a token that is too long by itself.
  pub would_exceed-Yields :
      (mode : XargsMode) (seen rest : List Str) (token : Str) (bound : ℕ)
      → Passed base mode seen bound
      → Yields
          (Reason kernel base (seen ++ token ∷ rest))
          (λ exceeds. Unit {0})
          (command_arg_would_exceed_limits mode.cmd token)
  unfolding command_arg_would_exceed_limits command_ensure_length_not_exceeded bytes_of
  would_exceed-Yields mode seen rest token bound p =
      let cmd = mode.cmd in
      let test =
        (is_given cmd.arg_placeholder || cmd.input_args.count == 0)
        && ltb cmd.max_length (length_with cmd token) in
      elim (Bool-cases test) [
        | inr short ↦ rw short (returns tt)
        | inl long ↦
            let (empty, over) =
              refused_facts cmd token (p.serves.tracks.same_command.same_placeholder ∙ appending)
                long in
            rw long (
              exits (
                too_long seen (token ∷ []) rest refl (one-within base.max_args) (inl refl) (
                  omega (
                    arith,
                    command_length-Passed p,
                    p.serves.tracks.same_command.same_max_length,
                    no_bytes p.items (omega (arith, p.serves.arguments.counted)),
                  ))))
      ]

  count-within :
      {mode : XargsMode} {seen : List Str} {bound : ℕ}
      → (p : Passed base mode seen bound)
      → (mode.cmd.max_args ≡ 0) ⊎ (mode.cmd.input_args.count ≤ mode.cmd.max_args)
  count-within p =
      let same = p.serves.tracks.same_command in
      elim p.known.sound.held.number [
        | inl unlimited ↦ inl (same.same_max_args ∙ unlimited)
        | inr below ↦ inr (omega (arith, p.serves.arguments.counted, same.same_max_args))
      ]

  -- What the test says of the items held, and of the batches launched.
  abbrev pub Exceeds :
      {mode : XargsMode} {seen : List Str} {bound : ℕ}
      → Passed base mode seen bound
      → Str
      → Bool
      → Type 0
  Exceeds p token exceeds =
      (exceeds ≡ true) × (0 < length p.items) × IsFull base p.items token
      ⊎ (exceeds ≡ false) × Room base p.batches p.items token

  pub exceeds_lem :
      (mode : XargsMode) (seen : List Str) (token : Str) (bound : ℕ) (exceeds : Bool)
      → (p : Passed base mode seen bound)
      → command_arg_would_exceed_limits mode.cmd token ≡ ok exceeds
      → Exceeds p token exceeds
  unfolding command_length
  exceeds_lem mode seen token bound exceeds p h =
      let same = p.serves.tracks.same_command in
      let counted = p.serves.arguments.counted in
      elim (exceeds_facts mode.cmd token exceeds (same.same_placeholder ∙ appending)
        (count-within p) h) [
          | inl (e, some_held, reason) ↦ inl (
            e,
            omega (arith, counted),
            elim reason [
              | inl (some_max, reached) ↦
                  full_number (omega (arith, same.same_max_args))
                    (omega (arith, counted, same.same_max_args))
              | inr long ↦ full_size (omega (arith, command_length-Passed p, same.same_max_length))
            ],
          )
          | inr (e, number, size) ↦ inr (
            e,
            record {
              number = elim number [
                | inl unlimited ↦ inl (sym same.same_max_args ∙ unlimited)
                | inr below ↦ inr (omega (arith, counted, same.same_max_args))
              ];
              size = elim size [
                | inl short ↦ inl (omega (arith, command_length-Passed p, same.same_max_length))
                | inr (inl lines) ↦ inr (inr (inl (sym same.same_line_mode ∙ lines)))
                | inr (inr (strict, some_max)) ↦ inr (
                    inr (inr (sym same.same_terminate ∙ strict, omega (arith, same.same_max_args))))
              ];
              full = Within-full p.items token p.known;
            },
          )
        ]

  -- Only the lines of `-L` ask for an execution after the addition.
  due_lines :
      (cmd : Command)
      → cmd.line_mode ≡ base.line_mode
      → (not (executes cmd == 0) ≡ false) ⊎ (base.line_mode ≡ true)
  due_lines cmd same = elim (Bool-cases cmd.line_mode) [
    | inl lines ↦ inr (sym same ∙ lines)
    | inr free ↦ inl (ground (arith, free))
  ]

  checked-Passed :
      (mode : XargsMode) (seen : List Str) (bound : ℕ)
      → (p : Passing base (Growing base) mode seen bound)
      → (mode.cmd.terminate_on_too_large_command ≡ true
          → command_length mode.cmd ≤ mode.cmd.max_length)
      → (p' : Passed base mode seen bound) × (0 < length p'.items)
  checked-Passed mode seen bound p fits =
      let same = p.serves.tracks.same_command in
      (
        record {
          batches = p.batches;
          items = p.items;
          serves = p.serves;
          in_order = p.in_order;
          launches = p.launches;
          known = record {
            sound = record {
              limited = p.known.limited;
              filled = p.known.filled;
              full = p.known.full;
              held = Admitted-Limited p.known.held (λ strict.
                  let short = fits (same.same_terminate ∙ strict) in
                  omega (arith, short, command_length-Passed p, same.same_max_length));
            };
            resting = inl p.known.some_held;
          };
        },
        p.known.some_held,
      )

  -- The check after the addition leaves the process only at a batch that is too long, with `-x`; else
  -- all is within the limits.
  pub should_execute-Yields :
      (mode : XargsMode) (seen rest tokens : List Str) (bound : ℕ)
      → seen ++ rest ≡ tokens
      → Passing base (Growing base) mode seen bound
      → Yields
          (Reason kernel base tokens)
          (λ due.
            ((due ≡ false) ⊎ (base.line_mode ≡ true))
            × (p : Passed base mode seen bound) × (0 < length p.items))
          (xargs_mode_should_execute_command_after_arg_added kernel mode)
  unfolding xargs_mode_should_execute_command_after_arg_added
  should_execute-Yields mode seen rest tokens bound all p = elim (should_execute-cases mode.cmd) [
    | inr (e, fits) ↦
        rw (e, xargs_mode_should_execute_command_after_arg_added)
          (returns (
            let (q, some_held) = checked-Passed mode seen bound p fits in
            (due_lines mode.cmd p.serves.tracks.same_command.same_line_mode, q, some_held)))
    | inl (e, checked, long) ↦
        let t = p.serves.tracks in
        let over : base.max_length < size_of base p.items =
          omega (arith, command_length-Passed p, t.same_command.same_max_length) in
        let (_, _, drained, _, _, _, _, _, _) =
          process_pool_drain-reaps kernel law mode.pool mode.world t.children t.consistent in
        rw (e, drained, xargs_mode_should_execute_command_after_arg_added)
          (exits (
            too_long (flat p.batches) p.items rest
              (sym (append_assoc (flat p.batches) p.items rest)
                ∙ ap (λ xs. xs ++ rest) p.in_order
                ∙ all)
              p.known.held.number
              (Admitted-long p.known.held (sym t.same_command.same_terminate ∙ checked) over) over))
  ]
