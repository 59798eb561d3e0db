-- ===== src/AppenderMode/Serves.antt =====
-- What the loop of the mode has launched and holds, against what it has read.
use mathlib.Core.Path.{subst}
use phxargs.Base.{
  sym, ℕ, ◌+◌, ◌*◌, ◌/◌, ◌≤◌, ◌<◌, ◌≡◌, refl, ap, ◌∙◌, ◌⊎◌, inl, inr, true, List, [], ◌∷◌, ◌++◌,
  map, none, Yields, returns, >>=-Yields, Yields-weaken, length, length-append, length-map, arith,
  append-nil, append_assoc,
}
use phxargs.Base.Strings.{Str}
use phxargs.Util.{size_max}
use phxargs.World.{Kernel}
use phxargs.ProcessPool.Reap.{IsLawful}
use phxargs.CommandArgs.Refines as Args
use phxargs.CommandArgs.Refines.{bytes_of, command_args_add-Yields}
use phxargs.Command.{Command, build_exec_args, recycle_command, command_add_input_argument}
use phxargs.Command.Limits.{create_input_args-Represents}
use phxargs.XargsMode.{XargsMode, xargs_mode_execute_command, xargs_mode_add_input_argument}
use phxargs.CommandArgs.{CommandArgs}
use phxargs.AppenderMode.Batches.{Room, Sound, Within, Growing}
use phxargs.AppenderMode.Batches.Moves.{Room-Admitted}
use phxargs.XargsMode.Launches.{
  SameCommand, Tracks, Continues, LaunchFails, no_fork, no_place, Executed, execute_command-Tracks,
}

-- Why a run over the tokens may leave the process: fork fails; there are 2^62 tokens or more; or there
-- is a batch of consecutive tokens too long for a command, within `-n`: of one token, or with `-x` and
-- either `-L` or `-n` in force.
pub data Reason (kernel : Kernel) (base : Command) (tokens : List Str) : Type 0 where
  fork_failed : (n : ℕ) → kernel.fork n ≡ none → Reason kernel base tokens
  too_many : size_max / 2 < 2 * length tokens + 1 → Reason kernel base tokens
  too_long :
      (front batch rest : List Str)
      → front ++ (batch ++ rest) ≡ tokens
      → (base.max_args ≡ 0) ⊎ (length batch ≤ base.max_args)
      → (length batch ≡ 1)
        ⊎ (base.terminate_on_too_large_command ≡ true)
          × ((base.line_mode ≡ true) ⊎ (0 < base.max_args))
      → base.max_length < base.env_length + base.fixed_args.length_bytes + bytes_of batch
      → Reason kernel base tokens

-- The fixed arguments with each batch.
abbrev pub with_fixed : Command → List (List Str) → List (List Str)
with_fixed base batches = map (λ batch. base.fixed_args.args ++ batch) batches

-- The mode has launched the command with each of the batches (the latest first), and holds the items.
pub record Serves (base : Command) (mode : XargsMode) (batches : List (List Str)) (items : List Str)
    : Type 0 where
  pub tracks : Tracks base mode (with_fixed base batches)
  pub arguments : Args.Represents mode.cmd.input_args items

-- The arguments of batches, the latest of which comes first, in the order of the input.
abbrev pub flat : List (List Str) → List Str
flat [] = []
flat (batch ∷ batches) = flat batches ++ batch

-- The arguments of the commands launched, and then those held, are the tokens seen; `bound` is no
-- less than the number of launches, and `Known` is what is known of the batches and the items held.
pub record Passing (base : Command) (Known : List (List Str) → List Str → Type 0) (mode : XargsMode)
    (seen : List Str) (bound : ℕ) : Type 0 where
  pub batches : List (List Str)
  pub items : List Str
  pub serves : Serves base mode batches items
  pub in_order : flat batches ++ items ≡ seen
  pub launches : length batches ≤ bound
  pub known : Known batches items

-- Between two tokens the batches are not empty, and each is full before what comes next; and all
-- is within the limits.
abbrev pub Passed : Command → XargsMode → List Str → ℕ → Type 0
Passed base = Passing base (Within base)

vector_lem :
    (base : Command) (mode : XargsMode) (batches : List (List Str)) (items : List Str)
    → base.arg_placeholder ≡ none
    → Serves base mode batches items
    → build_exec_args mode.cmd ≡ base.fixed_args.args ++ items
unfolding build_exec_args
vector_lem base mode batches items appending s =
    rw
      (
        s.tracks.same_command.same_placeholder ∙ appending,
        s.tracks.same_command.same_fixed_args,
        s.arguments.items_are,
      )
      refl

same_input :
    {base cmd : Command} {input_args : CommandArgs}
    → SameCommand base cmd
    → SameCommand base (record cmd { input_args = input_args })
same_input s = record {
  same_max_args = s.same_max_args;
  same_max_length = s.same_max_length;
  same_placeholder = s.same_placeholder;
  same_terminate = s.same_terminate;
  same_line_mode = s.same_line_mode;
  same_env_length = s.same_env_length;
  same_fixed_args = s.same_fixed_args;
}

module _ (kernel : Kernel) (law : IsLawful kernel) (base : Command)
    (appending : base.arg_placeholder ≡ none) where
  -- Nothing is held any more, unless the pool has halted.
  pub record Flushed (Known : List (List Str) → List Str → Type 0) (mode : XargsMode)
      (seen : List Str) (bound : ℕ) (mode' : XargsMode) : Type 0 where
    pub passed : Passing base Known mode' seen bound
    pub continues : Continues mode mode'
    pub nothing_held : (passed.items ≡ []) ⊎ (mode'.pool.halt ≡ true)

  -- What then is known where the pool has halted before the launch.
  abbrev pub WhereHalted :
      {Known : List (List Str) → List Str → Type 0} {mode : XargsMode} {seen : List Str} {bound : ℕ}
      → Passing base Known mode seen bound
      → (List (List Str) → List Str → Type 0)
      → Type 0
  WhereHalted p Then =
      (mode' : XargsMode)
      → mode'.pool.halt ≡ true
      → Tracks base mode' (with_fixed base p.batches)
      → Then p.batches p.items

  Executed-Flushed :
      {Known Then : List (List Str) → List Str → Type 0} {mode : XargsMode} {seen : List Str}
      {bound : ℕ} (mode' : XargsMode)
      → (p : Passing base Known mode seen bound) → WhereHalted p Then
      → Then (p.items ∷ p.batches) []
      → Executed kernel base mode (with_fixed base p.batches) mode'
      → Flushed Then mode seen (bound + 1) mode'
  unfolding recycle_command
  Executed-Flushed mode' p same flushed (i, inl (halted, same_cmd, t)) = record {
    passed = record {
      batches = p.batches;
      items = p.items;
      serves = record {
        tracks = t;
        arguments =
            subst (λ (c : Command). Args.Represents c.input_args p.items) (sym same_cmd)
              p.serves.arguments;
      };
      in_order = p.in_order;
      launches = omega (arith, p.launches);
      known = same mode' halted t;
    };
    continues = i;
    nothing_held = inr halted;
  }
  Executed-Flushed {mode} mode' p same flushed (i, inr (_, fresh, t)) = record {
    passed = record {
      batches = p.items ∷ p.batches;
      items = [];
      serves = record {
        tracks =
            subst (λ vector. Tracks base mode' (vector ∷ with_fixed base p.batches))
              (vector_lem base mode p.batches p.items appending p.serves) t;
        arguments =
            subst (λ (c : Command). Args.Represents c.input_args []) (sym fresh)
              (create_input_args-Represents mode.cmd.max_args);
      };
      in_order = append-nil (flat p.batches ++ p.items) ∙ p.in_order;
      launches = omega (arith, p.launches);
      known = flushed;
    };
    continues = i;
    nothing_held = inl refl;
  }

  LaunchFails-Reason :
      {forks : ℕ} {launched : List (List Str)} {tokens : List Str}
      → LaunchFails kernel base forks launched
      → length launched ≤ 2 * length tokens + 1
      → Reason kernel base tokens
  LaunchFails-Reason {forks} (no_fork failed) h = fork_failed forks failed
  LaunchFails-Reason (no_place many) h = too_many (omega arith)

  -- An execution launches what is held.
  pub execute-Flushed :
      {Known Then : List (List Str) → List Str → Type 0} (mode : XargsMode) (seen tokens : List Str)
      (bound : ℕ)
      → (p : Passing base Known mode seen bound) → WhereHalted p Then
      → Then (p.items ∷ p.batches) []
      → bound ≤ 2 * length tokens + 1
      → Yields
          (Reason kernel base tokens)
          (Flushed Then mode seen (bound + 1))
          (xargs_mode_execute_command kernel mode)
  execute-Flushed {Then} mode seen tokens bound p same flushed h =
      Yields-weaken
        (execute_command-Tracks kernel base mode (with_fixed base p.batches) law p.serves.tracks)
        (λ mode' x. Executed-Flushed {Then = Then} mode' p same flushed x)
        (λ why. LaunchFails-Reason why (
          omega (arith, length-map (λ batch. base.fixed_args.args ++ batch) p.batches, p.launches)))

  -- A token is held.
  pub add-Passed :
      (mode : XargsMode) (seen rest : List Str) (token : Str) (bound : ℕ)
      → (p : Passing base (Sound base) mode seen bound) → Room base p.batches p.items token
      → Yields
          (Reason kernel base (seen ++ token ∷ rest))
          (λ mode'.
            Continues mode mode' × Passing base (Growing base) mode' (seen ++ token ∷ []) bound)
          (xargs_mode_add_input_argument mode token)
  unfolding xargs_mode_add_input_argument command_add_input_argument
  add-Passed mode seen rest token bound p room =
      >>=-Yields _
        (>>=-Yields
          {Q = λ cmd'.
            SameCommand base cmd' × Args.Represents cmd'.input_args (p.items ++ token ∷ [])}
          _
          (Yields-weaken (command_args_add-Yields token p.serves.arguments) (λ _ r. r)
            (λ many. too_many (
              omega (
                arith,
                ap length p.in_order,
                length-append (flat p.batches) p.items,
                length-append seen (token ∷ rest),
              ))))
          (λ input_args r. returns (same_input p.serves.tracks.same_command, r)))
        (λ cmd (same, r). returns (
          record { toker_same = refl; source_same = refl; halt_stays = λ h. h },
          record {
            batches = p.batches;
            items = p.items ++ token ∷ [];
            serves = record {
              tracks = record {
                children = p.serves.tracks.children;
                consistent = p.serves.tracks.consistent;
                same_command = same;
                history = p.serves.tracks.history;
              };
              arguments = r;
            };
            in_order =
                sym (append_assoc (flat p.batches) p.items (token ∷ []))
                ∙ ap (λ xs. xs ++ token ∷ []) p.in_order;
            launches = p.launches;
            known = record {
              limited = p.known.limited;
              filled = p.known.filled;
              full = room.full;
              held = Room-Admitted p.items token room;
              some_held = omega (arith, length-append p.items (token ∷ []));
            };
          },
        ))
