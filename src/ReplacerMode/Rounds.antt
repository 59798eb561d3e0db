-- ===== src/ReplacerMode/Rounds.antt =====
-- One round of the loop: a command with the token in place of the placeholder is launched.
use mathlib.Core.Path.{subst}
use phxargs.Base.{
  ℕ, ◌+◌, ◌≤◌, ◌<◌, ◌≡◌, ◌⊎◌, refl, sym, ap, ◌∙◌, inl, inr, Bool, true, ltb, List, [], ◌∷◌, ◌++◌,
  some, Yields, returns, exits, >>=-Yields, Yields-weaken, Bool-cases, append-nil, length, arith,
  if◌then◌else◌,
}
use phxargs.Base.Strings.{Str, NoNul, NoNuls}
use phxargs.World.{Kernel}
use phxargs.ProcessPool.Reap.{IsLawful}
use phxargs.CommandArgs.{CommandArgs, command_args_create_with_capacity}
use phxargs.CommandArgs.Refines as Args
use phxargs.CommandArgs.Refines.{bytes_of, command_args_create_with_capacity-Represents}
use phxargs.Command.{
  Command, build_exec_args, recycle_command, command_ensure_length_not_exceeded, command_length,
  length_with, is_given,
}
use phxargs.Command.Limits.{create_input_args-Represents}
use phxargs.XargsMode.{XargsMode, xargs_replace_args, xargs_mode_ensure_command_length_not_exceeded}
use phxargs.XargsMode.Launches.{
  SameCommand, Tracks, Continues, Continues-trans, LaunchFails, Executed, execute_command-Tracks,
}
use phxargs.ReplacerMode.{replacer_step}
use phxargs.ReplacerMode.Arguments.{ReplacesEach, length_bound, command_replace_args-ReplacesEach}

-- The mode has launched the vectors, and is ready to replace.
pub record Ready (base : Command) (word : Str) (args : List Str) (mode : XargsMode)
    (launched : List (List Str)) : Type 0 where
  pub tracks : Tracks base mode launched
  pub no_input : Args.Represents mode.cmd.input_args []
  pub fresh : Args.Represents mode.cmd.replaced_fixed_args []
  pub room : length (word ∷ args) ≤ mode.cmd.replaced_fixed_args.capacity

-- The token and the words, before any replacement, are longer than the limit.
abbrev pub TooLong : Command → Str → List Str → Str → Type 0
TooLong base word args token =
    base.max_length < base.env_length + bytes_of (word ∷ args) + length token + 1

-- The words with the placeholder replaced.
abbrev pub IsVector : Str → Str → List Str → Str → List Str → Type 0
IsVector placeholder word args token vector =
    (outs : List Str) × ReplacesEach placeholder token args outs × (vector ≡ word ∷ outs)

module _ (kernel : Kernel) (law : IsLawful kernel) (base : Command) (placeholder word : Str)
    (args : List Str) (replacing : base.arg_placeholder ≡ some placeholder)
    (fixed : Args.Represents base.fixed_args (word ∷ args)) (whole : NoNuls args)
    (limit : base.max_length ≤ length_bound) where
  length_with_lem :
      {mode : XargsMode} {launched : List (List Str)} (token : Str)
      → Ready base word args mode launched
      → length_with mode.cmd token ≡ base.env_length + bytes_of (word ∷ args) + length token + 1
  unfolding command_length bytes_of
  length_with_lem {mode} token r =
      let same = r.tracks.same_command in
      omega (
        arith,
        same.same_env_length,
        ap (λ (a : CommandArgs). a.length_bytes) same.same_fixed_args,
        fixed.measured,
        r.no_input.measured,
      )

  ensure-Yields :
      (mode : XargsMode) (launched : List (List Str)) (token : Str)
      → Ready base word args mode launched
      → Yields
          (TooLong base word args token)
          (λ _. base.env_length + bytes_of (word ∷ args) + length token + 1 ≤ base.max_length)
          (xargs_mode_ensure_command_length_not_exceeded mode token)
  unfolding command_ensure_length_not_exceeded
  ensure-Yields mode launched token r =
      let cmd = mode.cmd in
      let same = r.tracks.same_command in
      let given : is_given cmd.arg_placeholder ≡ true =
        ap is_given (same.same_placeholder ∙ replacing) in
      let size = length_with_lem token r in
      elim (Bool-cases (ltb cmd.max_length (length_with cmd token))) [
        | inl over ↦ rw (given, over) (exits (ground (arith, size, same.same_max_length)))
        | inr under ↦ rw (given, under) (returns (ground (arith, size, same.same_max_length)))
      ]

  -- The mode holds a command with the vector, which has not been launched.
  record Holds (mode : XargsMode) (launched : List (List Str)) (token : Str) (mode' : XargsMode)
      : Type 0 where
    continues : Continues mode mode'
    tracks : Tracks base mode' launched
    vector : IsVector placeholder word args token (build_exec_args mode'.cmd)

  vector_lem :
      (cmd : Command) (all : CommandArgs) (outs : List Str)
      → cmd.arg_placeholder ≡ some placeholder
      → cmd.input_args.args ≡ []
      → all.args ≡ word ∷ outs
      → build_exec_args (record cmd { replaced_fixed_args = all }) ≡ word ∷ outs
  unfolding build_exec_args
  vector_lem cmd all outs given empty held =
      ap (λ p. (if is_given p then all else cmd.fixed_args).args ++ cmd.input_args.args) given
      ∙ ap (λ xs. xs ++ cmd.input_args.args) held
      ∙ ap (λ ys. (word ∷ outs) ++ ys) empty
      ∙ append-nil (word ∷ outs)

  replace-Holds :
      (mode : XargsMode) (launched : List (List Str)) (token : Str)
      → Ready base word args mode launched
      → NoNul token
      → base.env_length + bytes_of (word ∷ args) + length token + 1 ≤ base.max_length
      → Yields ⊥ (Holds mode launched token) (xargs_replace_args mode token)
  unfolding xargs_replace_args build_exec_args bytes_of
  replace-Holds mode launched token r token_whole short =
      let same = r.tracks.same_command in
      let given = same.same_placeholder ∙ replacing in
      let (outs, all, each, e, held) =
        command_replace_args-ReplacesEach placeholder token token_whole (omega arith) mode.cmd word
          args given (ap (λ (a : CommandArgs). a.args) same.same_fixed_args ∙ fixed.items_are) whole
          (omega arith) r.fresh r.room in
      rw e (
        returns (record {
          continues = record { toker_same = refl; source_same = refl; halt_stays = λ h. h };
          tracks = record {
            children = r.tracks.children;
            consistent = r.tracks.consistent;
            same_command = record {
              same_max_args = same.same_max_args;
              same_max_length = same.same_max_length;
              same_placeholder = same.same_placeholder;
              same_terminate = same.same_terminate;
              same_line_mode = same.same_line_mode;
              same_env_length = same.same_env_length;
              same_fixed_args = same.same_fixed_args;
            };
            history = r.tracks.history;
          };
          vector =
              (outs, each, vector_lem mode.cmd all outs given r.no_input.items_are held.items_are);
        }))

  -- A command that has been recycled is ready.
  recycled-Ready :
      (cmd : Command) (mode' : XargsMode) (launched : List (List Str))
      → SameCommand base cmd
      → mode'.cmd ≡ recycle_command cmd
      → Tracks base mode' launched
      → Ready base word args mode' launched
  unfolding recycle_command command_args_create_with_capacity
  recycled-Ready cmd mode' launched same e t =
      let given : is_given cmd.arg_placeholder ≡ true =
        ap is_given (same.same_placeholder ∙ replacing) in
      let replaced : mode'.cmd.replaced_fixed_args
          ≡ command_args_create_with_capacity cmd.fixed_args.count =
        ap (λ (c : Command). c.replaced_fixed_args) e
        ∙ ap
            (λ b.
              if b
              then command_args_create_with_capacity cmd.fixed_args.count
              else cmd.replaced_fixed_args)
            given in
      record {
        tracks = t;
        no_input =
            subst (λ (c : Command). Args.Represents c.input_args []) (sym e)
              (create_input_args-Represents cmd.max_args);
        fresh =
            subst (λ (a : CommandArgs). Args.Represents a []) (sym replaced)
              (command_args_create_with_capacity-Represents cmd.fixed_args.count);
        room = omega (
          arith,
          ap (λ (a : CommandArgs). a.capacity) replaced,
          ap (λ (a : CommandArgs). a.count) same.same_fixed_args,
          fixed.counted,
        );
      }

  -- What a round comes to: a command for the token is launched, or the pool has halted.
  abbrev pub Went : XargsMode → List (List Str) → Str → (XargsMode × Bool) → Type 0
  Went mode launched token (mode', stop) =
      Continues mode mode'
      × ((stop ≡ true → mode'.pool.halt ≡ true)
            × ((vector : List Str) × IsVector placeholder word args token vector
                × Ready base word args mode' (vector ∷ launched))
          ⊎ (stop ≡ true) × (mode'.pool.halt ≡ true) × Tracks base mode' launched)

  executed-Went :
      (mode held executed : XargsMode) (launched : List (List Str)) (token : Str)
      → Holds mode launched token held
      → Executed kernel base held launched executed
      → Went mode launched token (executed, executed.pool.halt)
  executed-Went mode held executed launched token h (i, inl (halted, _, t)) =
      (Continues-trans h.continues i, inr (halted, halted, t))
  executed-Went mode held executed launched token h (i, inr (_, e, t)) = (
    Continues-trans h.continues i,
    inl (
      λ halted. halted,
      (
        build_exec_args held.cmd,
        h.vector,
        recycled-Ready held.cmd executed _ h.tracks.same_command e t,
      ),
    ),
  )

  pub step-Went :
      (mode : XargsMode) (launched : List (List Str)) (token : Str)
      → Ready base word args mode launched
      → NoNul token
      → Yields
          (((forks : ℕ) × LaunchFails kernel base forks launched) ⊎ TooLong base word args token)
          (Went mode launched token)
          (replacer_step kernel mode token)
  unfolding replacer_step
  step-Went mode launched token r token_whole =
      >>=-Yields {Q = Went mode launched token} _
        (Yields-weaken (ensure-Yields mode launched token r) (λ _ short. short) inr)
        (λ _ short.
          >>=-Yields {Q = Went mode launched token} _
            (Yields-weaken (replace-Holds mode launched token r token_whole short) (λ _ h. h)
              (λ why. absurd why))
            (λ held h.
              >>=-Yields {Q = Went mode launched token} _
                (Yields-weaken (execute_command-Tracks kernel base held launched law h.tracks)
                  (λ _ x. x) (λ why. inl (held.world.forks, why)))
                (λ executed x. returns (executed-Went mode held executed launched token h x))))
