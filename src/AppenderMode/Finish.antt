-- ===== src/AppenderMode/Finish.antt =====
-- What follows the loop, and what a run comes to.
use mathlib.Core.Path.{subst}
use mathlib.Core.List.{Perm}
use phxargs.Base.{
  ℕ, ◌+◌, ◌*◌, ◌≤◌, ◌<◌, ◌≡◌, refl, sym, ap, ◌∙◌, ◌⊎◌, inl, inr, Bool, true, false, List, [], ◌∷◌,
  ◌++◌, none, ok, Yields, returns, exits, >>=-Yields, Yields-weaken, length, arith, length-append,
  map, Bool-cases, if◌then◌else◌,
}
use phxargs.Base.Strings.{Str}
use phxargs.World.{Kernel}
use phxargs.ProcessPool.Status.{worst_status}
use phxargs.ProcessPool.Reap.{IsLawful, pids_of, any_halting}
use phxargs.ProcessPool.Loops.{process_pool_drain-reaps}
use phxargs.Command.{Command}
use phxargs.XargsMode.Launches.{Tracks, vectors, unlaunched-running}
use phxargs.XargsMode.{
  xargs_mode_tokenizer_errored, xargs_mode_execute_command, xargs_mode_input_args_remain,
  xargs_mode_drain, XargsMode,
}
use phxargs.AppenderMode.{execute_last, appender_finish}
use phxargs.AppenderMode.Batches.{Sent, Sound, EachFilled}
use phxargs.AppenderMode.Batches.Moves.{Sound-Sent, Sound-flushed}
use phxargs.AppenderMode.Serves.{Reason, with_fixed, flat, Passing, Flushed, execute-Flushed}
use phxargs.AppenderMode.Loop.{Ended}

no_items : (items : List Str) → length items ≡ 0 → items ≡ []
no_items [] h = refl
no_items (item ∷ items) h = absurd (omega arith)

nothing_passed : (front items : List Str) → front ++ items ≡ [] → items ≡ []
nothing_passed front items e =
    no_items items (omega (arith, ap length e, length-append front items))

front_empty : (front items : List Str) → front ++ items ≡ [] → front ≡ []
front_empty [] items e = refl
front_empty (item ∷ front) items e = absurd (cc)

no_batches :
    (batches : List (List Str)) (items : List Str)
    → EachFilled batches
    → flat batches ++ items ≡ []
    → batches ≡ []
no_batches [] items each e = refl
no_batches (batch ∷ batches) items each e = absurd (
    omega (
      arith,
      ap length (front_empty (flat batches ++ batch) items e),
      length-append (flat batches) batch,
      each.0,
    ))

-- What a run comes to, with its status and its final state: `left` has not been read, and nothing
-- is held or left unless a child has halted the pool.
pub record Completed (base : Command) (suppress : Bool) (tokens : List Str) (result : ℕ × XargsMode)
    : Type 0 where
  pub batches : List (List Str)
  pub items : List Str
  pub left : List Str
  pub in_order : (flat batches ++ items) ++ left ≡ tokens
  pub launched : vectors result.1.world ≡ with_fixed base batches
  pub sent : Sent base suppress tokens batches items
  pub complete : (items ≡ []) × (left ≡ []) ⊎ (result.1.pool.halt ≡ true)
  pub reaped : Perm (pids_of result.1.world.launched) (pids_of result.1.world.reaped)
  pub status : result.0 ≡ worst_status result.1.world.reaped
  pub halts : result.1.pool.halt ≡ any_halting result.1.world.reaped

-- Why a run may leave the process: a reason of the loop, or an input that is read or formed badly.
abbrev pub RunFails : Kernel → Command → List Str → Bool → Type 0
RunFails kernel base tokens errored = Reason kernel base tokens ⊎ (errored ≡ true)

module _ (kernel : Kernel) (law : IsLawful kernel) (base : Command)
    (appending : base.arg_placeholder ≡ none) where
  drain-Completed :
      {suppress : Bool} {tokens left seen : List Str} {mode : XargsMode} {bound : ℕ} {Why : Type 0}
      → seen ++ left ≡ tokens
      → (p : Passing base (Sent base suppress tokens) mode seen bound)
      → (p.items ≡ []) × (left ≡ []) ⊎ (mode.pool.halt ≡ true)
      → Yields Why (Completed base suppress tokens) (xargs_mode_drain kernel mode)
  unfolding xargs_mode_drain
  drain-Completed {left} {mode} all p c =
      let t = p.serves.tracks in
      let (pool', world', drained, empty, reaped, status, halts, same, stays) =
        process_pool_drain-reaps kernel law mode.pool mode.world t.children t.consistent in
      rw drained (
        returns (record {
          batches = p.batches;
          items = p.items;
          left = left;
          in_order = ap (λ xs. xs ++ left) p.in_order ∙ all;
          launched = ap (map (λ c. c.1)) same ∙ t.history;
          sent = p.known;
          complete = elim c [ inl done ↦ inl done | inr h ↦ inr (stays h) ];
          reaped = subst (λ l. Perm (pids_of l) (pids_of world'.reaped)) (sym same) reaped;
          status = status;
          halts = halts;
        }))

  -- What is left as it is holds nothing.
  unflushed :
      {mode : XargsMode} {seen : List Str} {bound : ℕ} (suppress : Bool) (tokens : List Str)
      → (p : Passing base (Sound base) mode seen bound)
      → Sent base suppress tokens p.batches p.items
      → p.items ≡ []
      → Flushed kernel law base appending (Sent base suppress tokens) mode seen (bound + 1) mode
  unflushed suppress tokens p sent e = record {
    passed = record {
      batches = p.batches;
      items = p.items;
      serves = p.serves;
      in_order = p.in_order;
      launches = omega (arith, p.launches);
      known = sent;
    };
    continues = record { toker_same = refl; source_same = refl; halt_stays = λ h. h };
    nothing_held = inl e;
  }

  remain-Flushed :
      (remain suppress : Bool) (mode : XargsMode) (seen tokens : List Str) (bound : ℕ)
      → (p : Passing base (Sound base) mode seen bound) → bound ≤ 2 * length tokens + 1
      → 0 < length tokens
      → (remain ≡ false) × (p.items ≡ []) ⊎ (remain ≡ true) × (0 < length p.items)
      → Yields
          (Reason kernel base tokens)
          (Flushed kernel law base appending (Sent base suppress tokens) mode seen (bound + 1))
          (if remain then xargs_mode_execute_command kernel mode else ok mode)
  remain-Flushed true suppress mode seen tokens bound p b some_token (inr (e, some_held)) =
      execute-Flushed kernel law base appending {Then = Sent base suppress tokens} mode seen tokens
        bound p (λ _ _ _. Sound-Sent p.known some_token)
        (Sound-Sent (Sound-flushed p.known some_held) some_token) b
  remain-Flushed true suppress mode seen tokens bound p b some_token (inl (e, empty)) = absurd (cc)
  remain-Flushed false suppress mode seen tokens bound p b some_token (inl (e, empty)) =
      returns (unflushed suppress tokens p (Sound-Sent p.known some_token) empty)
  remain-Flushed false suppress mode seen tokens bound p b some_token (inr (e, some_held)) =
      absurd (cc)

  remain-cases :
      {mode : XargsMode} {seen : List Str} {bound : ℕ}
      → (p : Passing base (Sound base) mode seen bound)
      → (xargs_mode_input_args_remain mode ≡ false) × (p.items ≡ [])
        ⊎ (xargs_mode_input_args_remain mode ≡ true) × (0 < length p.items)
  remain-cases {mode} p = elim (Bool-cases (xargs_mode_input_args_remain mode)) [
    | inl remain ↦ inr (remain, ground (arith, remain, p.serves.arguments.counted))
    | inr none_left ↦
        inl (none_left, no_items p.items (ground (arith, none_left, p.serves.arguments.counted)))
  ]

  -- Without a token nothing has been launched or is held.
  nothing_sent :
      {mode : XargsMode} {seen : List Str} {bound : ℕ}
      → (p : Passing base (Sound base) mode seen bound) → seen ≡ []
      → (p.items ≡ []) × (p.batches ≡ [])
  nothing_sent p unseen = (
    nothing_passed (flat p.batches) p.items (p.in_order ∙ unseen),
    no_batches p.batches p.items p.known.filled (p.in_order ∙ unseen),
  )

  -- So the pool cannot halt in front of the launch of the words alone.
  halted-Sent :
      {Then : Type 0} {seen : List Str} {mode : XargsMode} {bound : ℕ} (mode' : XargsMode)
      → (p : Passing base (Sound base) mode seen bound) → seen ≡ []
      → mode'.pool.halt ≡ true
      → Tracks base mode' (with_fixed base p.batches)
      → Then
  halted-Sent mode' p unseen halted t =
      let running = unlaunched-running (
        subst (λ batches. Tracks base mode' (with_fixed base batches)) (nothing_sent p unseen).1
          t) in
      absurd (cc)

  execute_last-Flushed :
      (suppress input_present : Bool) (mode : XargsMode) (seen tokens : List Str) (bound : ℕ)
      → (p : Passing base (Sound base) mode seen bound) → bound ≤ 2 * length tokens + 1
      → (input_present ≡ true) × (0 < length tokens)
        ⊎ (input_present ≡ false) × (seen ≡ []) × (tokens ≡ [])
      → Yields
          (Reason kernel base tokens)
          (Flushed kernel law base appending (Sent base suppress tokens) mode seen (bound + 1))
          (execute_last kernel suppress mode input_present)
  unfolding execute_last
  execute_last-Flushed suppress true mode seen tokens bound p b (inl (_, some_token)) =
      remain-Flushed (xargs_mode_input_args_remain mode) suppress mode seen tokens bound p b
        some_token (remain-cases p)
  execute_last-Flushed suppress true mode seen tokens bound p b (inr (e, _, _)) = absurd (cc)
  execute_last-Flushed suppress false mode seen tokens bound p b (inl (e, _)) = absurd (cc)
  execute_last-Flushed true false mode seen tokens bound p b (inr (_, unseen, none_given)) =
      let (empty, none_launched) = nothing_sent p unseen in
      returns (
        unflushed true tokens p
          (record {
            limited = p.known.limited;
            filled = inr (none_given, none_launched);
            full = p.known.full;
          })
          empty)
  execute_last-Flushed false false mode seen tokens bound p b (inr (_, unseen, none_given)) =
      let (empty, none_launched) = nothing_sent p unseen in
      execute-Flushed kernel law base appending {Then = Sent base false tokens} mode seen tokens
        bound p (λ mode' halted t. halted-Sent mode' p unseen halted t)
        (record {
          limited = (p.known.held, p.known.limited);
          filled = inr (none_given, cc (empty, none_launched));
          full = (tt, p.known.full);
        })
        b

  input-cases :
      {char_is_signed errored input_present : Bool} {tokens : List Str} {mode : XargsMode}
      → (x : Ended kernel law base appending char_is_signed tokens errored (mode, input_present))
      → (input_present ≡ true) × (0 < length tokens)
        ⊎ (input_present ≡ false) × (x.taken ≡ []) × (tokens ≡ [])
  input-cases x = elim x.input [
    | inl present ↦ inl present
    | inr (absent, none_given) ↦
        inr (absent, front_empty x.taken x.left (x.all ∙ none_given), none_given)
  ]

  pub finish-Completed :
      (char_is_signed suppress failing errored input_present : Bool) (tokens : List Str)
      (mode : XargsMode)
      → Ended kernel law base appending char_is_signed tokens errored (mode, input_present)
      → xargs_mode_tokenizer_errored mode ≡ failing
      → Yields
          (RunFails kernel base tokens errored)
          (Completed base suppress tokens)
          (appender_finish kernel suppress mode input_present)
  unfolding appender_finish xargs_mode_drain
  finish-Completed char_is_signed suppress true errored input_present tokens mode x e =
      let t = x.passed.serves.tracks in
      let (_, _, drained, _, _, _, _, _, _) =
        process_pool_drain-reaps kernel law mode.pool mode.world t.children t.consistent in
      rw (e, drained) (exits (inr (x.fails e)))
  finish-Completed char_is_signed suppress false errored input_present tokens mode x e = rw e (
      >>=-Yields {Q = Completed base suppress tokens} _
        (Yields-weaken
          (execute_last-Flushed suppress input_present mode x.taken tokens (2 * length tokens)
            x.passed (omega arith) (input-cases x))
          (λ _ f. f) inl)
        (λ last f. drain-Completed x.all f.passed (elim f.nothing_held [
          | inr halted ↦ inr halted
          | inl flushed ↦ elim x.stopped [
            | inl read ↦ inl (flushed, read)
            | inr halted ↦ inr (f.continues.halt_stays halted)
          ]
        ])))
