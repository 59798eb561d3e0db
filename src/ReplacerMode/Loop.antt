-- ===== src/ReplacerMode/Loop.antt =====
-- The loop over the tokens, with a placeholder.
use mathlib.Core.Path.{subst}
use phxargs.Base.{
  ℕ, zero, suc, ◌/◌, ◌≤◌, ◌<◌, ◌≡◌, ◌⊎◌, refl, sym, ap, ◌∙◌, inl, inr, Bool, true, false, List, [],
  ◌∷◌, ◌++◌, some, none, ok, Yields, returns, >>=-Yields, Yields-weaken, append_assoc, length,
  length-append, arith,
}
use phxargs.Base.Strings.{Str, NoNuls}
use phxargs.Stream.{Stream}
use phxargs.Util.{size_max}
use phxargs.World.{Kernel}
use phxargs.ProcessPool.Reap.{IsLawful}
use phxargs.CommandArgs.Refines as Args
use phxargs.CommandArgs.Refines.{bytes_of}
use phxargs.Command.{Command}
use phxargs.XargsMode.{XargsMode, Toker, xargs_mode_tokenizer_errored, is_error, toker_error}
use phxargs.XargsMode.Launches.{Tracks, Continues, LaunchFails, no_fork, no_place}
use phxargs.XargsMode.Feeds.{
  Feeds, finished, fed, SameButLines, fetched-Tracks, next_token-ok, not_errored,
}
use phxargs.ReplacerMode.{replacer_loop}
use phxargs.ReplacerMode.Arguments.{length_bound}
use phxargs.ReplacerMode.Rounds.{Ready, IsVector, TooLong, Went, step-Went}

-- The vectors, the latest first, are the words with each of the tokens, in their order.
pub data Vectors (placeholder word : Str) (args : List Str)
    : List Str → List (List Str) → Type 0 where
  no_vectors : Vectors placeholder word args [] []
  one_more :
      {taken taken' : List Str} {token : Str} {vector : List Str} {launched : List (List Str)}
      → Vectors placeholder word args taken launched
      → IsVector placeholder word args token vector
      → taken' ≡ taken ++ token ∷ []
      → Vectors placeholder word args taken' (vector ∷ launched)

-- Why a run may leave the process: fork fails; there are 2^63 tokens or more; a token and the
-- words are longer than the limit; or the input is read or formed badly.
pub data Fails (kernel : Kernel) (base : Command) (word : Str) (args tokens : List Str)
    (errored : Bool) : Type 0 where
  fork_failed : (n : ℕ) → kernel.fork n ≡ none → Fails kernel base word args tokens errored
  too_many : size_max / 2 < length tokens → Fails kernel base word args tokens errored
  too_long :
      (token : Str) (front rest : List Str)
      → front ++ token ∷ rest ≡ tokens
      → TooLong base word args token
      → Fails kernel base word args tokens errored
  bad_input : errored ≡ true → Fails kernel base word args tokens errored

-- The loop has launched a command for each token taken; they are all, unless the pool has halted.
pub record Ended (base : Command) (placeholder word : Str) (args tokens : List Str) (errored : Bool)
    (mode : XargsMode) : Type 0 where
  pub taken : List Str
  pub left : List Str
  pub launched : List (List Str)
  pub all : taken ++ left ≡ tokens
  pub made : Vectors placeholder word args taken launched
  pub tracks : Tracks base mode launched
  pub stopped : (left ≡ []) ⊎ (mode.pool.halt ≡ true)
  pub fails : xargs_mode_tokenizer_errored mode ≡ true → errored ≡ true

length-Vectors :
    {placeholder word : Str} {args taken : List Str} {launched : List (List Str)}
    → Vectors placeholder word args taken launched
    → length launched ≡ length taken
length-Vectors no_vectors = refl
length-Vectors (one_more {taken} {token} v _ e) =
    omega (arith, length-Vectors v, ap length e, length-append taken (token ∷ []))

module _ (kernel : Kernel) (law : IsLawful kernel) (base : Command) (placeholder word : Str)
    (args : List Str) (replacing : base.arg_placeholder ≡ some placeholder)
    (fixed : Args.Represents base.fixed_args (word ∷ args)) (whole : NoNuls args)
    (limit : base.max_length ≤ length_bound) where
  round-Fails :
      {seen : List Str} {vs : List (List Str)} (token : Str) (rest tokens : List Str)
      (errored : Bool)
      → seen ++ token ∷ rest ≡ tokens
      → Vectors placeholder word args seen vs
      → ((forks : ℕ) × LaunchFails kernel base forks vs) ⊎ TooLong base word args token
      → Fails kernel base word args tokens errored
  round-Fails {seen} token rest tokens errored all v (inl (n, no_fork failed)) =
      fork_failed n failed
  round-Fails {seen} token rest tokens errored all v (inl (_, no_place many)) =
      too_many (omega (arith, length-Vectors v, ap length all, length-append seen (token ∷ rest)))
  round-Fails {seen} token rest tokens errored all v (inr long) = too_long token seen rest all long

  fetched-Ready :
      {mode : XargsMode} {launched : List (List Str)} {cmd : Command} (toker : Toker)
      (source : Stream)
      → SameButLines mode.cmd cmd
      → Ready base word args mode launched
      → Ready base word args
          (record mode { toker = toker; arg_source = source; cmd = cmd })
          launched
  fetched-Ready toker source (n, e) r = record {
    tracks = fetched-Tracks toker source (n, e) r.tracks;
    no_input = subst (λ (c : Command). Args.Represents c.input_args []) (sym e) r.no_input;
    fresh = subst (λ (c : Command). Args.Represents c.replaced_fixed_args []) (sym e) r.fresh;
    room =
        subst (λ (c : Command). length (word ∷ args) ≤ c.replaced_fixed_args.capacity) (sym e)
          r.room;
  }

  -- What a round leads to, where the rest of the loop does what it should.
  after-step :
      (char_is_signed : Bool) (rounds : ℕ) (stop errored : Bool) (mode next : XargsMode)
      (seen rest tokens : List Str) (vs : List (List Str)) (token : Str)
      → seen ++ token ∷ rest ≡ tokens
      → is_error (toker_error mode.toker) ≡ false
      → Vectors placeholder word args seen vs
      → Went kernel law base placeholder word args replacing fixed whole limit mode vs token
          (next, stop)
      → (Continues mode next
          → (vs' : List (List Str)) → Vectors placeholder word args (seen ++ token ∷ []) vs'
          → Ready base word args next vs'
          → Yields
              (Fails kernel base word args tokens errored)
              (Ended base placeholder word args tokens errored)
              (replacer_loop kernel char_is_signed rounds next))
      → Yields
          (Fails kernel base word args tokens errored)
          (Ended base placeholder word args tokens errored)
          (elim stop [ true ↦ ok next | false ↦ replacer_loop kernel char_is_signed rounds next ])
  after-step char_is_signed rounds true errored mode next seen rest tokens vs token all e v
        (i, inl (h, (vector, made, r))) go_on =
      returns (record {
        taken = seen ++ token ∷ [];
        left = rest;
        launched = vector ∷ vs;
        all = append_assoc seen (token ∷ []) rest ∙ all;
        made = one_more v made refl;
        tracks = r.tracks;
        stopped = inr (h refl);
        fails = not_errored next e i.toker_same;
      })
  after-step char_is_signed rounds true errored mode next seen rest tokens vs token all e v
        (i, inr (_, h, t)) go_on =
      returns (record {
        taken = seen;
        left = token ∷ rest;
        launched = vs;
        all = all;
        made = v;
        tracks = t;
        stopped = inr h;
        fails = not_errored next e i.toker_same;
      })
  after-step char_is_signed rounds false errored mode next seen rest tokens vs token all e v
        (i, inr (s, h, t)) go_on =
      absurd (cc)
  after-step char_is_signed rounds false errored mode next seen rest tokens vs token all e v
        (i, inl (h, (vector, made, r))) go_on =
      go_on i (vector ∷ vs) (one_more v made refl) r

  pub loop-Ended :
      (char_is_signed : Bool) (rounds : ℕ) {toker : Toker} {source : Stream} {rest : List Str}
      {errored : Bool} (mode : XargsMode) (seen tokens : List Str) (vs : List (List Str))
      → Feeds char_is_signed toker source rest errored
      → mode.toker ≡ toker
      → mode.arg_source ≡ source
      → seen ++ rest ≡ tokens
      → NoNuls rest
      → Vectors placeholder word args seen vs
      → Ready base word args mode vs
      → length rest < rounds
      → Yields
          (Fails kernel base word args tokens errored)
          (Ended base placeholder word args tokens errored)
          (replacer_loop kernel char_is_signed rounds mode)
  unfolding replacer_loop
  loop-Ended char_is_signed zero mode seen tokens vs feeds et es all n v r h = absurd (omega arith)
  loop-Ended char_is_signed (suc rounds) mode seen tokens vs (finished {source'} f) et es all n v r
        h =
      let now = f mode.cmd in
      rw (next_token-ok char_is_signed mode et es now) (
        returns (record {
          taken = seen;
          left = [];
          launched = vs;
          all = all;
          made = v;
          tracks = fetched-Tracks now.after source' now.lines_only r.tracks;
          stopped = inl refl;
          fails = λ h. sym now.error_is ∙ h;
        }))
  loop-Ended char_is_signed (suc rounds) {errored} mode seen tokens vs
        (fed {source'} {token} {tokens = rest} f shorter more) et es all n v r h =
      let now = f mode.cmd in
      let read = record mode { toker = now.after; arg_source = source'; cmd = now.counted } in
      rw (next_token-ok char_is_signed mode et es now) (
        >>=-Yields
          {P = Went kernel law base placeholder word args replacing fixed whole limit read vs token}
          {Q = Ended base placeholder word args tokens errored} _
          (Yields-weaken
            (step-Went kernel law base placeholder word args replacing fixed whole limit read vs
              token (fetched-Ready now.after source' now.lines_only r) n.0)
            (λ _ went. went) (round-Fails token rest tokens errored all v))
          (λ (next, stop) went.
            after-step char_is_signed rounds stop errored read next seen rest tokens vs token all
              now.error_is v went
              (λ i vs' v' r'.
                loop-Ended char_is_signed rounds next (seen ++ token ∷ []) tokens vs'
                  (more mode.cmd) i.toker_same i.source_same
                  (append_assoc seen (token ∷ []) rest ∙ all) n.1 v' r' (omega (arith, h)))))
