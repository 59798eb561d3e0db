-- ===== src/AppenderMode/Loop.antt =====
-- The loop over the tokens.
use mathlib.Core.Path.{subst}
use phxargs.Base.{
  ℕ, zero, suc, ◌*◌, ◌<◌, ◌≡◌, refl, ap, sym, ◌∙◌, ◌⊎◌, inl, inr, Bool, true, false, List, [], ◌∷◌,
  ◌++◌, Option, none, ok, Yields, returns, >>=-Yields, Yields-weaken, length, length-append, arith,
  append_assoc, append-nil,
}
use phxargs.Base.Strings.{Str}
use phxargs.Stream.{Stream}
use phxargs.World.{Kernel}
use phxargs.ProcessPool.Reap.{IsLawful}
use phxargs.Command.{Command}
use phxargs.XargsMode.{XargsMode, Toker, xargs_mode_tokenizer_errored, is_error, toker_error}
use phxargs.XargsMode.Launches.{Continues}
use phxargs.XargsMode.Feeds.{
  not_errored, Feeds, finished, fed, Fetches, fetched-Tracks, next_token-ok,
}
use phxargs.CommandArgs.Refines as Args
use phxargs.AppenderMode.{appender_loop}
use phxargs.AppenderMode.Serves.{Passed, Passing, Reason}
use phxargs.AppenderMode.Batches.{Sound}
use phxargs.AppenderMode.Tests.{Passed-more, Passing-weaken}
use phxargs.AppenderMode.Passes.{Stepped, step-Passed}

module _ (kernel : Kernel) (law : IsLawful kernel) (base : Command)
    (appending : base.arg_placeholder ≡ none) (char_is_signed : Bool) where
  -- The loop has passed on the tokens taken, which are all of them unless the pool has halted.
  pub record Ended (tokens : List Str) (errored : Bool) (end : XargsMode × Bool) : Type 0 where
    pub taken : List Str
    pub left : List Str
    pub all : taken ++ left ≡ tokens
    pub passed : Passing base (Sound base) end.0 taken (2 * length tokens)
    pub stopped : (left ≡ []) ⊎ (end.0.pool.halt ≡ true)
    pub input : (end.1 ≡ true) × (0 < length tokens) ⊎ (end.1 ≡ false) × (tokens ≡ [])
    pub fails : xargs_mode_tokenizer_errored end.0 ≡ true → errored ≡ true

  fetched-Passed :
      {mode : XargsMode} {seen : List Str} {bound : ℕ} {toker : Toker} {source source' : Stream}
      {token : Option Str} {errored : Bool}
      → (f : Fetches char_is_signed toker source source' token errored mode.cmd)
      → Passed base mode seen bound
      → Passed base
          (record mode { toker = f.after; arg_source = source'; cmd = f.counted })
          seen
          bound
  fetched-Passed {source'} f p = record {
    batches = p.batches;
    items = p.items;
    serves = record {
      tracks = fetched-Tracks f.after source' f.lines_only p.serves.tracks;
      arguments =
          subst (λ (c : Command). Args.Represents c.input_args p.items) (sym f.lines_only.1)
            p.serves.arguments;
    };
    in_order = p.in_order;
    launches = p.launches;
    known = p.known;
  }

  -- What a round of the loop leads to, where the rest of the loop does what it should.
  after-step :
      (rounds : ℕ) (stop : Bool) (mode next : XargsMode) (seen : List Str) (token : Str)
      (rest tokens : List Str) (errored : Bool)
      → seen ++ token ∷ rest ≡ tokens
      → is_error (toker_error mode.toker) ≡ false
      → Stepped kernel law base appending mode seen token (2 * length seen) (next, stop)
      → (Continues mode next
          → Passed base next (seen ++ token ∷ []) (2 * length (seen ++ token ∷ []))
          → Yields
              (Reason kernel base tokens)
              (Ended tokens errored)
              (appender_loop kernel char_is_signed rounds next true))
      → Yields (Reason kernel base tokens) (Ended tokens errored) (elim stop [
        | true ↦ ok (next, true)
        | false ↦ appender_loop kernel char_is_signed rounds next true
      ])
  after-step rounds true mode next seen token rest tokens errored all e (i, inl (p, h)) go_on =
      returns (record {
        taken = seen ++ token ∷ [];
        left = rest;
        all = append_assoc seen (token ∷ []) rest ∙ all;
        passed =
            Passing-weaken p
              (omega (
                arith,
                ap length all,
                length-append seen (token ∷ rest),
                length-append seen (token ∷ []),
              ))
              p.known.sound;
        stopped = inr (h refl);
        input = inl (refl, omega (arith, ap length all, length-append seen (token ∷ rest)));
        fails = not_errored next e i.toker_same;
      })
  after-step rounds true mode next seen token rest tokens errored all e (i, inr (p, s, h)) go_on =
      returns (record {
        taken = seen;
        left = token ∷ rest;
        all = all;
        passed = Passed-more p (omega (arith, ap length all, length-append seen (token ∷ rest)));
        stopped = inr h;
        input = inl (refl, omega (arith, ap length all, length-append seen (token ∷ rest)));
        fails = not_errored next e i.toker_same;
      })
  after-step rounds false mode next seen token rest tokens errored all e (i, inr (p, s, h)) go_on =
      absurd (cc)
  after-step rounds false mode next seen token rest tokens errored all e (i, inl (p, h)) go_on =
      go_on i (Passed-more p (omega (arith, length-append seen (token ∷ []))))

  pub loop-Ended :
      (rounds : ℕ) {toker : Toker} {source : Stream} {rest : List Str} {errored : Bool}
      (mode : XargsMode) (seen tokens : List Str) (present : Bool)
      → Feeds char_is_signed toker source rest errored
      → mode.toker ≡ toker
      → mode.arg_source ≡ source
      → seen ++ rest ≡ tokens
      → (present ≡ true) × (0 < length seen) ⊎ (present ≡ false) × (seen ≡ [])
      → Passed base mode seen (2 * length seen)
      → length rest < rounds
      → Yields
          (Reason kernel base tokens)
          (Ended tokens errored)
          (appender_loop kernel char_is_signed rounds mode present)
  unfolding appender_loop
  loop-Ended zero mode seen tokens present feeds et es all begun p h = absurd (omega arith)
  loop-Ended (suc rounds) mode seen tokens present (finished f) et es all begun p h =
      let now = f mode.cmd in
      rw (next_token-ok char_is_signed mode et es now) (
        returns (record {
          taken = seen;
          left = [];
          all = all;
          passed =
              let q = fetched-Passed now p in
              Passing-weaken q (omega (arith, ap length all, length-append seen [])) q.known.sound;
          stopped = inl refl;
          input = elim begun [
            | inl (present, some_seen) ↦
                inl (present, omega (arith, ap length all, length-append seen []))
            | inr (absent, unseen) ↦ inr (absent, sym all ∙ append-nil seen ∙ unseen)
          ];
          fails = λ h. sym now.error_is ∙ h;
        }))
  loop-Ended (suc rounds) {errored} mode seen tokens present
        (fed {source'} {token} {tokens = rest} f shorter more) et es all begun p h =
      let now = f mode.cmd in
      let read = record mode { toker = now.after; arg_source = source'; cmd = now.counted } in
      rw (next_token-ok char_is_signed mode et es now) (
        >>=-Yields {P = Stepped kernel law base appending read seen token (2 * length seen)}
          {Q = Ended tokens errored} _
          (Yields-weaken
            (step-Passed kernel law base appending read seen rest token (2 * length seen)
              (fetched-Passed now p) (omega arith))
            (λ _ went. went) (λ why. subst (Reason kernel base) all why))
          (λ (next, stop) went.
            after-step rounds stop read next seen token rest tokens errored all now.error_is went
              (λ i p'.
                loop-Ended rounds next (seen ++ token ∷ []) tokens true (more mode.cmd) i.toker_same
                  i.source_same (append_assoc seen (token ∷ []) rest ∙ all)
                  (inl (refl, omega (arith, length-append seen (token ∷ [])))) p'
                  (omega (arith, h)))))
