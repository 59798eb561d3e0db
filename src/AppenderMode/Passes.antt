-- ===== src/AppenderMode/Passes.antt =====
-- One round of the loop: the token is passed on.
use phxargs.Base.{
  ℕ, ◌+◌, ◌*◌, ◌≤◌, ◌<◌, ◌≡◌, refl, sym, ◌∙◌, ◌⊎◌, inl, inr, Bool, true, false, List, [], ◌∷◌, ◌++◌,
  Yields, returns, >>=-Yields, Yields-weaken, Yields-same, append_assoc, length, length-append,
  arith, none,
}
use phxargs.Base.Strings.{Str}
use phxargs.World.{Kernel}
use phxargs.ProcessPool.Reap.{IsLawful}
use phxargs.Command.{Command}
use phxargs.XargsMode.{XargsMode}
use phxargs.XargsMode.Launches.{Continues, Continues-trans}
use phxargs.AppenderMode.{append_unless, execute_if, appender_step}
use phxargs.AppenderMode.Batches.{Room, Sound, Within, Cleared}
use phxargs.AppenderMode.Batches.Moves.{empty-Room, Within-flushed, Cleared-flushed}
use phxargs.AppenderMode.Serves.{Reason, Passed, Passing, execute-Flushed, add-Passed}
use phxargs.AppenderMode.Tests.{
  Passing-weaken, Passed-more, would_exceed-Yields, Exceeds, exceeds_lem, should_execute-Yields,
}

module _ (kernel : Kernel) (law : IsLawful kernel) (base : Command)
    (appending : base.arg_placeholder ≡ none) where
  -- What an execution that may stop the loop comes to: it stops only where the pool has halted.
  abbrev pub Went : XargsMode → List Str → ℕ → (XargsMode × Bool) → Type 0
  Went mode seen bound (mode', stop) =
      Continues mode mode' × Passed base mode' seen bound × (stop ≡ true → mode'.pool.halt ≡ true)

  launch-Went :
      {Then : List (List Str) → List Str → Type 0} (mode : XargsMode) (seen tokens : List Str)
      (bound : ℕ)
      → (p : Passed base mode seen bound) → Then p.batches p.items
      → Then (p.items ∷ p.batches) []
      → bound ≤ 2 * length tokens + 1
      → Yields
          (Reason kernel base tokens)
          (λ (mode', stop).
            Continues mode mode'
            × (p' : Passing base Then mode' seen (bound + 1)) × (stop ≡ mode'.pool.halt)
            × ((p'.items ≡ []) ⊎ (stop ≡ true)))
          (execute_if kernel true mode)
  unfolding execute_if
  launch-Went {Then} mode seen tokens bound p same flushed h =
      >>=-Yields _
        (execute-Flushed kernel law base appending {Then = Then} mode seen tokens bound p
          (λ _ _ _. same) flushed h)
        (λ mode' x. returns (x.continues, x.passed, refl, x.nothing_held))

  stay-Continues : (mode : XargsMode) → Continues mode mode
  stay-Continues mode = record { toker_same = refl; source_same = refl; halt_stays = λ h. h }

  execute_if-Went :
      (due : Bool) (mode : XargsMode) (seen tokens : List Str) (bound : ℕ)
      → (p : Passed base mode seen bound) → 0 < length p.items
      → (due ≡ false) ⊎ (base.line_mode ≡ true)
      → bound ≤ 2 * length tokens + 1
      → Yields (Reason kernel base tokens) (Went mode seen (bound + 1)) (execute_if kernel due mode)
  unfolding execute_if
  execute_if-Went true mode seen tokens bound p some_held (inr lines) h =
      Yields-weaken
        (launch-Went {Then = Within base} mode seen tokens bound p p.known
          (Within-flushed p.known.sound some_held lines) h)
        (λ (mode', stop) (i, p', halts, empty). (i, p', λ e. sym halts ∙ e)) (λ why. why)
  execute_if-Went true mode seen tokens bound p some_held (inl e) h = absurd (cc)
  execute_if-Went false mode seen tokens bound p some_held reason h =
      returns (stay-Continues mode, Passed-more p (omega arith), λ h. cc)

  -- The loop stops, or there is room for the token.
  abbrev HasRoom : XargsMode → List Str → Str → ℕ → (XargsMode × Bool) → Type 0
  HasRoom mode seen token bound (mode', stop) =
      Continues mode mode'
      × (p : Passing base (Sound base) mode' seen bound) × (stop ≡ true → mode'.pool.halt ≡ true)
      × ((stop ≡ true) ⊎ Room base p.batches p.items token)

  Cleared-Room :
      {batches : List (List Str)} (items : List Str) (token : Str)
      → Cleared base token batches items
      → items ≡ []
      → Room base batches items token
  Cleared-Room {batches} [] token c e = elim c.room [
    | inl some_held ↦ absurd (omega arith)
    | inr f ↦ empty-Room base batches token f
  ]
  Cleared-Room (item ∷ items) token c e = absurd (cc)

  -- Where the test asks for it, what is held is launched; then there is room for the token, unless
  -- the pool has halted.
  make-Room-Went :
      (exceeds : Bool) (mode : XargsMode) (seen tokens : List Str) (token : Str) (bound : ℕ)
      → (p : Passed base mode seen bound) → Exceeds kernel law base appending p token exceeds
      → bound ≤ 2 * length tokens + 1
      → Yields
          (Reason kernel base tokens)
          (HasRoom mode seen token (bound + 1))
          (execute_if kernel exceeds mode)
  unfolding execute_if Passing-weaken
  make-Room-Went true mode seen tokens token bound p (inl (e, some_held, full)) h =
      Yields-weaken
        (launch-Went {Then = Cleared base token} mode seen tokens bound p
          (record { sound = p.known.sound; room = inl some_held })
          (Cleared-flushed token p.known.sound some_held full) h)
        (λ (mode', stop) (i, p', halts, empty). (
          i,
          Passing-weaken p' (omega arith) p'.known.sound,
          λ e. sym halts ∙ e,
          elim empty [
            | inl none_left ↦ inr (Cleared-Room p'.items token p'.known none_left)
            | inr stopped ↦ inl stopped
          ],
        ))
        (λ why. why)
  make-Room-Went true mode seen tokens token bound p (inr (e, room)) h = absurd (cc)
  make-Room-Went false mode seen tokens token bound p (inl (e, _, _)) h = absurd (cc)
  make-Room-Went false mode seen tokens token bound p (inr (e, room)) h =
      returns (stay-Continues mode, Passing-weaken p (omega arith) p.known.sound, λ h. cc, inr room)

  -- What a round of the loop comes to: the token is passed on, or the pool has halted, and the
  -- loop stops with the token or without it.
  abbrev pub Stepped : XargsMode → List Str → Str → ℕ → (XargsMode × Bool) → Type 0
  Stepped mode seen token bound (mode', stop) =
      Continues mode mode'
      × (Passed base mode' (seen ++ token ∷ []) (bound + 2) × (stop ≡ true → mode'.pool.halt ≡ true)
          ⊎ Passing base (Sound base) mode' seen (bound + 2)
            × (stop ≡ true)
            × (mode'.pool.halt ≡ true))

  append_unless-Passed :
      (stop : Bool) (mode flushed : XargsMode) (seen rest : List Str) (token : Str) (bound : ℕ)
      → HasRoom mode seen token (bound + 1) (flushed, stop)
      → bound ≤ 2 * length seen
      → Yields
          (Reason kernel base (seen ++ token ∷ rest))
          (Stepped mode seen token bound)
          (append_unless kernel stop flushed token)
  unfolding append_unless
  append_unless-Passed true mode flushed seen rest token bound (i, p, h, room) b =
      returns (i, inr (Passed-more p (omega arith), refl, h refl))
  append_unless-Passed false mode flushed seen rest token bound (i, p, h, inl stopped) b =
      absurd (cc)
  append_unless-Passed false mode flushed seen rest token bound (i, p, h, inr room) b =
      >>=-Yields {Q = Stepped mode seen token bound} _
        (add-Passed kernel law base appending flushed seen rest token (bound + 1) p room)
        (λ added (j, q).
          >>=-Yields {Q = Stepped mode seen token bound} _
            (should_execute-Yields kernel law base appending added (seen ++ token ∷ []) rest
              (seen ++ token ∷ rest) (bound + 1) (append_assoc seen (token ∷ []) rest) q)
            (λ due (reason, r, some_held).
              Yields-weaken
                (execute_if-Went due added (seen ++ token ∷ []) (seen ++ token ∷ rest) (bound + 1) r
                  some_held reason (omega (arith, length-append seen (token ∷ rest))))
                (λ (next, stop) (k, r', halted). (
                  Continues-trans i (Continues-trans j k),
                  inl (Passed-more r' (omega arith), halted),
                ))
                (λ why. why)))

  pub step-Passed :
      (mode : XargsMode) (seen rest : List Str) (token : Str) (bound : ℕ)
      → Passed base mode seen bound
      → bound ≤ 2 * length seen
      → Yields
          (Reason kernel base (seen ++ token ∷ rest))
          (Stepped mode seen token bound)
          (appender_step kernel mode token)
  unfolding appender_step
  step-Passed mode seen rest token bound p b =
      >>=-Yields {Q = Stepped mode seen token bound} _
        (Yields-same (would_exceed-Yields kernel law base appending mode seen rest token bound p))
        (λ exceeds (e, _).
          >>=-Yields {Q = Stepped mode seen token bound} _
            (make-Room-Went exceeds mode seen (seen ++ token ∷ rest) token bound p
              (exceeds_lem kernel law base appending mode seen token bound exceeds p e)
              (omega (arith, length-append seen (token ∷ rest))))
            (λ (flushed, stop) w. append_unless-Passed stop mode flushed seen rest token bound w b))
