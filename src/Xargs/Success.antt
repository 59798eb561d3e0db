-- ===== src/Xargs/Success.antt =====
-- What it says that the program returns 0.
use mathlib.Core.Path.{subst}
use mathlib.Core.List.{Perm}
use phxargs.Base.{
  Bool, ℕ, ◌++◌, ◌≡◌, ◌⊎◌, refl, sym, ap, ◌∙◌, inl, inr, List, [], ◌∷◌, Yields, Yields-weaken, ◌≢◌,
  zero, suc, arith, append-nil,
}
use phxargs.Base.Strings.{Str, NoNuls}
use phxargs.ProcessPool.Reap.{pids_of}
use phxargs.ProcessPool.Success.{Succeeded, zero-Succeeded, Succeeded-running}
use phxargs.Command.{Command}
use phxargs.XargsMode.{XargsMode}
use phxargs.XargsMode.Launches.{vectors}
use phxargs.AppenderMode.Serves.{with_fixed, flat}
use phxargs.ReplacerMode.Loop.{Vectors}
use phxargs.Xargs.{System, main}
use phxargs.Xargs.Ends.{IsFit, Done, appended, replaced, words_given, Finished, Stops}
use phxargs.Xargs.Runs.{main-Finished}

-- All tokens have been passed on, in their order.
pub data PassedOn (tokens words : List Str) (cmd : Command) (end : XargsMode) : Type 0 where
  in_batches :
      (batches : List (List Str))
      → vectors end.world ≡ with_fixed cmd batches
      → flat batches ≡ tokens
      → PassedOn tokens words cmd end
  in_place :
      (placeholder word : Str) (args : List Str)
      → words ≡ word ∷ args
      → Vectors placeholder word args tokens (vectors end.world)
      → PassedOn tokens words cmd end

-- The program has ended well: each child that it launched has been reaped and has exited with 0, and
-- every token has been passed on.
pub record EndedWell (system : System) (argv : List Str) : Type 0 where
  pub finished : Finished system argv 0
  pub succeeded : Succeeded finished.end.world.reaped
  pub reaped : Perm (pids_of finished.end.world.launched) (pids_of finished.end.world.reaped)
  pub passed_on :
      PassedOn finished.begun.tokens (words_given argv) finished.begun.start.cmd finished.end

nothing_behind :
    (front items tokens : List Str) → items ≡ [] → front ++ items ≡ tokens → front ≡ tokens
nothing_behind front items tokens e all =
    sym (append-nil front) ∙ ap (λ xs. front ++ xs) (sym e) ∙ all

Done-Succeeded :
    {suppress : Bool} {tokens words : List Str} {cmd : Command} {end : XargsMode}
    → Done suppress tokens words cmd (0, end)
    → Succeeded end.world.reaped
      × Perm (pids_of end.world.launched) (pids_of end.world.reaped)
      × PassedOn tokens words cmd end
Done-Succeeded {tokens} {end} (appended _ _ c) =
    let well = zero-Succeeded end.world.reaped (sym c.status) in
    let running = c.halts ∙ Succeeded-running end.world.reaped well in
    (
      well,
      c.reaped,
      elim c.complete [
        | inl (none_held, none_left) ↦ in_batches c.batches c.launched (
            nothing_behind (flat c.batches) c.items tokens none_held
              (nothing_behind (flat c.batches ++ c.items) c.left tokens none_left c.in_order))
        | inr halted ↦ absurd (cc)
      ],
    )
Done-Succeeded {tokens} {end} (replaced placeholder word args _ e c) =
    let well = zero-Succeeded end.world.reaped (sym c.status) in
    let running = c.halts ∙ Succeeded-running end.world.reaped well in
    (
      well,
      c.reaped,
      elim c.complete [
        | inl none_left ↦ in_place placeholder word args e (
            subst (λ xs. Vectors placeholder word args xs (vectors end.world))
              (nothing_behind c.taken c.left tokens none_left c.all) c.made)
        | inr halted ↦ absurd (cc)
      ],
    )

ended_well :
    (system : System) (argv : List Str) (status : ℕ)
    → Finished system argv status
    → (status ≢ 0) ⊎ (status ≡ 0) × EndedWell system argv
ended_well system argv zero f =
    let (well, reaped, passed) = Done-Succeeded f.done in
    inr (refl, record { finished = f; succeeded = well; reaped = reaped; passed_on = passed })
ended_well system argv (suc n) f = inl (λ e. omega (arith, e))

-- The program, from arguments without NUL and on a system that is fit for it, exits with status 1 for
-- one of the reasons stated; or it returns a status that is not 0; or it returns 0, and then every
-- child that it launched has been reaped and has exited with 0, and every token of its input has been
-- passed on: the argument vectors are the fixed arguments with batches that are the tokens in their
-- order, or, with `-I`, the words with the placeholder replaced by each of the tokens, in their order.
pub main-EndedWell :
    (system : System) (argv : List Str)
    → IsFit system
    → NoNuls argv
    → Yields
        (Stops system argv)
        (λ status. (status ≢ 0) ⊎ (status ≡ 0) × EndedWell system argv)
        (main system argv)
main-EndedWell system argv fit whole =
    Yields-weaken (main-Finished system argv fit whole)
      (λ status f. ended_well system argv status f) (λ why. why)
