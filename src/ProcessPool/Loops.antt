-- ===== src/ProcessPool/Loops.antt =====
-- Waiting for room, and draining.
use mathlib.Core.Path.{subst}
use mathlib.Core.List.{Perm}
use phxargs.Base.{
  ℕ, zero, suc, ◌+◌, ◌≤◌, ◌<◌, ◌≡◌, ◌∙◌, ◌⊎◌, inl, inr, true, false, List, [], ◌∷◌, map, ok,
  Bool-cases, length, arith,
}
use phxargs.World.{Signal, Kernel, World}
use phxargs.ProcessPool.Status.{worst_status}
use phxargs.ProcessPool.Reap.{Consistent, IsLawful, Untouched, reap_one-Consistent, any_halting}
use phxargs.ProcessPool.Signals.{apply_signal_adjustments-Keeps}
use phxargs.ProcessPool.{
  apply_signal_adjustments, deliver, process_pool_wait_if_full, ProcessPool, reap_one, is_full,
  wait_loop, drain_loop, process_pool_drain,
}

Untouched-trans :
    {p q r : ProcessPool} {u v w : World}
    → Untouched p q u v
    → Untouched q r v w
    → Untouched p r u w
Untouched-trans a b = record {
  max_procs_same = b.max_procs_same ∙ a.max_procs_same;
  capacity_same = b.capacity_same ∙ a.capacity_same;
  child_max_same = b.child_max_same ∙ a.child_max_same;
  launched_same = b.launched_same ∙ a.launched_same;
  forks_same = b.forks_same ∙ a.forks_same;
  adjustments_same = b.adjustments_same ∙ a.adjustments_same;
  halt_stays = λ h. b.halt_stays (a.halt_stays h);
}

pub Untouched-refl : (pool : ProcessPool) (world : World) → Untouched pool pool world world
Untouched-refl pool world = ground arith

-- Under the limit there is room for one more.
abbrev pub HasRoom : ProcessPool → Type 0
HasRoom pool = (pool.max_procs ≡ 0) ⊎ (pool.count < pool.max_procs)

module _ (kernel : Kernel) (law : IsLawful kernel) where
  wait-step :
      (rounds : ℕ) (pool : ProcessPool) (world : World) {pool' : ProcessPool} {world' : World}
      → is_full pool ≡ true
      → reap_one kernel pool world ≡ ok (pool', world')
      → wait_loop kernel (suc rounds) pool world ≡ wait_loop kernel rounds pool' world'
  unfolding wait_loop
  wait-step rounds pool world full e = ground (arith, full, e)

  wait-stop :
      (rounds : ℕ) (pool : ProcessPool) (world : World)
      → is_full pool ≡ false
      → wait_loop kernel (suc rounds) pool world ≡ ok (pool, world)
  unfolding wait_loop
  wait-stop rounds pool world room = ground (arith, room)

  drain-step :
      (rounds : ℕ) (pool : ProcessPool) (world : World) {pool' : ProcessPool} {world' : World}
      → 0 < pool.count
      → reap_one kernel pool world ≡ ok (pool', world')
      → drain_loop kernel (suc rounds) pool world ≡ drain_loop kernel rounds pool' world'
  unfolding drain_loop
  drain-step rounds pool world some_left e = ground (arith, e)

  pub wait_loop-Consistent :
      (rounds : ℕ) (pool : ProcessPool) (world : World) (children : List ℕ)
      → length children ≤ rounds
      → Consistent pool world children
      → (pool' : ProcessPool) × (world' : World) × (children' : List ℕ) × (wait_loop kernel rounds
            pool world
          ≡ ok (pool', world'))
        × Consistent pool' world' children'
        × HasRoom pool'
        × Untouched pool pool' world world'
  unfolding wait_loop
  wait_loop-Consistent zero pool world [] l h = (
    pool,
    world,
    [],
    ground (arith, h.represents.counted),
    h,
    ground (arith, h.represents.counted),
    Untouched-refl pool world,
  )
  wait_loop-Consistent zero pool world (c ∷ cs) l h = absurd (omega arith)
  wait_loop-Consistent (suc rounds) pool world [] l h = (
    pool,
    world,
    [],
    ground (arith, h.represents.counted),
    h,
    ground (arith, h.represents.counted),
    Untouched-refl pool world,
  )
  wait_loop-Consistent (suc rounds) pool world (c ∷ cs) l h = elim (Bool-cases (is_full pool)) [
    | inr room ↦ (
      pool,
      world,
      c ∷ cs,
      wait-stop rounds pool world room,
      h,
      ground arith,
      Untouched-refl pool world,
    )
    | inl full ↦
        let (pool₁, world₁, cs₁, e₁, h₁, len, u₁) =
          reap_one-Consistent kernel pool world c cs law h in
        let (pool₂, world₂, cs₂, e₂, h₂, r₂, u₂) =
          wait_loop-Consistent rounds pool₁ world₁ cs₁ (omega (arith, len)) h₁ in
        (
          pool₂,
          world₂,
          cs₂,
          wait-step rounds pool world full e₁ ∙ e₂,
          h₂,
          r₂,
          Untouched-trans u₁ u₂,
        )
  ]

  pub drain_loop-Consistent :
      (rounds : ℕ) (pool : ProcessPool) (world : World) (children : List ℕ)
      → length children ≤ rounds
      → Consistent pool world children
      → (pool' : ProcessPool) × (world' : World) × (drain_loop kernel rounds pool world
          ≡ ok (pool', world'))
        × Consistent pool' world' []
        × Untouched pool pool' world world'
  unfolding drain_loop
  drain_loop-Consistent zero pool world [] l h =
      (pool, world, ground (arith, h.represents.counted), h, Untouched-refl pool world)
  drain_loop-Consistent zero pool world (c ∷ cs) l h = absurd (omega arith)
  drain_loop-Consistent (suc rounds) pool world [] l h =
      (pool, world, ground (arith, h.represents.counted), h, Untouched-refl pool world)
  drain_loop-Consistent (suc rounds) pool world (c ∷ cs) l h =
      let (pool₁, world₁, cs₁, e₁, h₁, len, u₁) =
        reap_one-Consistent kernel pool world c cs law h in
      let (pool₂, world₂, e₂, h₂, u₂) =
        drain_loop-Consistent rounds pool₁ world₁ cs₁ (omega (arith, len)) h₁ in
      (
        pool₂,
        world₂,
        drain-step rounds pool world (omega (arith, h.represents.counted)) e₁ ∙ e₂,
        h₂,
        Untouched-trans u₁ u₂,
      )

  adjusted-Consistent :
      (pool : ProcessPool) (world : World) (children : List ℕ) (before between : List Signal)
      → Consistent pool world children
      → Consistent
          (apply_signal_adjustments (deliver before pool) between)
          (record world { adjustments = world.adjustments + 1 })
          children
  adjusted-Consistent pool world children before between h =
      let k = apply_signal_adjustments-Keeps before between h.represents in
      record {
        represents = k.represents;
        status_is = k.status_same ∙ h.status_is;
        halt_is = k.halt_same ∙ h.halt_is;
        accounted = h.accounted;
      }

  -- Waiting always ends, with room for one more child under the limit that the signals have set,
  -- loses track of no child, forks none, and leaves a halt in force. The pool is consistent with the history.
  pub process_pool_wait_if_full-HasRoom :
      (pool : ProcessPool) (world : World) (children : List ℕ)
      → Consistent pool world children
      → (pool' : ProcessPool) × (world' : World) × (children' : List ℕ) × (process_pool_wait_if_full
            kernel pool world
          ≡ ok (pool', world'))
        × Consistent pool' world' children'
        × HasRoom pool'
        × (world'.launched ≡ world.launched)
        × (pool.halt ≡ true → pool'.halt ≡ true)
        × (pool'.max_procs
            ≡ (apply_signal_adjustments
                (deliver (kernel.before world.adjustments) pool)
                (kernel.between world.adjustments)).max_procs)
        × (world'.forks ≡ world.forks)
  unfolding process_pool_wait_if_full
  process_pool_wait_if_full-HasRoom pool world children h =
      let k =
        apply_signal_adjustments-Keeps (kernel.before world.adjustments)
          (kernel.between world.adjustments) h.represents in
      let h₁ =
        adjusted-Consistent pool world children (kernel.before world.adjustments)
          (kernel.between world.adjustments) h in
      let (pool', world', children', e, h', room, u) =
        wait_loop-Consistent _ _ _ children (omega (arith, h₁.represents.counted)) h₁ in
      (
        pool',
        world',
        children',
        e,
        h',
        room,
        u.launched_same,
        (λ halted. u.halt_stays (k.halt_same ∙ halted)),
        u.max_procs_same,
        u.forks_same,
      )

  -- Where the pool is consistent with the history, draining ends with no child in flight, every
  -- child launched reaped once, the worst of their statuses, no launch, and a halt where one of those
  -- reaped has asked for it, so that one in force stays.
  pub process_pool_drain-reaps :
      (pool : ProcessPool) (world : World) (children : List ℕ)
      → Consistent pool world children
      → (pool' : ProcessPool) × (world' : World) × (process_pool_drain kernel pool world
          ≡ ok (pool', world'))
        × (pool'.count ≡ 0)
        × Perm (map (λ c. c.0) world.launched) (map (λ c. c.0) world'.reaped)
        × (pool'.status ≡ worst_status world'.reaped)
        × (pool'.halt ≡ any_halting world'.reaped)
        × (world'.launched ≡ world.launched)
        × (pool.halt ≡ true → pool'.halt ≡ true)
  unfolding process_pool_drain
  process_pool_drain-reaps pool world children h =
      let (pool', world', e, h', u) =
        drain_loop-Consistent pool.count pool world children (omega (arith, h.represents.counted))
          h in
      (
        pool',
        world',
        e,
        h'.represents.counted,
        subst (λ l. Perm (map (λ c. c.0) l) (map (λ c. c.0) world'.reaped)) u.launched_same
            h'.accounted,
        h'.status_is,
        h'.halt_is,
        u.launched_same,
        u.halt_stays,
      )
