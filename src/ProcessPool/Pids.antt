-- ===== src/ProcessPool/Pids.antt =====
-- The pid array as a list: a pool stands for the list of the children in flight.
use native.Mathlib.Numerals.{add-one}
use mathlib.Core.List.{map-append, tail}
use phxargs.Base.{
  false, true, ltb, exit, exit_failure, Yields, Yields-ok, Yields-exit, ℕ, zero, suc, ◌+◌, ◌-◌, ◌/◌,
  ◌≤◌, ◌<◌, ◌≡◌, refl, sym, ap, ◌∙◌, ◌⊎◌, inl, inr, List, [], ◌∷◌, ◌++◌, map, Option, none, some,
  ok, ◌==◌, Bool-cases, replicate, set, take, length, get_elem?, arith, length-append, length-set,
  length-replicate, take-set, take-append,
}
use phxargs.Util.{phxargs_double_capacity, double_capacity_grows, double_capacity_total, size_max}
use phxargs.ProcessPool.{ProcessPool, find_pid, process_pool_submit, running, in_flight}

pub record Represents (pool : ProcessPool) (children : List ℕ) : Type 0 where
  pub allocated : length pool.pids ≡ pool.capacity
  pub fits : pool.count ≤ pool.capacity
  pub counted : pool.count ≡ length children
  pub contents : take pool.count pool.pids ≡ map some children

running-map : (children : List ℕ) → running (map some children) ≡ children
running-map [] = refl
running-map (p ∷ children) = ap (◌∷◌ p) (running-map children)

pub in_flight-Represents :
    {pool : ProcessPool} {children : List ℕ} → Represents pool children → in_flight pool ≡ children
in_flight-Represents {pool} {children} r = ap running r.contents ∙ running-map children

-- All but the pids, their number and the array's size is the same.
pub record Kept (pool pool' : ProcessPool) : Type 0 where
  pub max_procs_kept : pool'.max_procs ≡ pool.max_procs
  pub child_max_kept : pool'.child_max ≡ pool.child_max
  pub status_kept : pool'.status ≡ pool.status
  pub halt_kept : pool'.halt ≡ pool.halt

write :
    (cells : List (Option ℕ)) (n : ℕ) (children : List ℕ) (pid : ℕ)
    → n < length cells
    → take n cells ≡ map some children
    → take (n + 1) (set cells n (some pid)) ≡ map some (children ++ pid ∷ [])
write cells n children pid h e = rw add-one (
    take-set cells n (some pid) h
    ∙ ap (λ t. t ++ some pid ∷ []) e
    ∙ sym (map-append some children (pid ∷ [])))

submit-space :
    {pool : ProcessPool} {children : List ℕ} (pid : ℕ)
    → Represents pool children
    → (pool.count == pool.capacity) ≡ false
    → (pool' : ProcessPool) × (process_pool_submit pool pid ≡ ok pool')
      × Represents pool' (children ++ pid ∷ [])
      × Kept pool pool'
unfolding process_pool_submit
submit-space {pool} {children} pid r space = (
  record pool { pids = set pool.pids pool.count (some pid); count = pool.count + 1 },
  rw space,
  record {
    allocated = length-set pool.pids pool.count (some pid) ∙ r.allocated;
    fits = ground (arith, r.fits);
    counted = omega (arith, length-append children (pid ∷ []), r.counted);
    contents =
        write pool.pids pool.count children pid (ground (arith, r.fits, r.allocated)) r.contents;
  },
  ground arith,
)

-- A new child joins the ones in flight.
pub process_pool_submit-Represents :
    {pool : ProcessPool} {children : List ℕ} (pid : ℕ)
    → Represents pool children
    → pool.capacity ≤ size_max / 2
    → (pool' : ProcessPool) × (process_pool_submit pool pid ≡ ok pool')
      × Represents pool' (children ++ pid ∷ [])
      × Kept pool pool'
unfolding process_pool_submit
process_pool_submit-Represents {pool} {children} pid r h =
    elim (Bool-cases (pool.count == pool.capacity)) [
      | inr space ↦ submit-space pid r space
      | inl full ↦
          let (capacity, e) = double_capacity_total pool.capacity h in
          let wide = double_capacity_grows pool.capacity capacity e in
          let fill = replicate {A = Option ℕ} (capacity - pool.capacity) none in
          let len = length-append pool.pids fill in
          let filled = length-replicate {A = Option ℕ} (capacity - pool.capacity) none in
          (
            record pool {
              capacity = capacity;
              pids = set (pool.pids ++ fill) pool.count (some pid);
              count = pool.count + 1;
            },
            rw (full, e),
            record {
              allocated = omega (
                arith,
                length-set (pool.pids ++ fill) pool.count (some pid),
                len,
                filled,
                r.allocated,
              );
              fits = omega (arith, r.fits);
              counted = omega (arith, length-append children (pid ∷ []), r.counted);
              contents =
                  write (pool.pids ++ fill) pool.count children pid
                    (omega (arith, r.fits, len, filled, r.allocated))
                    (take-append pool.count pool.pids fill (omega (arith, r.fits, r.allocated))
                      ∙ r.contents);
            },
            ground arith,
          )
    ]

submit-exit :
    (pool : ProcessPool) (pid : ℕ)
    → (pool.count == pool.capacity) ≡ true
    → ltb (size_max / 2) pool.capacity ≡ true
    → process_pool_submit pool pid ≡ exit exit_failure
unfolding process_pool_submit phxargs_double_capacity
submit-exit pool pid full large = ground arith

-- Submitting a pid adds it, or exits with status 1 where 2^63 children or more are in flight.
pub process_pool_submit-Yields :
    {pool : ProcessPool} {children : List ℕ} (pid : ℕ)
    → Represents pool children
    → Yields
        (size_max / 2 < length children)
        (λ pool'. Represents pool' (children ++ pid ∷ []) × Kept pool pool')
        (process_pool_submit pool pid)
process_pool_submit-Yields {pool} {children} pid r =
    elim (Bool-cases (pool.count == pool.capacity)) [
      | inr space ↦ let (pool', e, r', k) = submit-space pid r space in Yields-ok e (r', k)
      | inl full ↦ elim (Bool-cases (ltb (size_max / 2) pool.capacity)) [
        | inr small ↦
            let (pool', e, r', k) = process_pool_submit-Represents pid r (ground arith) in
            Yields-ok e (r', k)
        | inl large ↦
            Yields-exit (submit-exit pool pid full large) (ground (arith, r.counted, r.fits))
      ]
    ]

-- The pid is one of the list.
abbrev pub IsIn : ℕ → List ℕ → Type 0
IsIn pid [] = ⊥
IsIn pid (p ∷ ps) = (pid ≡ p) ⊎ IsIn pid ps

pub find_pid-IsIn :
    (cells : List (Option ℕ)) (n : ℕ) (children : List ℕ) (pid i : ℕ)
    → n ≡ length children
    → take n cells ≡ map some children
    → IsIn pid children
    → (j : ℕ) × (find_pid cells n pid i ≡ ok (some (i + j))) × (get_elem? children j ≡ some pid)
unfolding find_pid
find_pid-IsIn cells n [] pid i l e m = absurd m
find_pid-IsIn cells zero (p ∷ children) pid i l e m = absurd (omega arith)
find_pid-IsIn [] (suc n) (p ∷ children) pid i l e m = cc
find_pid-IsIn (none ∷ cells) (suc n) (p ∷ children) pid i l e m = cc
find_pid-IsIn (some c ∷ cells) (suc n) (p ∷ children) pid i l e m = elim (Bool-cases (p == pid)) [
  | inl same ↦ (0, ground (arith, e), ground arith)
  | inr other ↦
      let later =
        find_pid-IsIn cells n children pid (i + 1) (omega arith) (ap tail e) (ground (arith, m)) in
      (suc later.0, ground (arith, e, later.1), later.2)
]
