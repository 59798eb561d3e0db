-- ===== src/Util.antt =====
-- src/util.c: the wrappers that end the process where a call of the C library fails.
use phxargs.Base.{
  ℕ, ◌*◌, ◌/◌, ◌-◌, ◌^◌, ◌%◌, ◌≤◌, ◌<◌, ◌≡◌, Option, none, some, arith, ltb, ◌==◌, if◌then◌else◌,
  Outcome, ok, exit, exit_failure,
}

-- A `size_t` has 64 bits.
abbrev pub size_max : ℕ
size_max = 2 ^ 64 - 1

-- `malloc`, `calloc` and `realloc` answer with a pointer or NULL.
pub phxargs_malloc {ℓ} : {A : Type ℓ} → Option A → Outcome A
phxargs_malloc none = exit exit_failure
phxargs_malloc (some ptr) = ok ptr

unfoldable pub phxargs_min : ℕ → ℕ → ℕ
phxargs_min a b = if ltb a b then a else b

unfoldable pub phxargs_double_capacity : ℕ → Outcome ℕ
phxargs_double_capacity capacity =
    if capacity == 0
    then ok 1
    else if ltb (size_max / 2) capacity
    then exit exit_failure
    else ok (capacity * 2)

pub double_capacity_grows :
    (capacity new : ℕ)
    → phxargs_double_capacity capacity ≡ ok new
    → (capacity < new) × (new < size_max)
unfolding phxargs_double_capacity
double_capacity_grows capacity new h = ground arith

pub double_capacity_total :
    (capacity : ℕ)
    → capacity ≤ size_max / 2
    → (new : ℕ) × (phxargs_double_capacity capacity ≡ ok new)
unfolding phxargs_double_capacity
double_capacity_total capacity h = (if capacity == 0 then 1 else capacity * 2, ground arith)

-- Arithmetic of `size_t` wraps around.
abbrev pub wrapped : ℕ → ℕ
wrapped n = n % 2 ^ 64
