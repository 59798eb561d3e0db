-- ===== src/Base/Results.antt =====
-- What a piece of C code may do: return a value, leave the process by `exit`, fail an `assert`, or
-- read memory that holds no value. `no_fuel` is no behaviour of the code: it marks a bound of the
-- model on the rounds of a loop, and theorems show that it is not met.
use Prim.Native.Nat.{ℕ}
use mathlib.Core.Path.{◌≡◌, refl, sym, subst}
use mathlib.Core.Option.{Option, none, some}

pub data Outcome {ℓ} (A : Type ℓ) : Type ℓ where
  ok : A → Outcome A
  exit : ℕ → Outcome A
  abort : Outcome A
  undefined : Outcome A
  no_fuel : Outcome A

-- Only a value goes on to what follows.
abbrev pub ◌>>=◌ {ℓ₁ ℓ₂} :
    {Value : Type ℓ₁} {After : Type ℓ₂} → Outcome Value → (Value → Outcome After) → Outcome After
no_fuel >>= next = no_fuel
undefined >>= next = undefined
abort >>= next = abort
exit code >>= next = exit code
ok value >>= next = next value

infixl 5 ◌>>=◌
-- A read of memory; `none` is memory without a value.
abbrev pub defined {ℓ} : {A : Type ℓ} → Option A → Outcome A
defined none = undefined
defined (some a) = ok a

abbrev pub exit_success : ℕ
exit_success = 0

abbrev pub exit_failure : ℕ
exit_failure = 1

-- A sequence that gives a value has given one at each step.
pub >>=-eq-ok {ℓ₁ ℓ₂} :
    {Value : Type ℓ₁} {After : Type ℓ₂} (first : Outcome Value) (next : Value → Outcome After)
    {result : After}
    → (first >>= next) ≡ ok result
    → (value : Value) × (first ≡ ok value) × (next value ≡ ok result)
>>=-eq-ok no_fuel next given = cc
>>=-eq-ok undefined next given = cc
>>=-eq-ok abort next given = cc
>>=-eq-ok (exit code) next given = cc
>>=-eq-ok (ok value) next given = (value, refl, given)

-- The code returns what satisfies the predicate, or leaves the process by `exit (EXIT_FAILURE)`, for
-- which there is a reason of the type given. It fails no assert, reads no memory without a value, and meets no
-- bound of the model.
pub data Yields (Reason : Type 0) {Value : Type 0} (P : Value → Type 0)
    : Outcome Value → Type 0 where
  returns : {value : Value} → P value → Yields Reason P (ok value)
  exits : Reason → Yields Reason P (exit exit_failure)

pub >>=-Yields :
    {Reason Value After : Type 0} {P : Value → Type 0} {Q : After → Type 0} {first : Outcome Value}
    (next : Value → Outcome After)
    → Yields Reason P first
    → ((value : Value) → P value → Yields Reason Q (next value))
    → Yields Reason Q (first >>= next)
>>=-Yields next (returns {value} p) goes_on = goes_on value p
>>=-Yields next (exits why) goes_on = exits why

pub Yields-ok :
    {Reason Value : Type 0} {P : Value → Type 0} {m : Outcome Value} {value : Value}
    → m ≡ ok value
    → P value
    → Yields Reason P m
Yields-ok {Reason} {P} e p = subst (Yields Reason P) (sym e) (returns p)

pub Yields-exit :
    {Reason Value : Type 0} {P : Value → Type 0} {m : Outcome Value}
    → m ≡ exit exit_failure
    → Reason
    → Yields Reason P m
Yields-exit {Reason} {P} e why = subst (Yields Reason P) (sym e) (exits why)

pub Yields-weaken :
    {Reason Reason' Value : Type 0} {P Q : Value → Type 0} {m : Outcome Value}
    → Yields Reason P m
    → ((value : Value) → P value → Q value)
    → (Reason → Reason')
    → Yields Reason' Q m
Yields-weaken (returns {value} p) weaker reason = returns (weaker value p)
Yields-weaken (exits why) weaker reason = exits (reason why)

-- What a piece of code yields is what it returns.
pub Yields-same :
    {Reason Value : Type 0} {P : Value → Type 0} {m : Outcome Value}
    → Yields Reason P m
    → Yields Reason (λ value. (m ≡ ok value) × P value) m
Yields-same (returns p) = returns (refl, p)
Yields-same (exits why) = exits why
