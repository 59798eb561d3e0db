-- ===== src/AppenderMode/Batches.antt =====
-- The limits of the batches: `-n` and `-s`.
pub mod Moves
use mathlib.Core.Path.{subst}
use phxargs.Base.{
  ℕ, ◌+◌, ◌≤◌, ◌<◌, ◌≡◌, ◌⊎◌, refl, sym, ap, inl, inr, Bool, if◌then◌else◌, true, false, List, [],
  ◌∷◌, ◌++◌, length, length-append, arith, Option, none, some, Bool-cases, ltb,
}
use phxargs.Base.Strings.{Str}
use phxargs.CommandArgs.Refines.{bytes_of, bytes_of-append}
use phxargs.Command.{Command}

-- The length of the command with a batch, in bytes.
abbrev pub size_of : Command → List Str → ℕ
size_of base batch = base.env_length + base.fixed_args.length_bytes + bytes_of batch

-- A batch has no more arguments than `-n` allows; and it makes a command no longer than the limit,
-- unless it is empty, or `-x` is not in force and it is one argument, or `-L` is.
pub record Limited (base : Command) (batch : List Str) : Type 0 where
  pub number : (base.max_args ≡ 0) ⊎ (length batch ≤ base.max_args)
  pub size :
      (size_of base batch ≤ base.max_length)
      ⊎ (batch ≡ [])
      ⊎ (base.terminate_on_too_large_command ≡ false)
        × ((length batch ≡ 1) ⊎ (base.line_mode ≡ true))

-- A batch to which an argument has been added, before the check that follows.
pub record Admitted (base : Command) (batch : List Str) : Type 0 where
  pub number : (base.max_args ≡ 0) ⊎ (length batch ≤ base.max_args)
  pub size :
      (size_of base batch ≤ base.max_length)
      ⊎ (length batch ≡ 1)
      ⊎ (base.line_mode ≡ true)
      ⊎ (base.terminate_on_too_large_command ≡ true) × (0 < base.max_args)

abbrev pub first_of : List Str → Option Str
first_of [] = none
first_of (item ∷ items) = some item

-- A batch has no place for what comes next: `-n` has been reached, the command would be longer than
-- the limit, or the lines of `-L` have been read.
pub data IsFull (base : Command) (batch : List Str) (next : Str) : Type 0 where
  full_number : 0 < base.max_args → length batch ≡ base.max_args → IsFull base batch next
  full_size : base.max_length < size_of base batch + (length next + 1) → IsFull base batch next
  full_lines : base.line_mode ≡ true → IsFull base batch next

abbrev pub FullBefore : Command → List Str → Option Str → Type 0
FullBefore base batch none = Unit {0}
FullBefore base batch (some next) = IsFull base batch next

-- Each of the batches (the latest first) is full before the argument that comes next.
abbrev pub EachFull : Command → List (List Str) → Option Str → Type 0
EachFull base [] next = Unit {0}
EachFull base (batch ∷ batches) next =
    FullBefore base batch next × EachFull base batches (first_of batch)

-- What the test for the limits leaves room for.
pub record Room (base : Command) (batches : List (List Str)) (items : List Str) (token : Str)
    : Type 0 where
  pub number : (base.max_args ≡ 0) ⊎ (length items < base.max_args)
  pub size :
      (size_of base items + (length token + 1) ≤ base.max_length)
      ⊎ (items ≡ [])
      ⊎ (base.line_mode ≡ true)
      ⊎ (base.terminate_on_too_large_command ≡ true) × (0 < base.max_args)
  pub full : EachFull base batches (first_of (items ++ token ∷ []))

-- Each of the batches has an argument.
abbrev pub EachFilled : List (List Str) → Type 0
EachFilled [] = Unit {0}
EachFilled (batch ∷ batches) = (0 < length batch) × EachFilled batches

abbrev pub EachLimited : Command → List (List Str) → Type 0
EachLimited base [] = Unit {0}
EachLimited base (batch ∷ batches) = Limited base batch × EachLimited base batches

-- Batches that are not empty, each full before what comes next, and items, all within the limits.
pub record Sound (base : Command) (batches : List (List Str)) (items : List Str) : Type 0 where
  pub limited : EachLimited base batches
  pub filled : EachFilled batches
  pub full : EachFull base batches (first_of items)
  pub held : Limited base items

-- Between two tokens: where nothing is held, nothing has been launched, or by the lines of `-L`.
pub record Within (base : Command) (batches : List (List Str)) (items : List Str) : Type 0 where
  pub sound : Sound base batches items
  pub resting : (0 < length items) ⊎ (batches ≡ []) ⊎ (base.line_mode ≡ true)

-- After a token has been added to the items.
pub record Growing (base : Command) (batches : List (List Str)) (items : List Str) : Type 0 where
  pub limited : EachLimited base batches
  pub filled : EachFilled batches
  pub full : EachFull base batches (first_of items)
  pub held : Admitted base items
  pub some_held : 0 < length items

-- After what is held has been launched to make room for the token, unless the pool has halted.
pub record Cleared (base : Command) (token : Str) (batches : List (List Str)) (items : List Str)
    : Type 0 where
  pub sound : Sound base batches items
  pub room : (0 < length items) ⊎ EachFull base batches (some token)

-- What has been launched when a run ends: batches within the limits, none of them empty; but where
-- there is no token, a single empty batch, or with `-r` none.
pub record Sent (base : Command) (suppress : Bool) (tokens : List Str) (batches : List (List Str))
    (items : List Str) : Type 0 where
  pub limited : EachLimited base batches
  pub filled :
      (0 < length tokens) × EachFilled batches
      ⊎ (tokens ≡ []) × (batches ≡ (if suppress then [] else [] ∷ []))
  pub full : EachFull base batches (first_of items)
