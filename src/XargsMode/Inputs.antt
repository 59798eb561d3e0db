-- ===== src/XargsMode/Inputs.antt =====
-- The tokens of a whole input, by what one reading of it gives, and a tokenizer that feeds them.
use phxargs.Base.{
  ℕ, suc, zero, ◌≤◌, ◌<◌, ◌≡◌, ◌⊎◌, inl, inr, Bool, false, List, [], ◌∷◌, Option, none, some,
  length, arith,
}
use phxargs.Base.Strings.{Str, NoNul, NoNuls}
use phxargs.DelimTokenizer.Steps.{room}
use phxargs.Command.{Command}
use phxargs.XargsMode.{Toker}
use phxargs.XargsMode.Feeds.{Fetches, Feeds, finished, fed}

-- `reads bytes token rest errored`: from the input `bytes` comes the token, or NULL, perhaps with an
-- error, and the input goes on with `rest`.
abbrev pub Reading : Type 1
Reading = List ℕ → Option Str → List ℕ → Bool → Type 0

-- The tokens up to the first NULL.
pub data Tokens (reads : Reading) : List ℕ → List Str → Bool → Type 0 where
  stops :
      {bytes rest : List ℕ} {errored : Bool}
      → reads bytes none rest errored
      → Tokens reads bytes [] errored
  goes_on :
      {bytes rest : List ℕ} {token : Str} {tokens : List Str} {errored : Bool}
      → reads bytes (some token) rest false
      → length rest < length bytes
      → Tokens reads rest tokens errored
      → Tokens reads bytes (token ∷ tokens) errored

-- What some reading gives.
pub data Read (reads : Reading) (bytes : List ℕ) : Type 0 where
  read_null : (rest : List ℕ) (errored : Bool) → reads bytes none rest errored → Read reads bytes
  read_token :
      (token : Str) (rest : List ℕ)
      → reads bytes (some token) rest false
      → length rest < length bytes
      → Read reads bytes

module _ (reads : Reading) where
  Tokens-within :
      (bound : ℕ) (bytes : List ℕ)
      → ((bytes : List ℕ) → Read reads bytes)
      → length bytes < bound
      → (tokens : List Str) × (errored : Bool) × Tokens reads bytes tokens errored
  Tokens-within zero bytes any h = absurd (omega arith)
  Tokens-within (suc bound) bytes any h = elim (any bytes) [
    | read_null rest errored r ↦ ([], errored, stops r)
    | read_token token rest r shorter ↦
        let (tokens, errored, t) = Tokens-within bound rest any (omega arith) in
        (token ∷ tokens, errored, goes_on r shorter t)
  ]

  -- Where every input has a reading, it has its tokens.
  pub Tokens-any :
      (bytes : List ℕ)
      → ((bytes : List ℕ) → Read reads bytes)
      → (tokens : List Str) × (errored : Bool) × Tokens reads bytes tokens errored
  Tokens-any bytes any = Tokens-within (suc (length bytes)) bytes any (omega arith)

  pub Tokens-NoNuls :
      {bytes : List ℕ} {tokens : List Str} {errored : Bool}
      → Tokens reads bytes tokens errored
      → ((bytes rest : List ℕ) (token : Str) → reads bytes (some token) rest false → NoNul token)
      → NoNuls tokens
  Tokens-NoNuls (stops r) whole = tt
  Tokens-NoNuls (goes_on {bytes} {rest} {token} r _ t) whole =
      (whole bytes rest token r, Tokens-NoNuls t whole)

-- A tokenizer that gives what the reading says, and is ready again after a token.
abbrev pub Serves : Bool → Bool → Reading → (Toker → Type 0) → Type 0
Serves char_is_signed ferror reads IsReady =
    (toker : Toker) (bytes : List ℕ) (token : Option Str) (rest : List ℕ) (errored : Bool)
    → IsReady toker
    → length bytes ≤ room
    → reads bytes token rest errored
    → (cmd : Command)
    → (f : Fetches char_is_signed toker (record { bytes = bytes; error = ferror })
        (record { bytes = rest; error = ferror }) token errored cmd)
      × ((token ≡ none) ⊎ IsReady f.after)

module _ (char_is_signed ferror : Bool) (reads : Reading) (IsReady : Toker → Type 0)
    (serves : Serves char_is_signed ferror reads IsReady) where
  pub Tokens-Feeds :
      {bytes : List ℕ} {tokens : List Str} {errored : Bool}
      → Tokens reads bytes tokens errored
      → (toker : Toker) → IsReady toker
      → length bytes ≤ room
      → Feeds char_is_signed toker (record { bytes = bytes; error = ferror }) tokens errored
  Tokens-Feeds (stops {bytes} {rest} {errored} r) toker ready h =
      finished (λ cmd. (serves toker bytes none rest errored ready h r cmd).0)
  Tokens-Feeds (goes_on {bytes} {rest} {token} r shorter t) toker ready h =
      let next = serves toker bytes (some token) rest false ready h r in
      fed (λ cmd. (next cmd).0) shorter
        (λ cmd.
          Tokens-Feeds t (next cmd).0.after (elim (next cmd).1 [ inl e ↦ absurd (cc) | inr r ↦ r ])
            (omega arith))
