-- ===== src/XargsMode/Feeds.antt =====
-- What a tokenizer feeds a mode with, whatever the command that counts its lines.
use phxargs.Base.{
  ℕ, ◌≤◌, ◌<◌, ◌≡◌, Bool, List, [], ◌∷◌, Option, none, some, ok, length, arith, ap, ◌∙◌, refl,
  false, true, sym,
}
use phxargs.Base.Strings.{Str}
use phxargs.Stream.{Stream}
use phxargs.Command.{Command}
use phxargs.XargsMode.{
  XargsMode, Toker, tokenizer_next_token, xargs_mode_next_token, is_error, toker_error,
  xargs_mode_tokenizer_errored,
}
use phxargs.XargsMode.Launches.{Tracks}

-- The commands differ in the lines counted only.
abbrev pub SameButLines : Command → Command → Type 0
SameButLines cmd cmd' = (n : ℕ) × (cmd' ≡ record cmd { line_count = n })

-- What a call of the tokenizer gives, for a command whose lines it counts.
pub record Fetches (char_is_signed : Bool) (toker : Toker) (source source' : Stream)
    (token : Option Str) (errored : Bool) (cmd : Command) : Type 0 where
  pub after : Toker
  pub counted : Command
  pub lines_only : SameButLines cmd counted
  pub error_is : is_error (toker_error after) ≡ errored
  pub fetches :
      tokenizer_next_token char_is_signed toker source cmd
      ≡ ok (record { token = token; toker = after; source = source'; cmd = counted })

-- The tokens that the tokenizer reads from the input before it gives NULL, and whether it does so
-- with an error.
pub data Feeds (char_is_signed : Bool) : Toker → Stream → List Str → Bool → Type 0 where
  finished :
      {toker : Toker} {source source' : Stream} {errored : Bool}
      → ((cmd : Command) → Fetches char_is_signed toker source source' none errored cmd)
      → Feeds char_is_signed toker source [] errored
  fed :
      {toker : Toker} {source source' : Stream} {token : Str} {tokens : List Str} {errored : Bool}
      (f : (cmd : Command) → Fetches char_is_signed toker source source' (some token) false cmd)
      → length source'.bytes < length source.bytes
      → ((cmd : Command) → Feeds char_is_signed (f cmd).after source' tokens errored)
      → Feeds char_is_signed toker source (token ∷ tokens) errored

-- Each token takes a byte at least.
pub Feeds-length :
    {char_is_signed : Bool} {toker : Toker} {source : Stream} {tokens : List Str} {errored : Bool}
    (cmd : Command)
    → Feeds char_is_signed toker source tokens errored
    → length tokens ≤ length source.bytes
Feeds-length cmd (finished f) = omega arith
Feeds-length cmd (fed f shorter rest) = omega (arith, Feeds-length cmd (rest cmd))

pub next_token-ok :
    (char_is_signed : Bool) (mode : XargsMode) {toker : Toker} {source source' : Stream}
    {token : Option Str} {errored : Bool}
    → mode.toker ≡ toker
    → mode.arg_source ≡ source
    → (f : Fetches char_is_signed toker source source' token errored mode.cmd)
    → xargs_mode_next_token char_is_signed mode
      ≡ ok (token, record mode { toker = f.after; arg_source = source'; cmd = f.counted })
unfolding xargs_mode_next_token
next_token-ok char_is_signed mode et es f = rw (et, es, f.fetches) refl

-- Fetching a token changes nothing of what has been launched.
pub fetched-Tracks :
    {base : Command} {mode : XargsMode} {launched : List (List Str)} {cmd : Command} (toker : Toker)
    (source : Stream)
    → SameButLines mode.cmd cmd
    → Tracks base mode launched
    → Tracks base (record mode { toker = toker; arg_source = source; cmd = cmd }) launched
fetched-Tracks toker source (n, e) t = record {
  children = t.children;
  consistent = t.consistent;
  same_command = record {
    same_max_args = ap (λ (c : Command). c.max_args) e ∙ t.same_command.same_max_args;
    same_max_length = ap (λ (c : Command). c.max_length) e ∙ t.same_command.same_max_length;
    same_placeholder = ap (λ (c : Command). c.arg_placeholder) e ∙ t.same_command.same_placeholder;
    same_terminate =
        ap (λ (c : Command). c.terminate_on_too_large_command) e ∙ t.same_command.same_terminate;
    same_line_mode = ap (λ (c : Command). c.line_mode) e ∙ t.same_command.same_line_mode;
    same_env_length = ap (λ (c : Command). c.env_length) e ∙ t.same_command.same_env_length;
    same_fixed_args = ap (λ (c : Command). c.fixed_args) e ∙ t.same_command.same_fixed_args;
  };
  history = t.history;
}

-- What follows a token leaves the tokenizer without an error.
pub not_errored :
    (next : XargsMode) {toker : Toker} {errored : Bool}
    → is_error (toker_error toker) ≡ false
    → next.toker ≡ toker
    → xargs_mode_tokenizer_errored next ≡ true
    → errored ≡ true
not_errored next e same h = cc (sym e ∙ ap (λ t. is_error (toker_error t)) (sym same) ∙ h)
