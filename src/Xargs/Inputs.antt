-- ===== src/Xargs/Inputs.antt =====
-- The input of the program, as its tokenizer takes it apart.
use phxargs.Base.{
  ℕ, ◌≤◌, ◌≡◌, refl, inl, inr, Bool, true, false, not, ◌||◌, ◌==◌, List, Option, length, Bool-cases,
}
use phxargs.Base.Strings.{Str, NoNuls}
use phxargs.Stream.{Stream}
use phxargs.Tokenizer.{tokenizer_create, tokenizer_reset}
use phxargs.SpaceTokenizer.{space_tokenizer_create, space_tokenizer_no_token}
use phxargs.SpaceTokenizer.Total.{space_tokenizer_create-IsReady}
use phxargs.DelimTokenizer.{delim_tokenizer_create}
use phxargs.DelimTokenizer.Steps.{room, delim_tokenizer_create-Represents}
use phxargs.Options.{Options}
use phxargs.Command.{Command}
use phxargs.XargsMode.{space, delim}
use phxargs.XargsMode.Feeds.{Feeds}
use phxargs.XargsMode.Inputs.{Tokens, Tokens-any, Tokens-NoNuls, Tokens-Feeds}
use phxargs.XargsMode.Unique.{Feeds-unique}
use phxargs.XargsMode.SpaceInputs.{
  SpaceReads, SpaceReads-any, SpaceReads-NoNul, SpaceReady, space_ready, space-Serves,
}
use phxargs.XargsMode.DelimInputs.{
  DelimReads, DelimReads-any, DelimReads-NoNul, DelimReady, delim_ready, delim-Serves,
}
use phxargs.Xargs.{create_tokenizer}

-- Whether the options ask for a delimiter: `-0`, `-d`, or `-I`, which implies one.
abbrev pub by_delimiter : Options → Bool
by_delimiter opts = opts.use_nul_char_as_arg_delimiter || not (opts.arg_delimiter == 0)

-- The tokens of the input, up to the first NULL, and whether an error ends them.
pub data IsInput (char_is_signed : Bool) (opts : Options) (source : Stream) (tokens : List Str)
    (errored : Bool) : Type 0 where
  items :
      by_delimiter opts ≡ true
      → Tokens
          (DelimReads char_is_signed opts.arg_delimiter source.error)
          source.bytes
          tokens
          errored
      → IsInput char_is_signed opts source tokens errored
  words :
      by_delimiter opts ≡ false
      → Tokens
          (SpaceReads opts.logical_end_of_input_marker source.error)
          source.bytes
          tokens
          errored
      → IsInput char_is_signed opts source tokens errored

pub IsInput-NoNuls :
    {char_is_signed errored : Bool} {opts : Options} {source : Stream} {tokens : List Str}
    → IsInput char_is_signed opts source tokens errored
    → NoNuls tokens
IsInput-NoNuls {char_is_signed} {opts} {source} (items _ t) =
    Tokens-NoNuls _ t (DelimReads-NoNul char_is_signed opts.arg_delimiter source.error)
IsInput-NoNuls {opts} {source} (words _ t) =
    Tokens-NoNuls _ t (SpaceReads-NoNul opts.logical_end_of_input_marker source.error)

-- Every input has its tokens.
pub IsInput-any :
    (char_is_signed : Bool) (opts : Options) (source : Stream)
    → (tokens : List Str) × (errored : Bool) × IsInput char_is_signed opts source tokens errored
IsInput-any char_is_signed opts source = elim (Bool-cases (by_delimiter opts)) [
  | inl d ↦
      let (tokens, errored, t) =
        Tokens-any _ source.bytes (DelimReads-any char_is_signed opts.arg_delimiter source.error) in
      (tokens, errored, items d t)
  | inr s ↦
      let (tokens, errored, t) =
        Tokens-any _ source.bytes (SpaceReads-any opts.logical_end_of_input_marker source.error) in
      (tokens, errored, words s t)
]

new-SpaceReady :
    (size : ℕ) (marker : Option Str)
    → SpaceReady marker (space (space_tokenizer_create size marker))
unfolding space_tokenizer_create space_tokenizer_no_token tokenizer_create tokenizer_reset
new-SpaceReady size marker = space_ready (space_tokenizer_create-IsReady size marker) refl refl

new-DelimReady :
    (size delimiter : ℕ) → DelimReady delimiter (delim (delim_tokenizer_create size delimiter))
unfolding delim_tokenizer_create tokenizer_create
new-DelimReady size delimiter =
    delim_ready (delim_tokenizer_create-Represents size delimiter) refl refl

-- The tokenizer that the options ask for feeds a mode with the tokens of the input, which has at
-- most 2^63 - 1 bytes.
pub create_tokenizer-Feeds :
    (char_is_signed : Bool) (opts : Options) (cmd : Command) (source : Stream) (tokens : List Str)
    (errored : Bool)
    → length source.bytes ≤ room
    → IsInput char_is_signed opts source tokens errored
    → Feeds char_is_signed (create_tokenizer opts cmd) source tokens errored
unfolding create_tokenizer
create_tokenizer-Feeds char_is_signed opts cmd source tokens errored h (items d t) = rw d (
    Tokens-Feeds char_is_signed source.error _ (DelimReady opts.arg_delimiter)
      (delim-Serves char_is_signed source.error opts.arg_delimiter) t _
      (new-DelimReady cmd.max_length opts.arg_delimiter) h)
create_tokenizer-Feeds char_is_signed opts cmd source tokens errored h (words s t) = rw s (
    Tokens-Feeds char_is_signed source.error _ (SpaceReady opts.logical_end_of_input_marker)
      (space-Serves opts.logical_end_of_input_marker char_is_signed source.error) t _
      (new-SpaceReady cmd.max_length opts.logical_end_of_input_marker) h)

-- An input of at most 2^63 - 1 bytes has exactly one list of tokens, up to the first NULL, and
-- one way to end, by the grammar and the end marker, or the delimiter, that the options ask for; and the
-- tokenizer that is created for the options feeds a mode with those tokens, and ends that way, whatever command it
-- counts the lines for.
pub create_tokenizer-reads :
    (char_is_signed : Bool) (opts : Options) (cmd : Command) (source : Stream)
    → length source.bytes ≤ room
    → (tokens : List Str) × (errored : Bool) × IsInput char_is_signed opts source tokens errored
      × Feeds char_is_signed (create_tokenizer opts cmd) source tokens errored
      × ((others : List Str) (errored' : Bool)
          → IsInput char_is_signed opts source others errored'
          → (others ≡ tokens) × (errored' ≡ errored))
create_tokenizer-reads char_is_signed opts cmd source h =
    let (tokens, errored, input) = IsInput-any char_is_signed opts source in
    let feeds = create_tokenizer-Feeds char_is_signed opts cmd source tokens errored h input in
    (
      tokens,
      errored,
      input,
      feeds,
      λ others errored' input'.
          Feeds-unique cmd refl refl
            (create_tokenizer-Feeds char_is_signed opts cmd source others errored' h input') feeds,
    )
