-- ===== src/SpaceTokenizer.antt =====
-- src/space_tokenizer.c: blanks, quotes and backslashes.
pub mod Grammar
pub mod Marker
pub mod Steps
pub mod Quotes
pub mod Start
pub mod Ends
pub mod Reads
pub mod Total
use phxargs.Base.{
  ℕ, Bool, true, false, ◌||◌, List, [], ◌∷◌, Option, none, some, Outcome, ok, defined, ◌>>=◌, ◌==◌,
  if◌then◌else◌,
}
use phxargs.Base.Strings.{Str, str_eq}
use phxargs.Stream.{Stream}
use phxargs.Tokenizer.{
  TokenizerError, err_io, err_backslash_at_eof, err_unterminated_quote, Tokenizer, tokenizer_create,
  tokenizer_set_error, tokenizer_pos, tokenizer_add, tokenizer_token, tokenizer_reset,
}

pub data SpaceTokenizerState : Type 0 where
  no_token no_token_escape in_token in_quoted_token in_token_quoted in_token_escape :
      SpaceTokenizerState

pub record SpaceTokenizer : Type 0 where
  pub base : Tokenizer
  pub state : SpaceTokenizerState
  pub quote_char : ℕ
  pub token_start : ℕ
  pub logical_end_of_input_marker : Option Str

unfoldable pub space_tokenizer_no_token : SpaceTokenizer → SpaceTokenizer
space_tokenizer_no_token t = record t {
  base = tokenizer_reset t.base;
  state = no_token;
  quote_char = 0;
  token_start = 0;
}

unfoldable pub space_tokenizer_start_quoted_token : SpaceTokenizer → ℕ → SpaceTokenizer
space_tokenizer_start_quoted_token t quote_char = record t {
  state = in_quoted_token;
  quote_char = quote_char;
  token_start = tokenizer_pos t.base;
}

unfoldable pub space_tokenizer_start_no_token_escape : SpaceTokenizer → SpaceTokenizer
space_tokenizer_start_no_token_escape t = record t {
  state = no_token_escape;
  token_start = tokenizer_pos t.base;
}

unfoldable pub space_tokenizer_start_in_token_escape : SpaceTokenizer → SpaceTokenizer
space_tokenizer_start_in_token_escape t = record t { state = in_token_escape }

unfoldable pub space_tokenizer_append_to_token : SpaceTokenizer → ℕ → Outcome SpaceTokenizer
space_tokenizer_append_to_token t ch = do
  base ← tokenizer_add t.base ch
  ok (record t { base = base })

unfoldable pub space_tokenizer_end_escape : SpaceTokenizer → ℕ → Outcome SpaceTokenizer
space_tokenizer_end_escape t ch = do
  base ← tokenizer_add t.base ch
  ok (record t { state = in_token; base = base })

unfoldable pub space_tokenizer_start_token : SpaceTokenizer → ℕ → Outcome SpaceTokenizer
space_tokenizer_start_token t ch = do
  base ← tokenizer_add t.base ch
  ok (record t { state = in_token; token_start = tokenizer_pos t.base; base = base })

-- NULL for the token that is the logical end of input.
unfoldable pub unless_marker : Option Str → Str → Option Str
unfolding str_eq
unless_marker none token = some token
unless_marker (some marker) token = if str_eq marker token then none else some token

unfoldable pub space_tokenizer_end_token : SpaceTokenizer → Outcome (Option Str × SpaceTokenizer)
space_tokenizer_end_token t = do
  base ← tokenizer_add t.base 0
  token ← defined (tokenizer_token base t.token_start)
  let after = space_tokenizer_no_token (record t { base = base })
  ok (unless_marker after.logical_end_of_input_marker token, after)

abbrev pub set_error : SpaceTokenizer → TokenizerError → SpaceTokenizer
set_error t err = record t { base = tokenizer_set_error t.base err }

abbrev pub is_quote : ℕ → Bool
is_quote ch = ch == b'\'' || ch == b'"'

abbrev pub is_blank : ℕ → Bool
is_blank ch = ch == b' ' || ch == b'\t'

unfoldable pub handle_no_token_char : SpaceTokenizer → ℕ → Bool → Outcome (SpaceTokenizer × Bool)
unfolding space_tokenizer_start_quoted_token space_tokenizer_start_no_token_escape
handle_no_token_char t ch line_has_token =
    if is_blank ch
    then ok (t, line_has_token)
    else if ch == b'\n'
    then ok (t, line_has_token)
    else if is_quote ch
    then ok (space_tokenizer_start_quoted_token t ch, true)
    else if ch == b'\\'
    then ok (space_tokenizer_start_no_token_escape t, true)
    else (do t' ← space_tokenizer_start_token t ch; ok (t', true))

-- What one character of a token leads to: more to read, or a return of `out`.
pub data Handled (Ctx : Type 0) : Type 0 where
  more : SpaceTokenizer → Bool → Ctx → Handled Ctx
  returns : Option Str → SpaceTokenizer → Ctx → Handled Ctx

-- What a call of `next_space_token` gives: the token or NULL, and what the call has changed.
pub record Next (Ctx : Type 0) : Type 0 where
  pub token : Option Str
  pub self : SpaceTokenizer
  pub source : Stream
  pub ctx : Ctx

-- `line_has_token` stays as it is in a token.
module _ {Ctx : Type 0} (on_input_boundary : Ctx → Ctx) where
  unfoldable pub handle_in_token_char : SpaceTokenizer → ℕ → Bool → Ctx → Outcome (Handled Ctx)
  unfolding space_tokenizer_start_in_token_escape
  handle_in_token_char t ch line_has_token ctx =
      if is_blank ch
      then (do (token, t') ← space_tokenizer_end_token t; ok (returns token t' ctx))
      else if ch == b'\n'
      then (do
        (token, t') ← space_tokenizer_end_token t
        ok (returns token t' (if line_has_token then on_input_boundary ctx else ctx)))
      else if is_quote ch
      then ok (more (record t { state = in_token_quoted; quote_char = ch }) line_has_token ctx)
      else if ch == b'\\'
      then ok (more (space_tokenizer_start_in_token_escape t) line_has_token ctx)
      else (do t' ← space_tokenizer_append_to_token t ch; ok (more t' line_has_token ctx))

  unfoldable pub handle_quoted_char : SpaceTokenizer → ℕ → Bool → Ctx → Outcome (Handled Ctx)
  handle_quoted_char t ch line_has_token ctx =
      if ch == t.quote_char
      then ok (more (record t { state = in_token }) line_has_token ctx)
      else if ch == b'\n'
      then ok (returns none (set_error t err_unterminated_quote) ctx)
      else (do t' ← space_tokenizer_append_to_token t ch; ok (more t' line_has_token ctx))

  -- The `switch` of the loop.
  unfoldable pub handle_char :
      SpaceTokenizerState → SpaceTokenizer → ℕ → Bool → Ctx → Outcome (Handled Ctx)
  handle_char no_token t ch line_has_token ctx = do
    (t', line_has_token') ← handle_no_token_char t ch line_has_token
    ok (more t' line_has_token' ctx)
  handle_char no_token_escape t ch line_has_token ctx = do
    t' ← space_tokenizer_end_escape t ch
    ok (more t' line_has_token ctx)
  handle_char in_token t ch line_has_token ctx = handle_in_token_char t ch line_has_token ctx
  handle_char in_quoted_token t ch line_has_token ctx = handle_quoted_char t ch line_has_token ctx
  handle_char in_token_quoted t ch line_has_token ctx = handle_quoted_char t ch line_has_token ctx
  handle_char in_token_escape t ch line_has_token ctx = do
    t' ← space_tokenizer_end_escape t ch
    ok (more t' line_has_token ctx)

  eof_in :
      SpaceTokenizerState
      → SpaceTokenizer
      → Bool
      → Ctx
      → Outcome (Option Str × SpaceTokenizer × Ctx)
  eof_in in_token_escape t line_has_token ctx = ok (none, set_error t err_backslash_at_eof, ctx)
  eof_in no_token_escape t line_has_token ctx = ok (none, set_error t err_backslash_at_eof, ctx)
  eof_in in_quoted_token t line_has_token ctx = ok (none, set_error t err_unterminated_quote, ctx)
  eof_in in_token_quoted t line_has_token ctx = ok (none, set_error t err_unterminated_quote, ctx)
  eof_in _ t line_has_token ctx =
      if line_has_token
      then (do (token, t') ← space_tokenizer_end_token t; ok (token, t', on_input_boundary ctx))
      else ok (none, t, ctx)

  unfoldable pub handle_eof :
      SpaceTokenizer → Bool → Bool → Ctx → Outcome (Option Str × SpaceTokenizer × Ctx)
  unfolding eof_in
  handle_eof t ferror line_has_token ctx =
      if ferror then ok (none, set_error t err_io, ctx) else eof_in t.state t line_has_token ctx

  -- The loop of `next_space_token`, over what `getc` returns.
  unfoldable pub space_loop : List ℕ → SpaceTokenizer → Bool → Bool → Ctx → Outcome (Next Ctx)
  space_loop [] self ferror line_has_token ctx = do
    (token, self', ctx') ← handle_eof self ferror line_has_token ctx
    ok (record {
      token = token;
      self = self';
      source = record { bytes = []; error = ferror };
      ctx = ctx';
    })
  space_loop (ch ∷ bytes) self ferror line_has_token ctx = do
    handled ← handle_char self.state self ch line_has_token ctx
    elim handled [
      | more self' line_has_token' ctx' ↦ space_loop bytes self' ferror line_has_token' ctx'
      | returns out self' ctx' ↦ ok (record {
        token = out;
        self = self';
        source = record { bytes = bytes; error = ferror };
        ctx = ctx';
      })
    ]

  unfoldable pub next_space_token : SpaceTokenizer → Stream → Ctx → Outcome (Next Ctx)
  next_space_token self source ctx = space_loop source.bytes self source.error false ctx

unfoldable pub space_tokenizer_create : ℕ → Option Str → SpaceTokenizer
space_tokenizer_create buffer_size marker = space_tokenizer_no_token (record {
  base = tokenizer_create buffer_size;
  state = no_token;
  quote_char = 0;
  token_start = 0;
  logical_end_of_input_marker = marker;
})
