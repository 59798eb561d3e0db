-- ===== src/DelimTokenizer.antt =====
-- src/delim_tokenizer.c: items set apart by one character (-d and -0).
pub mod Items
pub mod Steps
pub mod Reads
pub mod SignedChar
use phxargs.Base.{
  ℕ, ◌-◌, Bool, true, false, not, List, [], ◌∷◌, Option, none, some, Outcome, ok, defined, ◌>>=◌,
  ◌==◌, if◌then◌else◌, drop,
}
use phxargs.Base.Int.{pos, eqb_ℤ, char_value}
use phxargs.Base.Strings.{Str}
use phxargs.Stream.{Stream}
use phxargs.Tokenizer.{
  err_io, Tokenizer, tokenizer_create, tokenizer_set_error, tokenizer_pos, tokenizer_add,
  tokenizer_char, tokenizer_token, tokenizer_reset, tokenizer_drop_last,
}

pub record DelimTokenizer : Type 0 where
  pub base : Tokenizer
  pub token_start : ℕ
  pub delim : ℕ

unfoldable pub delim_tokenizer_start_token : DelimTokenizer → DelimTokenizer
delim_tokenizer_start_token t = record t { token_start = tokenizer_pos t.base }

unfoldable pub delim_tokenizer_append_to_token : DelimTokenizer → ℕ → Outcome DelimTokenizer
delim_tokenizer_append_to_token t ch = do
  base ← tokenizer_add t.base ch
  ok (record t { base = base })

unfoldable pub delim_tokenizer_end_token : DelimTokenizer → Outcome (Str × DelimTokenizer)
delim_tokenizer_end_token t = do
  base ← tokenizer_add t.base 0
  token ← defined (tokenizer_token base t.token_start)
  ok (token, record t { base = base })

-- A trailing newline of the last item goes, unless the newline is the delimiter.
unfoldable pub strip_newline : DelimTokenizer → Outcome DelimTokenizer
strip_newline t = if t.delim == b'\n' then ok t else (do
  last ← defined (tokenizer_char t.base (tokenizer_pos t.base - 1))
  ok (if last == b'\n' then record t { base = tokenizer_drop_last t.base } else t))

-- What a call of `next_delim_token` gives: the token or NULL, and what the call has changed.
pub record DelimNext (Ctx : Type 0) : Type 0 where
  pub token : Option Str
  pub self : DelimTokenizer
  pub source : Stream
  pub ctx : Ctx

-- `ch == self->delim`, an `int` from `getc` against a `char`.
unfoldable pub is_delim : Bool → ℕ → ℕ → Bool
is_delim char_is_signed delim ch = eqb_ℤ (pos ch) (char_value char_is_signed delim)

-- What follows the loop.
unfoldable pub delim_eof : DelimTokenizer → Bool → Outcome (Option Str × DelimTokenizer)
unfolding strip_newline delim_tokenizer_end_token
delim_eof self ferror =
    if ferror
    then ok (none, record self { base = tokenizer_set_error self.base err_io })
    else if self.token_start == tokenizer_pos self.base
    then ok (none, self)
    else (do
      stripped ← strip_newline self
      (token, self') ← delim_tokenizer_end_token stripped
      ok (some token, self'))

module _ (char_is_signed : Bool) {Ctx : Type 0} (on_input_boundary : Ctx → Ctx) where
  -- The loop, over what `getc` returns.
  unfoldable pub delim_loop : List ℕ → DelimTokenizer → Bool → Ctx → Outcome (DelimNext Ctx)
  delim_loop [] self ferror ctx = do
    (token, self') ← delim_eof self ferror
    ok (record {
      token = token;
      self = self';
      source = record { bytes = []; error = ferror };
      ctx = ctx;
    })
  delim_loop (ch ∷ bytes) self ferror ctx = elim (not (is_delim char_is_signed self.delim ch)) [
    | true ↦ do self' ← delim_tokenizer_append_to_token self ch; delim_loop bytes self' ferror ctx
    | false ↦ do
      (token, self') ← delim_tokenizer_end_token self
      ok (record {
        token = some token;
        self = self';
        source = record { bytes = bytes; error = ferror };
        ctx = on_input_boundary ctx;
      })
  ]

  unfoldable pub next_delim_token : DelimTokenizer → Stream → Ctx → Outcome (DelimNext Ctx)
  unfolding delim_tokenizer_start_token
  next_delim_token self source ctx =
      let empty = record self { base = tokenizer_reset self.base } in
      delim_loop source.bytes (delim_tokenizer_start_token empty) source.error ctx

unfoldable pub delim_tokenizer_create : ℕ → ℕ → DelimTokenizer
delim_tokenizer_create buffer_size arg_delimiter = record {
  base = tokenizer_create buffer_size;
  token_start = 0;
  delim = arg_delimiter;
}
