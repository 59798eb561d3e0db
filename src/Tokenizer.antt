-- ===== src/Tokenizer.antt =====
-- src/tokenizer.h and src/tokenizer.c: what both tokenizers share, a buffer and an error state.
use phxargs.Base.{ℕ, Option, Outcome, ok, drop, ◌>>=◌}
use phxargs.Base.Strings.{Str, c_string, cell}
use phxargs.Buffer.{Buffer, buffer_create, buffer_put, buffer_drop_last, buffer_reset}

pub data TokenizerError : Type 0 where
  err_none err_io err_backslash_at_eof err_unterminated_quote : TokenizerError

pub record Tokenizer : Type 0 where
  pub buf : Buffer
  pub err : TokenizerError

unfoldable pub tokenizer_create : ℕ → Tokenizer
tokenizer_create buffer_size = record { buf = buffer_create buffer_size; err = err_none }

abbrev pub tokenizer_set_error : Tokenizer → TokenizerError → Tokenizer
tokenizer_set_error t err = record t { err = err }

abbrev pub tokenizer_get_error : Tokenizer → TokenizerError
tokenizer_get_error t = t.err

abbrev pub tokenizer_pos : Tokenizer → ℕ
tokenizer_pos t = t.buf.pos

unfoldable pub tokenizer_add : Tokenizer → ℕ → Outcome Tokenizer
tokenizer_add t ch = do buf ← buffer_put t.buf ch; ok (record t { buf = buf })

unfoldable pub tokenizer_drop_last : Tokenizer → Tokenizer
tokenizer_drop_last t = record t { buf = buffer_drop_last t.buf }

-- The pointer into the buffer, as the string that is read through it.
unfoldable pub tokenizer_token : Tokenizer → ℕ → Option Str
tokenizer_token t pos = c_string (drop pos t.buf.buf)

unfoldable pub tokenizer_reset : Tokenizer → Tokenizer
unfolding buffer_reset
tokenizer_reset t = record t { buf = buffer_reset t.buf }

-- The one character at that place.
unfoldable pub tokenizer_char : Tokenizer → ℕ → Option ℕ
tokenizer_char t pos = cell (drop pos t.buf.buf)
