-- ===== src/DelimTokenizer/Steps.antt =====
-- One operation of the delimiter tokenizer, on the bytes read so far.
use phxargs.Base.{ℕ, ◌/◌, ◌≤◌, ◌≡◌, inl, inr, List, [], ◌∷◌, ◌++◌, ok, ◌==◌, length, Bool-cases}
use phxargs.Base.Strings.{until_nul}
use phxargs.Util.{size_max}
use phxargs.Buffer.Refines.{
  buffer_create-Represents, Represents, buffer_put-Represents, c_string-Represents,
  buffer_drop_last-Represents, cell-Represents,
}
use phxargs.Tokenizer.{
  tokenizer_create, tokenizer_add, tokenizer_token, tokenizer_char, tokenizer_drop_last,
}
use phxargs.DelimTokenizer.Items.{trimmed, without_newline-concat}
use phxargs.DelimTokenizer.{
  delim_tokenizer_create, DelimTokenizer, delim_tokenizer_append_to_token,
  delim_tokenizer_end_token, strip_newline,
}

-- The tokenizer has read `acc` of an item.
pub record Holds (origin : DelimTokenizer) (t : DelimTokenizer) (acc : List ℕ) : Type 0 where
  pub start_is : t.token_start ≡ 0
  pub represents : Represents t.base.buf acc
  pub delim_is : t.delim ≡ origin.delim
  pub err_is : t.base.err ≡ origin.base.err

abbrev pub room : ℕ
room = size_max / 2

pub append-Holds :
    {origin t : DelimTokenizer} {acc : List ℕ} (ch : ℕ)
    → Holds origin t acc
    → length acc ≤ room
    → (t' : DelimTokenizer) × (delim_tokenizer_append_to_token t ch ≡ ok t')
      × Holds origin t' (acc ++ ch ∷ [])
unfolding delim_tokenizer_append_to_token tokenizer_add
append-Holds {t} ch h r =
    let (buf, e, rep) = buffer_put-Represents ch h.represents r in
    (
      record t { base = record t.base { buf = buf } },
      rw e,
      record { start_is = h.start_is; represents = rep; delim_is = h.delim_is; err_is = h.err_is },
    )

-- After a token the buffer holds the token and its NUL.
pub end_token-Holds :
    {origin t : DelimTokenizer} {acc : List ℕ}
    → Holds origin t acc
    → length acc ≤ room
    → (t' : DelimTokenizer) × (delim_tokenizer_end_token t ≡ ok (until_nul acc, t'))
      × Holds origin t' (acc ++ 0 ∷ [])
unfolding delim_tokenizer_end_token tokenizer_add tokenizer_token
end_token-Holds {t} {acc} h r =
    let (buf, e, rep) = buffer_put-Represents 0 h.represents r in
    (
      record t { base = record t.base { buf = buf } },
      rw (e, h.start_is, c_string-Represents acc rep),
      record { start_is = h.start_is; represents = rep; delim_is = h.delim_is; err_is = h.err_is },
    )

pub strip_newline-Holds :
    {origin t : DelimTokenizer} (front : List ℕ) (c : ℕ)
    → Holds origin t (front ++ c ∷ [])
    → (t' : DelimTokenizer) × (strip_newline t ≡ ok t')
      × Holds origin t' (trimmed origin.delim (front ++ c ∷ []))
unfolding strip_newline tokenizer_char tokenizer_drop_last
strip_newline-Holds {origin} {t} front c h = elim (Bool-cases (origin.delim == b'\n')) [
  | inl nl ↦ (t, rw (h.delim_is, nl), rw nl h)
  | inr other ↦ elim (Bool-cases (c == b'\n')) [
    | inl strip ↦ (
      record t { base = tokenizer_drop_last t.base },
      rw (h.delim_is, other, cell-Represents front c h.represents, strip),
      rw (other, without_newline-concat front c, strip)
          record {
            start_is = h.start_is;
            represents = buffer_drop_last-Represents front c h.represents;
            delim_is = h.delim_is;
            err_is = h.err_is;
          },
    )
    | inr keep ↦ (
      t,
      rw (h.delim_is, other, cell-Represents front c h.represents, keep),
      rw (other, without_newline-concat front c, keep) h,
    )
  ]
]

pub delim_tokenizer_create-Represents :
    (buffer_size delim : ℕ) → Represents (delim_tokenizer_create buffer_size delim).base.buf []
unfolding delim_tokenizer_create tokenizer_create
delim_tokenizer_create-Represents buffer_size delim = buffer_create-Represents buffer_size
