-- ===== src/SpaceTokenizer/Steps.antt =====
-- One round of the loop for each kind of character, and the loop over a part of a word.
use phxargs.Base.{ℕ, ◌/◌, ◌≤◌, ◌≡◌, refl, Bool, true, false, List, [], ◌∷◌, ◌++◌, ok, length, arith}
use phxargs.Base.Strings.{until_nul}
use phxargs.Util.{size_max}
use phxargs.Buffer.Refines.{
  Represents, buffer_put-Represents, c_string-Represents, buffer_reset-Represents,
}
use phxargs.Tokenizer.{tokenizer_add, tokenizer_token, tokenizer_reset}
use phxargs.SpaceTokenizer.Grammar.{is_special}
use phxargs.SpaceTokenizer.{
  SpaceTokenizerState, no_token, in_token, in_token_quoted, in_token_escape, SpaceTokenizer,
  is_quote, handle_char, handle_in_token_char, space_loop, space_tokenizer_append_to_token,
  space_tokenizer_end_escape, space_tokenizer_end_token, space_tokenizer_no_token, unless_marker,
  space_tokenizer_start_in_token_escape,
}

-- The tokenizer is in state `st` and has read `acc` of the token. What it was created with, and its
-- error state, are those of `origin`.
pub record Holds (origin : SpaceTokenizer) (t : SpaceTokenizer) (st : SpaceTokenizerState)
    (acc : List ℕ) : Type 0 where
  pub state_is : t.state ≡ st
  pub start_is : t.token_start ≡ 0
  pub represents : Represents t.base.buf acc
  pub marker_is : t.logical_end_of_input_marker ≡ origin.logical_end_of_input_marker
  pub err_is : t.base.err ≡ origin.base.err

abbrev pub room : ℕ
room = size_max / 2

-- Everything but the state is kept.
pub at_state :
    {origin t : SpaceTokenizer} {st : SpaceTokenizerState} {acc : List ℕ}
    (st' : SpaceTokenizerState)
    → Holds origin t st acc
    → Holds origin (record t { state = st' }) st' acc
at_state st' h = record {
  state_is = refl;
  start_is = h.start_is;
  represents = h.represents;
  marker_is = h.marker_is;
  err_is = h.err_is;
}

-- Adding a character in any state.
pub append-Holds :
    {origin t : SpaceTokenizer} {st : SpaceTokenizerState} {acc : List ℕ} (ch : ℕ)
    → Holds origin t st acc
    → length acc ≤ room
    → (t' : SpaceTokenizer) × (space_tokenizer_append_to_token t ch ≡ ok t')
      × Holds origin t' st (acc ++ ch ∷ [])
      × (t'.quote_char ≡ t.quote_char)
unfolding space_tokenizer_append_to_token tokenizer_add
append-Holds {t} ch h r =
    let (buf, e, rep) = buffer_put-Represents ch h.represents r in
    (
      record t { base = record t.base { buf = buf } },
      rw e,
      record {
        state_is = h.state_is;
        start_is = h.start_is;
        represents = rep;
        marker_is = h.marker_is;
        err_is = h.err_is;
      },
      refl,
    )

pub end_escape-Holds :
    {origin t : SpaceTokenizer} {st : SpaceTokenizerState} {acc : List ℕ} (ch : ℕ)
    → Holds origin t st acc
    → length acc ≤ room
    → (t' : SpaceTokenizer) × (space_tokenizer_end_escape t ch ≡ ok t')
      × Holds origin t' in_token (acc ++ ch ∷ [])
unfolding space_tokenizer_end_escape tokenizer_add
end_escape-Holds {t} ch h r =
    let (buf, e, rep) = buffer_put-Represents ch h.represents r in
    (
      record t { state = in_token; base = record t.base { buf = buf } },
      rw e,
      record {
        state_is = refl;
        start_is = h.start_is;
        represents = rep;
        marker_is = h.marker_is;
        err_is = h.err_is;
      },
    )

-- The token that is returned is what has been read, up to a NUL; the tokenizer is ready for more.
pub end_token-Holds :
    {origin t : SpaceTokenizer} {st : SpaceTokenizerState} {acc : List ℕ}
    → Holds origin t st acc
    → length acc ≤ room
    → (t' : SpaceTokenizer) × (space_tokenizer_end_token t
        ≡ ok (unless_marker origin.logical_end_of_input_marker (until_nul acc), t'))
      × Holds origin t' no_token []
unfolding space_tokenizer_end_token tokenizer_add tokenizer_token space_tokenizer_no_token
    tokenizer_reset
end_token-Holds {origin} {t} {acc} h r =
    let (buf, e, rep) = buffer_put-Represents 0 h.represents r in
    (
      space_tokenizer_no_token (record t { base = record t.base { buf = buf } }),
      rw (e, h.start_is, c_string-Represents acc rep, h.marker_is),
      record {
        state_is = refl;
        start_is = refl;
        represents = buffer_reset-Represents rep;
        marker_is = h.marker_is;
        err_is = h.err_is;
      },
    )

module _ {Ctx : Type 0} (on_input_boundary : Ctx → Ctx) (origin : SpaceTokenizer) where
  -- The loop has come from `bytes` to `rest` with no token returned, and has read `acc`.
  abbrev pub Reaches :
      SpaceTokenizer → List ℕ → Bool → Bool → Ctx → List ℕ → SpaceTokenizerState → List ℕ → Type 0
  Reaches t bytes ferror line ctx rest st acc =
      (t' : SpaceTokenizer) × (space_loop on_input_boundary bytes t ferror line ctx
        ≡ space_loop on_input_boundary rest t' ferror true ctx)
      × Holds origin t' st acc

  pub in_token-plain :
      {t : SpaceTokenizer} {acc : List ℕ} (ch : ℕ) (rest : List ℕ) (ferror : Bool) (ctx : Ctx)
      → Holds origin t in_token acc
      → length acc ≤ room
      → is_special ch ≡ false
      → Reaches t (ch ∷ rest) ferror true ctx rest in_token (acc ++ ch ∷ [])
  unfolding space_loop handle_char handle_in_token_char
  in_token-plain {t} ch rest ferror ctx h r p =
      let (t', e, h', _) = append-Holds ch h r in (t', ground (arith, h.state_is, e, p), h')

  pub in_token-quote :
      {t : SpaceTokenizer} {acc : List ℕ} (q : ℕ) (rest : List ℕ) (ferror : Bool) (ctx : Ctx)
      → Holds origin t in_token acc
      → is_quote q ≡ true
      → (t' : SpaceTokenizer) × (space_loop on_input_boundary (q ∷ rest) t ferror true ctx
          ≡ space_loop on_input_boundary rest t' ferror true ctx)
        × Holds origin t' in_token_quoted acc
        × (t'.quote_char ≡ q)
  unfolding space_loop handle_char handle_in_token_char
  in_token-quote {t} q rest ferror ctx h p = (
    record t { state = in_token_quoted; quote_char = q },
    ground (arith, h.state_is, p),
    record {
      state_is = refl;
      start_is = h.start_is;
      represents = h.represents;
      marker_is = h.marker_is;
      err_is = h.err_is;
    },
    refl,
  )

  pub in_token-escape :
      {t : SpaceTokenizer} {acc : List ℕ} (ch : ℕ) (rest : List ℕ) (ferror : Bool) (ctx : Ctx)
      → Holds origin t in_token acc
      → length acc ≤ room
      → Reaches t (b'\\' ∷ ch ∷ rest) ferror true ctx rest in_token (acc ++ ch ∷ [])
  unfolding space_loop handle_char handle_in_token_char space_tokenizer_start_in_token_escape
  in_token-escape {t} ch rest ferror ctx h r =
      let (t', e, h') =
        end_escape-Holds {origin = origin} {t = record t { state = in_token_escape }}
          {st = in_token_escape} ch (at_state in_token_escape h) r in
      (t', ground (arith, h.state_is, e), h')
