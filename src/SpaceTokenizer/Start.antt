-- ===== src/SpaceTokenizer/Start.antt =====
-- The loop between tokens: white space, and the first part of a word.
use phxargs.Base.{
  ℕ, ◌≤◌, ◌≡◌, refl, ◌∙◌, inl, Bool, true, false, List, [], ◌∷◌, ◌++◌, length, length-append,
  append_assoc, arith, ◌≢◌,
}
use phxargs.Buffer.Refines.{buffer_put-Represents}
use phxargs.Tokenizer.{tokenizer_add}
use phxargs.SpaceTokenizer.Grammar.{is_special, IsWhite, Word, nil, cons, plain, escaped, quoted}
use phxargs.SpaceTokenizer.Steps.{Holds, room, end_escape-Holds, Reaches}
use phxargs.SpaceTokenizer.Quotes.{quoted-IsQuotable, quoted-close, in_token-Word}
use phxargs.SpaceTokenizer.{
  no_token, no_token_escape, in_token, in_quoted_token, in_token_escape, SpaceTokenizer, is_quote,
  handle_char, handle_in_token_char, handle_no_token_char, space_loop, space_tokenizer_start_token,
  space_tokenizer_start_quoted_token, space_tokenizer_start_in_token_escape,
  space_tokenizer_start_no_token_escape,
}

module _ {Ctx : Type 0} (on_input_boundary : Ctx → Ctx) (origin : SpaceTokenizer) where
  -- White space between tokens changes nothing.
  pub no_token-IsWhite :
      {white : List ℕ} (t : SpaceTokenizer) (rest : List ℕ) (ferror line : Bool) (ctx : Ctx)
      → t.state ≡ no_token
      → IsWhite white
      → space_loop on_input_boundary (white ++ rest) t ferror line ctx
        ≡ space_loop on_input_boundary rest t ferror line ctx
  unfolding space_loop handle_char handle_no_token_char
  no_token-IsWhite t rest ferror line ctx s nil = refl
  no_token-IsWhite t rest ferror line ctx s (cons {c} {cs} p w) =
      ground (arith, no_token-IsWhite t rest ferror line ctx s w)

  start-plain :
      {t : SpaceTokenizer} (ch : ℕ) (rest : List ℕ) (ferror line : Bool) (ctx : Ctx)
      → Holds origin t no_token []
      → is_special ch ≡ false
      → Reaches on_input_boundary origin t (ch ∷ rest) ferror line ctx rest in_token (ch ∷ [])
  unfolding space_loop handle_char handle_no_token_char space_tokenizer_start_token tokenizer_add
  start-plain {t} ch rest ferror line ctx h p =
      let (buf, e, rep) = buffer_put-Represents ch h.represents (omega arith) in
      (
        record t {
          state = in_token;
          token_start = t.base.buf.pos;
          base = record t.base { buf = buf };
        },
        ground (arith, h.state_is, e, p),
        record {
          state_is = refl;
          start_is = h.represents.position;
          represents = rep;
          marker_is = h.marker_is;
          err_is = h.err_is;
        },
      )

  start-escape :
      {t : SpaceTokenizer} (ch : ℕ) (rest : List ℕ) (ferror line : Bool) (ctx : Ctx)
      → Holds origin t no_token []
      → Reaches on_input_boundary origin t
          (b'\\' ∷ ch ∷ rest)
          ferror
          line
          ctx
          rest
          in_token
          (ch ∷ [])
  unfolding space_loop handle_char handle_no_token_char space_tokenizer_start_no_token_escape
  start-escape {t} ch rest ferror line ctx h =
      let (t', e, h') =
        end_escape-Holds {origin = origin}
          {t = record t { state = no_token_escape; token_start = t.base.buf.pos }}
          {st = no_token_escape} {acc = []} ch
          (record {
            state_is = refl;
            start_is = h.represents.position;
            represents = h.represents;
            marker_is = h.marker_is;
            err_is = h.err_is;
          })
          (omega arith) in
      (t', ground (arith, h.state_is, e), h')

  -- A backslash on its own, between tokens and in a token.
  pub start-backslash :
      (t : SpaceTokenizer) (rest : List ℕ) (ferror line : Bool) (ctx : Ctx)
      → t.state ≡ no_token
      → (t' : SpaceTokenizer) × (t'.state ≡ no_token_escape)
        × (space_loop on_input_boundary (b'\\' ∷ rest) t ferror line ctx
            ≡ space_loop on_input_boundary rest t' ferror true ctx)
  unfolding space_loop handle_char handle_no_token_char space_tokenizer_start_no_token_escape
  start-backslash t rest ferror line ctx s =
      (record t { state = no_token_escape; token_start = t.base.buf.pos }, refl, ground (arith, s))

  pub in_token-backslash :
      (t : SpaceTokenizer) (rest : List ℕ) (ferror line : Bool) (ctx : Ctx)
      → t.state ≡ in_token
      → (t' : SpaceTokenizer) × (t'.state ≡ in_token_escape)
        × (space_loop on_input_boundary (b'\\' ∷ rest) t ferror line ctx
            ≡ space_loop on_input_boundary rest t' ferror line ctx)
  unfolding space_loop handle_char handle_in_token_char space_tokenizer_start_in_token_escape
  in_token-backslash t rest ferror line ctx s =
      (record t { state = in_token_escape }, refl, ground (arith, s))

  pub start-quote :
      {t : SpaceTokenizer} (q : ℕ) (rest : List ℕ) (ferror line : Bool) (ctx : Ctx)
      → Holds origin t no_token []
      → is_quote q ≡ true
      → (t' : SpaceTokenizer) × (space_loop on_input_boundary (q ∷ rest) t ferror line ctx
          ≡ space_loop on_input_boundary rest t' ferror true ctx)
        × Holds origin t' in_quoted_token []
        × (t'.quote_char ≡ q)
  unfolding space_loop handle_char handle_no_token_char space_tokenizer_start_quoted_token
  start-quote {t} q rest ferror line ctx h p = (
    record t { state = in_quoted_token; quote_char = q; token_start = t.base.buf.pos },
    ground (arith, h.state_is, p),
    record {
      state_is = refl;
      start_is = h.represents.position;
      represents = h.represents;
      marker_is = h.marker_is;
      err_is = h.err_is;
    },
    refl,
  )

  -- A word, from its first character on.
  pub start-Word :
      {raw value : List ℕ} {t : SpaceTokenizer} (rest : List ℕ) (ferror line : Bool) (ctx : Ctx)
      → Word raw value
      → raw ≢ []
      → Holds origin t no_token []
      → length raw ≤ room
      → Reaches on_input_boundary origin t (raw ++ rest) ferror line ctx rest in_token value
  start-Word rest ferror line ctx nil ne h r = absurd (ne refl)
  start-Word rest ferror line ctx (plain {c} {raw} p w) ne h r =
      let (t', e, h') = start-plain c (raw ++ rest) ferror line ctx h p in
      let (t'', e', h'') =
        in_token-Word on_input_boundary origin (c ∷ []) rest ferror ctx w h' (omega arith) in
      (t'', e ∙ e', h'')
  start-Word rest ferror line ctx (escaped {raw} c w) ne h r =
      let (t', e, h') = start-escape c (raw ++ rest) ferror line ctx h in
      let (t'', e', h'') =
        in_token-Word on_input_boundary origin (c ∷ []) rest ferror ctx w h' (omega arith) in
      (t'', e ∙ e', h'')
  start-Word rest ferror line ctx (quoted {q} {body} {raw} iq b w) ne h r =
      let (t₁, e₁, h₁, qc₁) = start-quote q (body ++ (q ∷ (raw ++ rest))) ferror line ctx h iq in
      let len = length-append body (q ∷ raw) in
      let (t₂, e₂, h₂, qc₂) =
        quoted-IsQuotable on_input_boundary origin [] (q ∷ (raw ++ rest)) ferror ctx (inl refl) h₁
          qc₁ (omega (arith, len)) b in
      let (t₃, e₃, h₃) =
        quoted-close on_input_boundary origin q (raw ++ rest) ferror ctx (inl refl) h₂ qc₂ in
      let (t₄, e₄, h₄) =
        in_token-Word on_input_boundary origin body rest ferror ctx w h₃ (omega (arith, len)) in
      (t₄, rw append_assoc (e₁ ∙ e₂ ∙ e₃ ∙ e₄), h₄)
