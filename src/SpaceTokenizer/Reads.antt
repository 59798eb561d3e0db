-- ===== src/SpaceTokenizer/Reads.antt =====
-- A call of `next_space_token` against the grammar.
use phxargs.Base.{
  ℕ, ◌+◌, ◌≤◌, ◌≡◌, refl, sym, ap, ◌∙◌, ◌⊎◌, inl, inr, Bool, true, false, List, [], ◌∷◌, ◌++◌, ok,
  ◌==◌, if◌then◌else◌, length, length-append, append-nil, arith,
}
use phxargs.SpaceTokenizer.Grammar.{IsQuotable, IsWhite, Word}
use phxargs.SpaceTokenizer.Steps.{Holds, room, in_token-quote}
use phxargs.SpaceTokenizer.Ends.{
  IsReady, Token, Null, end-white, eof-in_token, eof-error, eof-no_token, eof-quote, line-quote,
  eof-escape,
}
use phxargs.SpaceTokenizer.Quotes.{IsQuoting, quoted-IsQuotable}
use phxargs.SpaceTokenizer.Start.{
  start-backslash, in_token-backslash, no_token-IsWhite, start-Word, start-quote,
}
use phxargs.Tokenizer.{err_io, err_unterminated_quote, err_backslash_at_eof}
use phxargs.SpaceTokenizer.Grammar.{
  Word-cases, length-Word, Shape, blank, word, last_word, open_quote_line, open_quote, open_escape,
}
use phxargs.SpaceTokenizer.{
  next_space_token, SpaceTokenizerState, no_token, no_token_escape, in_quoted_token,
  in_token_quoted, in_token_escape, SpaceTokenizer, Next, is_quote, space_loop,
}

module _ {Ctx : Type 0} (on_input_boundary : Ctx → Ctx) (self : SpaceTokenizer) where
  -- What an input of each shape leads to. Where the input ends, a read error comes first.
  abbrev pub Reads : {bytes : List ℕ} → Shape bytes → Bool → Ctx → Next Ctx → Type 0
  Reads (word _ _ value sep rest _ _ _ _ _) ferror ctx n =
      Token on_input_boundary self value rest ferror
        (if sep == b'\n' then on_input_boundary ctx else ctx) n
  Reads (open_quote_line _ _ _ _ _ rest _ _ _ _ _) ferror ctx n =
      Null on_input_boundary self err_unterminated_quote rest ferror ctx n
  Reads (blank _) true ctx n = Null on_input_boundary self err_io [] true ctx n
  Reads (blank _) false ctx n = Null on_input_boundary self self.base.err [] false ctx n
  Reads (last_word _ _ _ _ _ _ _) true ctx n = Null on_input_boundary self err_io [] true ctx n
  Reads (last_word _ _ value _ _ _ _) false ctx n =
      Token on_input_boundary self value [] false (on_input_boundary ctx) n
  Reads (open_quote _ _ _ _ _ _ _ _ _ _) true ctx n =
      Null on_input_boundary self err_io [] true ctx n
  Reads (open_quote _ _ _ _ _ _ _ _ _ _) false ctx n =
      Null on_input_boundary self err_unterminated_quote [] false ctx n
  Reads (open_escape _ _ _ _ _ _) true ctx n = Null on_input_boundary self err_io [] true ctx n
  Reads (open_escape _ _ _ _ _ _) false ctx n =
      Null on_input_boundary self err_backslash_at_eof [] false ctx n

  -- A quote that has been opened behind (a part of) a word, and what follows up to its end.
  opened :
      {raw value body : List ℕ} {t : SpaceTokenizer} (q : ℕ) (rest : List ℕ) (ferror : Bool)
      (ctx : Ctx)
      → Holds self t no_token []
      → Word raw value
      → is_quote q ≡ true
      → IsQuotable q body
      → length raw + length body ≤ room
      → (t' : SpaceTokenizer) × (st : SpaceTokenizerState) × (acc : List ℕ) × IsQuoting st
        × Holds self t' st acc
        × (t'.quote_char ≡ q)
        × (space_loop on_input_boundary (raw ++ q ∷ (body ++ rest)) t ferror false ctx
            ≡ space_loop on_input_boundary rest t' ferror true ctx)
  opened {raw} {value} {body} q rest ferror ctx h w iq b r = elim (Word-cases w) [
    | inl (e, _) ↦
        let (t₁, e₁, h₁, qc₁) =
          start-quote on_input_boundary self q (body ++ rest) ferror false ctx h iq in
        let (t₂, e₂, h₂, qc₂) =
          quoted-IsQuotable on_input_boundary self [] rest ferror ctx (inl refl) h₁ qc₁
            (omega arith) b in
        (t₂, in_quoted_token, body, inl refl, h₂, qc₂, rw e (e₁ ∙ e₂))
    | inr ne ↦
        let (t₀, e₀, h₀) =
          start-Word on_input_boundary self (q ∷ (body ++ rest)) ferror false ctx w ne h
            (omega arith) in
        let (t₁, e₁, h₁, qc₁) =
          in_token-quote on_input_boundary self q (body ++ rest) ferror ctx h₀ iq in
        let (t₂, e₂, h₂, qc₂) =
          quoted-IsQuotable on_input_boundary self value rest ferror ctx (inr refl) h₁ qc₁
            (omega (arith, length-Word w)) b in
        (t₂, in_token_quoted, value ++ body, inr refl, h₂, qc₂, e₀ ∙ e₁ ∙ e₂)
  ]

  escape-opened :
      {raw value : List ℕ} {t : SpaceTokenizer} (ferror : Bool) (ctx : Ctx)
      → Holds self t no_token []
      → Word raw value
      → length raw ≤ room
      → (t' : SpaceTokenizer) × ((t'.state ≡ in_token_escape) ⊎ (t'.state ≡ no_token_escape))
        × (space_loop on_input_boundary (raw ++ b'\\' ∷ []) t ferror false ctx
            ≡ space_loop on_input_boundary [] t' ferror true ctx)
  escape-opened {raw} {value} {t} ferror ctx h w r = elim (Word-cases w) [
    | inl (e, _) ↦
        let (t', s, e') = start-backslash on_input_boundary self t [] ferror false ctx h.state_is in
        (
          t',
          inr s,
          ap (λ x. space_loop on_input_boundary (x ++ b'\\' ∷ []) t ferror false ctx) e ∙ e',
        )
    | inr ne ↦
        let (t₀, e₀, h₀) =
          start-Word on_input_boundary self (b'\\' ∷ []) ferror false ctx w ne h r in
        let (t', s, e') =
          in_token-backslash on_input_boundary self t₀ [] ferror true ctx h₀.state_is in
        (t', inl s, e₀ ∙ e')
  ]

  -- The same at the end of the input.
  quote-opened :
      {value : List ℕ} {t : SpaceTokenizer} (raw body : List ℕ) (q : ℕ) (ferror : Bool) (ctx : Ctx)
      → Holds self t no_token []
      → Word raw value
      → is_quote q ≡ true
      → IsQuotable q body
      → length (raw ++ q ∷ body) ≤ room
      → (t' : SpaceTokenizer) × (st : SpaceTokenizerState) × (acc : List ℕ) × IsQuoting st
        × Holds self t' st acc
        × (t'.quote_char ≡ q)
        × (space_loop on_input_boundary (raw ++ q ∷ body) t ferror false ctx
            ≡ space_loop on_input_boundary [] t' ferror true ctx)
  quote-opened {t} raw body q ferror ctx h w iq b r =
      let (t', st, acc, s, h', qc, e) =
        opened q [] ferror ctx h w iq b (omega (arith, length-append raw (q ∷ body))) in
      (
        t',
        st,
        acc,
        s,
        h',
        qc,
        ap (λ x. space_loop on_input_boundary (raw ++ q ∷ x) t ferror false ctx)
              (sym (append-nil body))
            ∙ e,
      )

  -- White space in front of an input is skipped.
  skip :
      {bytes : List ℕ} (white tail : List ℕ) (ferror : Bool) (ctx : Ctx)
      → IsReady self
      → length bytes ≤ room
      → bytes ≡ white ++ tail
      → IsWhite white
      → (space_loop on_input_boundary bytes self ferror false ctx
          ≡ space_loop on_input_boundary tail self ferror false ctx)
        × (length tail ≤ room)
  skip {bytes} white tail ferror ctx h r e iw = (
    ap (λ x. space_loop on_input_boundary x self ferror false ctx) e
        ∙ no_token-IsWhite on_input_boundary self self tail ferror false ctx h.state_is iw,
    omega (arith, ap length e, length-append white tail),
  )

  -- Every input of a shape is read as the shape says.
  space_loop-Shape :
      (bytes : List ℕ) (ferror : Bool) (ctx : Ctx)
      → IsReady self
      → length bytes ≤ room
      → (shape : Shape bytes)
      → (n : Next Ctx) × (space_loop on_input_boundary bytes self ferror false ctx ≡ ok n)
        × Reads shape ferror ctx n
  space_loop-Shape bytes ferror ctx h r (word white raw value sep rest e iw w ne s) =
      let (e₀, r₀) = skip white (raw ++ sep ∷ rest) ferror ctx h r e iw in
      let len = length-append raw (sep ∷ rest) in
      let (t, e₁, h₁) =
        start-Word on_input_boundary self (sep ∷ rest) ferror false ctx w ne h
          (omega (arith, len)) in
      let (n, e₂, t₂) =
        end-white on_input_boundary self sep rest ferror ctx h₁ (omega (arith, length-Word w, len))
          s in
      (n, e₀ ∙ e₁ ∙ e₂, t₂)
  space_loop-Shape bytes ferror ctx h r (open_quote_line white raw value q body rest e iw w iq b) =
      let (e₀, r₀) = skip white (raw ++ q ∷ (body ++ b'\n' ∷ rest)) ferror ctx h r e iw in
      let len = length-append raw (q ∷ (body ++ b'\n' ∷ rest)) in
      let (t, st, acc, s, h₁, qc, e₁) =
        opened q (b'\n' ∷ rest) ferror ctx h w iq b
          (omega (arith, len, length-append body (b'\n' ∷ rest))) in
      let (n, e₂, t₂) = line-quote on_input_boundary self q rest ferror ctx s h₁ qc iq in
      (n, e₀ ∙ e₁ ∙ e₂, t₂)
  space_loop-Shape bytes true ctx h r (blank iw) =
      let (e₀, r₀) = skip bytes [] true ctx h r (sym (append-nil bytes)) iw in
      let (n, e₂, t₂) = eof-error on_input_boundary self self false ctx in (n, e₀ ∙ e₂, t₂)
  space_loop-Shape bytes false ctx h r (blank iw) =
      let (e₀, r₀) = skip bytes [] false ctx h r (sym (append-nil bytes)) iw in
      let (n, e₂, t₂) = eof-no_token on_input_boundary self ctx h in (n, e₀ ∙ e₂, t₂)
  space_loop-Shape bytes true ctx h r (last_word white raw value e iw w ne) =
      let (e₀, r₀) = skip white raw true ctx h r e iw in
      let (t, e₁, h₁) = start-Word on_input_boundary self [] true false ctx w ne h r₀ in
      let (n, e₂, t₂) = eof-error on_input_boundary self t true ctx in
      (
        n,
        e₀
            ∙ ap (λ x. space_loop on_input_boundary x self true false ctx) (sym (append-nil raw))
            ∙ e₁
            ∙ e₂,
        t₂,
      )
  space_loop-Shape bytes false ctx h r (last_word white raw value e iw w ne) =
      let (e₀, r₀) = skip white raw false ctx h r e iw in
      let (t, e₁, h₁) = start-Word on_input_boundary self [] false false ctx w ne h r₀ in
      let (n, e₂, t₂) = eof-in_token on_input_boundary self ctx h₁ (omega (arith, length-Word w)) in
      (
        n,
        e₀
            ∙ ap (λ x. space_loop on_input_boundary x self false false ctx) (sym (append-nil raw))
            ∙ e₁
            ∙ e₂,
        t₂,
      )
  space_loop-Shape bytes true ctx h r (open_quote white raw value q body e iw w iq b) =
      let (e₀, r₀) = skip white (raw ++ q ∷ body) true ctx h r e iw in
      let (t, st, acc, s, h₁, qc, e₁) = quote-opened raw body q true ctx h w iq b r₀ in
      let (n, e₂, t₂) = eof-error on_input_boundary self t true ctx in (n, e₀ ∙ e₁ ∙ e₂, t₂)
  space_loop-Shape bytes false ctx h r (open_quote white raw value q body e iw w iq b) =
      let (e₀, r₀) = skip white (raw ++ q ∷ body) false ctx h r e iw in
      let (t, st, acc, s, h₁, qc, e₁) = quote-opened raw body q false ctx h w iq b r₀ in
      let (n, e₂, t₂) = eof-quote on_input_boundary self ctx s h₁ in (n, e₀ ∙ e₁ ∙ e₂, t₂)
  space_loop-Shape bytes true ctx h r (open_escape white raw value e iw w) =
      let (e₀, r₀) = skip white (raw ++ b'\\' ∷ []) true ctx h r e iw in
      let (t, s, e₁) = escape-opened true ctx h w (omega (arith, length-append raw (b'\\' ∷ []))) in
      let (n, e₂, t₂) = eof-error on_input_boundary self t true ctx in (n, e₀ ∙ e₁ ∙ e₂, t₂)
  space_loop-Shape bytes false ctx h r (open_escape white raw value e iw w) =
      let (e₀, r₀) = skip white (raw ++ b'\\' ∷ []) false ctx h r e iw in
      let (t, s, e₁) =
        escape-opened false ctx h w (omega (arith, length-append raw (b'\\' ∷ []))) in
      let (n, e₂, t₂) = eof-escape on_input_boundary self t ctx s in (n, e₀ ∙ e₁ ∙ e₂, t₂)

  -- The tokenizer reads every input as the grammar says: a word gives its value, cut at a NUL (or
  -- NULL, if that is the marker), and counts a line if a newline or the end of the input ends it;
  -- an unfinished quote or escape gives its error, at the place where it shows; white space alone
  -- gives NULL; and a read error at the end comes before all of these.
  pub next_space_token-Shape :
      (bytes : List ℕ) (ferror : Bool) (ctx : Ctx)
      → IsReady self
      → length bytes ≤ room
      → (shape : Shape bytes)
      → (n : Next Ctx) × (next_space_token on_input_boundary self
            (record { bytes = bytes; error = ferror })
            ctx
          ≡ ok n)
        × Reads shape ferror ctx n
  unfolding next_space_token
  next_space_token-Shape bytes ferror ctx h r shape = space_loop-Shape bytes ferror ctx h r shape
