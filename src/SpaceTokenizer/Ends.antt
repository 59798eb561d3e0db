-- ===== src/SpaceTokenizer/Ends.antt =====
-- The end of a token: at white space, at the end of the input, and in an unfinished word.
use phxargs.Base.{
  ℕ, ◌≤◌, ◌≡◌, refl, ◌⊎◌, Bool, true, false, List, [], ◌∷◌, none, ok, ◌==◌, if◌then◌else◌, length,
  arith,
}
use phxargs.Base.Strings.{until_nul}
use phxargs.Tokenizer.{TokenizerError}
use phxargs.SpaceTokenizer.Grammar.{is_white}
use phxargs.SpaceTokenizer.Marker.{unmarked, unless_marker_lem}
use phxargs.SpaceTokenizer.Steps.{Holds, room, end_token-Holds}
use phxargs.SpaceTokenizer.Quotes.{IsQuoting}
use phxargs.Tokenizer.{err_io, err_unterminated_quote, err_backslash_at_eof}
use phxargs.SpaceTokenizer.{
  handle_eof, SpaceTokenizerState, no_token, no_token_escape, in_token, in_token_escape,
  SpaceTokenizer, Next, is_quote, handle_char, handle_in_token_char, handle_quoted_char, space_loop,
  unless_marker,
}

-- Between two calls: no token has been begun, and the buffer is empty.
abbrev pub IsReady : SpaceTokenizer → Type 0
IsReady t = Holds t t no_token []

module _ {Ctx : Type 0} (on_input_boundary : Ctx → Ctx) (self : SpaceTokenizer) where
  -- A token is returned, or NULL if it is the marker of the logical end of the input.
  abbrev pub Token : List ℕ → List ℕ → Bool → Ctx → Next Ctx → Type 0
  Token value rest ferror ctx n =
      (n.token ≡ unmarked self.logical_end_of_input_marker (until_nul value))
      × (n.source ≡ record { bytes = rest; error = ferror })
      × (n.ctx ≡ ctx)
      × Holds self n.self no_token []

  -- NULL is returned, with the error state `err`, and no line is counted.
  abbrev pub Null : TokenizerError → List ℕ → Bool → Ctx → Next Ctx → Type 0
  Null err rest ferror ctx n =
      (n.token ≡ none)
      × (n.source ≡ record { bytes = rest; error = ferror })
      × (n.ctx ≡ ctx)
      × (n.self.base.err ≡ err)

  -- The end of a word.
  pub end-white :
      {t : SpaceTokenizer} {value : List ℕ} (sep : ℕ) (rest : List ℕ) (ferror : Bool) (ctx : Ctx)
      → Holds self t in_token value
      → length value ≤ room
      → is_white sep ≡ true
      → (n : Next Ctx) × (space_loop on_input_boundary (sep ∷ rest) t ferror true ctx ≡ ok n)
        × Token value rest ferror (if sep == b'\n' then on_input_boundary ctx else ctx) n
  unfolding space_loop handle_char handle_in_token_char
  end-white {t} {value} sep rest ferror ctx h r w =
      let (t', e, h') = end_token-Holds h r in
      (
        record {
          token = unless_marker self.logical_end_of_input_marker (until_nul value);
          self = t';
          source = record { bytes = rest; error = ferror };
          ctx = if sep == b'\n' then on_input_boundary ctx else ctx;
        },
        ground (arith, h.state_is, e),
        (unless_marker_lem self.logical_end_of_input_marker (until_nul value), refl, refl, h'),
      )

  -- The end of the input, in a word, in an escape and in a quote.
  pub eof-in_token :
      {t : SpaceTokenizer} {value : List ℕ} (ctx : Ctx)
      → Holds self t in_token value
      → length value ≤ room
      → (n : Next Ctx) × (space_loop on_input_boundary [] t false true ctx ≡ ok n)
        × Token value [] false (on_input_boundary ctx) n
  unfolding space_loop handle_eof
  eof-in_token {t} {value} ctx h r =
      let (t', e, h') = end_token-Holds h r in
      (
        record {
          token = unless_marker self.logical_end_of_input_marker (until_nul value);
          self = t';
          source = record { bytes = []; error = false };
          ctx = on_input_boundary ctx;
        },
        ground (arith, h.state_is, e),
        (unless_marker_lem self.logical_end_of_input_marker (until_nul value), refl, refl, h'),
      )

  pub eof-error :
      (t : SpaceTokenizer) (line : Bool) (ctx : Ctx)
      → (n : Next Ctx) × (space_loop on_input_boundary [] t true line ctx ≡ ok n)
        × Null err_io [] true ctx n
  unfolding space_loop handle_eof
  eof-error t line ctx = (
    record {
      token = none;
      self = record t { base = record t.base { err = err_io } };
      source = record { bytes = []; error = true };
      ctx = ctx;
    },
    refl,
    (refl, refl, refl, refl),
  )

  pub eof-no_token :
      {t : SpaceTokenizer} (ctx : Ctx)
      → Holds self t no_token []
      → (n : Next Ctx) × (space_loop on_input_boundary [] t false false ctx ≡ ok n)
        × Null self.base.err [] false ctx n
  unfolding space_loop handle_eof
  eof-no_token {t} ctx h = (
    record { token = none; self = t; source = record { bytes = []; error = false }; ctx = ctx },
    ground (arith, h.state_is),
    (refl, refl, refl, h.err_is),
  )

  pub eof-quote :
      {t : SpaceTokenizer} {st : SpaceTokenizerState} {acc : List ℕ} (ctx : Ctx)
      → IsQuoting st
      → Holds self t st acc
      → (n : Next Ctx) × (space_loop on_input_boundary [] t false true ctx ≡ ok n)
        × Null err_unterminated_quote [] false ctx n
  unfolding space_loop handle_eof
  eof-quote {t} ctx s h = (
    record {
      token = none;
      self = record t { base = record t.base { err = err_unterminated_quote } };
      source = record { bytes = []; error = false };
      ctx = ctx;
    },
    ground (arith, h.state_is),
    (refl, refl, refl, refl),
  )

  pub line-quote :
      {t : SpaceTokenizer} {st : SpaceTokenizerState} {acc : List ℕ} (q : ℕ) (rest : List ℕ)
      (ferror : Bool) (ctx : Ctx)
      → IsQuoting st
      → Holds self t st acc
      → t.quote_char ≡ q
      → is_quote q ≡ true
      → (n : Next Ctx) × (space_loop on_input_boundary (b'\n' ∷ rest) t ferror true ctx ≡ ok n)
        × Null err_unterminated_quote rest ferror ctx n
  unfolding space_loop handle_char handle_quoted_char
  line-quote {t} q rest ferror ctx s h qc iq = (
    record {
      token = none;
      self = record t { base = record t.base { err = err_unterminated_quote } };
      source = record { bytes = rest; error = ferror };
      ctx = ctx;
    },
    ground (arith, h.state_is),
    (refl, refl, refl, refl),
  )

  pub eof-escape :
      (t : SpaceTokenizer) (ctx : Ctx)
      → (t.state ≡ in_token_escape) ⊎ (t.state ≡ no_token_escape)
      → (n : Next Ctx) × (space_loop on_input_boundary [] t false true ctx ≡ ok n)
        × Null err_backslash_at_eof [] false ctx n
  unfolding space_loop handle_eof
  eof-escape t ctx s = (
    record {
      token = none;
      self = record t { base = record t.base { err = err_backslash_at_eof } };
      source = record { bytes = []; error = false };
      ctx = ctx;
    },
    ground (arith, s),
    (refl, refl, refl, refl),
  )
