-- ===== src/XargsMode/DelimInputs.antt =====
-- The tokens of an input of the delimiter tokenizer, from its items.
use mathlib.Core.Path.{subst}
use phxargs.Base.{
  ℕ, ◌+◌, ◌≤◌, ◌<◌, ◌≡◌, refl, sym, ap, ◌∙◌, ◌⊎◌, inl, inr, Bool, true, false, List, [], ◌∷◌,
  Option, none, some, length, length-append, arith, Option-cases,
}
use phxargs.Base.Strings.{Str, until_nul, NoNul, until_nul-some}
use phxargs.Buffer.Refines.{Represents}
use phxargs.Tokenizer.{TokenizerError, err_none}
use phxargs.DelimTokenizer.{DelimTokenizer, DelimNext}
use phxargs.DelimTokenizer.Items.{Item, delimited, final, first_item, trimmed}
use phxargs.DelimTokenizer.Steps.{room}
use phxargs.DelimTokenizer.Reads.{Reads, Token, Null, Final, next_delim_token-Item}
use phxargs.Command.{Command, command_increment_line_count}
use phxargs.XargsMode.{Toker, space, delim, is_error, tokenizer_next_token}
use phxargs.XargsMode.Feeds.{SameButLines, Fetches}
use phxargs.XargsMode.Inputs.{Reading, Read, read_null, read_token, Serves}

module _ (char_is_signed : Bool) (delimiter : ℕ) where
  -- The token of the last item: without the newline at its end, unless that is the delimiter, and
  -- NULL where there is no byte, or a read error.
  abbrev pub last_token : List ℕ → Bool → Option Str
  last_token bytes true = none
  last_token [] false = none
  last_token (c ∷ cs) false = some (until_nul (trimmed delimiter (c ∷ cs)))

  abbrev pub token_of : {bytes : List ℕ} → Bool → Item char_is_signed delimiter bytes → Option Str
  token_of ferror (delimited item _ _ _ _ _) = some (until_nul item)
  token_of {bytes} ferror (final _) = last_token bytes ferror

  abbrev pub rest_of : {bytes : List ℕ} → Item char_is_signed delimiter bytes → List ℕ
  rest_of (delimited _ _ rest _ _ _) = rest
  rest_of (final _) = []

  abbrev pub fails : {bytes : List ℕ} → Bool → Item char_is_signed delimiter bytes → Bool
  fails ferror (delimited _ _ _ _ _ _) = false
  fails ferror (final _) = ferror

  -- What an input gives by its first item.
  abbrev pub DelimReads : Bool → Reading
  DelimReads ferror bytes token rest errored =
      (i : Item char_is_signed delimiter bytes) × (token_of ferror i ≡ token)
      × (rest_of i ≡ rest)
      × (fails ferror i ≡ errored)

  last_token-some :
      (bytes : List ℕ) (ferror : Bool) (token : Str)
      → last_token bytes ferror ≡ some token
      → (ferror ≡ false) × (0 < length bytes) × NoNul token
  last_token-some bytes true token e = absurd (cc)
  last_token-some [] false token e = absurd (cc)
  last_token-some (c ∷ cs) false token e =
      (refl, omega arith, until_nul-some (trimmed delimiter (c ∷ cs)) e)

  no_failure :
      {bytes : List ℕ} {token : Str} (ferror : Bool) (i : Item char_is_signed delimiter bytes)
      → token_of ferror i ≡ some token
      → (fails ferror i ≡ false) × (length (rest_of i) < length bytes)
  no_failure ferror (delimited item ch rest e _ _) t =
      (refl, omega (arith, ap length e, length-append item (ch ∷ rest)))
  no_failure {bytes} {token} ferror (final _) t =
      let (f, some_left, _) = last_token-some bytes ferror token t in (f, some_left)

  -- Every input has a reading.
  pub DelimReads-any : (ferror : Bool) (bytes : List ℕ) → Read (DelimReads ferror) bytes
  DelimReads-any ferror bytes =
      let i = first_item char_is_signed delimiter bytes in
      elim (Option-cases (token_of ferror i)) [
        | inl e ↦ read_null (rest_of i) (fails ferror i) (i, e, refl, refl)
        | inr (token, e) ↦
            let (f, shorter) = no_failure ferror i e in
            read_token token (rest_of i) (i, e, refl, f) shorter
      ]

  pub DelimReads-NoNul :
      (ferror : Bool) (bytes rest : List ℕ) (token : Str)
      → DelimReads ferror bytes (some token) rest false
      → NoNul token
  DelimReads-NoNul ferror bytes rest token (delimited item _ _ _ _ _, e, _, _) =
      until_nul-some item e
  DelimReads-NoNul ferror bytes rest token (final _, e, _, _) =
      (last_token-some bytes ferror token e).2

-- Fit for a call, with the delimiter, and without an error.
pub data DelimReady (delimiter : ℕ) : Toker → Type 0 where
  delim_ready :
      {t : DelimTokenizer} {held : List ℕ}
      → Represents t.base.buf held
      → t.base.err ≡ err_none
      → t.delim ≡ delimiter
      → DelimReady delimiter (delim t)

-- What a call gives, in the terms of the reading.
record Gives (t : DelimTokenizer) (ferror : Bool) (token : Option Str) (rest : List ℕ)
    (errored : Bool) (cmd : Command) (n : DelimNext Command) : Type 0 where
  gives_token : n.token ≡ token
  gives_rest : n.source ≡ record { bytes = rest; error = ferror }
  gives_lines : SameButLines cmd n.ctx
  gives_error : is_error n.self.base.err ≡ errored
  gives_ready : (token ≡ none) ⊎ DelimReady t.delim (delim n.self)

module _ (char_is_signed : Bool) (t : DelimTokenizer) (clean : t.base.err ≡ err_none) where
  Null-Gives :
      {ferror errored : Bool} {err : TokenizerError} {cmd : Command} {n : DelimNext Command}
      → is_error err ≡ errored
      → Null char_is_signed command_increment_line_count t err ferror cmd n
      → Gives t ferror none [] errored cmd n
  Null-Gives {cmd} failing (e₁, e₂, e₃, e₄) = record {
    gives_token = e₁;
    gives_rest = e₂;
    gives_lines = (cmd.line_count, e₃);
    gives_error = ap is_error e₄ ∙ failing;
    gives_ready = inl refl;
  }

  Token-Gives :
      (item rest : List ℕ) {ferror : Bool} {cmd ctx : Command} {n : DelimNext Command}
      → SameButLines cmd ctx
      → Token char_is_signed command_increment_line_count t item rest ferror ctx n
      → Gives t ferror (some (until_nul item)) rest false cmd n
  Token-Gives item rest (k, same) (e₁, e₂, e₃, d, e, held, r) = record {
    gives_token = e₁;
    gives_rest = e₂;
    gives_lines = (k, e₃ ∙ same);
    gives_error = ap is_error (e ∙ clean);
    gives_ready = inr (delim_ready r (e ∙ clean) d);
  }

  Final-Gives :
      (bytes : List ℕ) (ferror : Bool) (cmd : Command) (n : DelimNext Command)
      → Final char_is_signed command_increment_line_count t bytes ferror cmd n
      → Gives t ferror (last_token char_is_signed t.delim bytes ferror) [] ferror cmd n
  Final-Gives bytes true cmd n r = Null-Gives refl r
  Final-Gives [] false cmd n r = Null-Gives (ap is_error clean) r
  Final-Gives (c ∷ cs) false cmd n r =
      Token-Gives (trimmed t.delim (c ∷ cs)) [] (cmd.line_count, refl) r

  Reads-Gives :
      {bytes : List ℕ} (i : Item char_is_signed t.delim bytes) (ferror : Bool) (cmd : Command)
      (n : DelimNext Command)
      → Reads char_is_signed command_increment_line_count t i ferror cmd n
      → Gives t ferror
          (token_of char_is_signed t.delim ferror i)
          (rest_of char_is_signed t.delim i)
          (fails char_is_signed t.delim ferror i)
          cmd
          n
  Reads-Gives (delimited item _ rest _ _ _) ferror cmd n r =
      Token-Gives item rest (cmd.line_count + 1, refl) r
  Reads-Gives {bytes} (final _) ferror cmd n r = Final-Gives bytes ferror cmd n r

-- What a tokenizer fit for a call with the delimiter `d` gives.
abbrev Served : Bool → Bool → Toker → List ℕ → ℕ → Type 0
Served char_is_signed ferror toker bytes d =
    (token : Option Str) (rest : List ℕ) (errored : Bool)
    → DelimReads char_is_signed d ferror bytes token rest errored
    → (cmd : Command)
    → (f : Fetches char_is_signed toker (record { bytes = bytes; error = ferror })
        (record { bytes = rest; error = ferror }) token errored cmd)
      × ((token ≡ none) ⊎ DelimReady d f.after)

ready-Served :
    (char_is_signed ferror : Bool) (bytes : List ℕ) (t : DelimTokenizer) {held : List ℕ}
    → Represents t.base.buf held
    → t.base.err ≡ err_none
    → length bytes ≤ room
    → Served char_is_signed ferror (delim t) bytes t.delim
unfolding tokenizer_next_token
ready-Served char_is_signed ferror bytes t ready clean h token rest errored (i, e, e', e'') cmd =
    let (n, read, r) =
      next_delim_token-Item char_is_signed command_increment_line_count t bytes ferror cmd ready h
        i in
    let g = Reads-Gives char_is_signed t clean i ferror cmd n r in
    (
      record {
        after = delim n.self;
        counted = n.ctx;
        lines_only = g.gives_lines;
        error_is = g.gives_error ∙ e'';
        fetches = rw (read, g.gives_token, g.gives_rest, e, e') refl;
      },
      elim g.gives_ready [ inl absent ↦ inl (sym e ∙ absent) | inr next ↦ inr next ],
    )

-- A tokenizer fit for a call gives what the items say.
pub delim-Serves :
    (char_is_signed ferror : Bool) (delimiter : ℕ)
    → Serves char_is_signed ferror
        (DelimReads char_is_signed delimiter ferror)
        (DelimReady delimiter)
delim-Serves char_is_signed ferror delimiter (space _) bytes token rest errored ready h _ cmd =
    elim ready [ ]
delim-Serves char_is_signed ferror delimiter (delim t) bytes token rest errored
      (delim_ready ready clean same) h reads cmd =
    subst (Served char_is_signed ferror (delim t) bytes) same
      (ready-Served char_is_signed ferror bytes t ready clean h) token rest errored reads cmd
