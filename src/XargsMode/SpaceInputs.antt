-- ===== src/XargsMode/SpaceInputs.antt =====
-- The tokens of an input of the default tokenizer, from its grammar.
use mathlib.Core.Path.{subst}
use phxargs.Base.{
  ℕ, ◌+◌, ◌<◌, ◌≡◌, refl, sym, ap, ◌∙◌, ◌⊎◌, ◌≢◌, inl, inr, Bool, true, false, List, [], ◌∷◌, ◌++◌,
  Option, none, some, ◌==◌, if◌then◌else◌, length, length-append, arith, Bool-cases, Option-cases,
}
use phxargs.Base.Strings.{Str, until_nul, NoNul, until_nul-NoNul}
use phxargs.Tokenizer.{TokenizerError, err_none}
use phxargs.SpaceTokenizer.{SpaceTokenizer, Next, no_token}
use phxargs.SpaceTokenizer.Marker.{unmarked, unmarked-same}
use phxargs.SpaceTokenizer.Grammar.{
  Shape, blank, word, last_word, open_quote_line, open_quote, open_escape,
}
use phxargs.SpaceTokenizer.Steps.{Holds}
use phxargs.SpaceTokenizer.Ends.{IsReady, Null}
use phxargs.SpaceTokenizer.Reads.{Reads, next_space_token-Shape}
use phxargs.SpaceTokenizer.Total.{shape}
use phxargs.Command.{Command, command_increment_line_count}
use phxargs.XargsMode.{Toker, space, delim, is_error, tokenizer_next_token}
use phxargs.XargsMode.Feeds.{SameButLines}
use phxargs.XargsMode.Inputs.{Reading, Read, read_null, read_token, Serves}

some_left : (raw : List ℕ) → raw ≢ [] → 0 < length raw
some_left [] ne = absurd (ne refl)
some_left (c ∷ raw) ne = omega arith

module _ (marker : Option Str) (ferror : Bool) where
  -- A word gives its value, cut at a NUL, or NULL if that is the marker; at the end of the input,
  -- only where no read error comes first. All else gives NULL.
  abbrev pub token_of : {bytes : List ℕ} → Shape bytes → Option Str
  token_of (word _ _ value _ _ _ _ _ _ _) = unmarked marker (until_nul value)
  token_of (last_word _ _ value _ _ _ _) =
      if ferror then none else unmarked marker (until_nul value)
  token_of (blank _) = none
  token_of (open_quote_line _ _ _ _ _ _ _ _ _ _ _) = none
  token_of (open_quote _ _ _ _ _ _ _ _ _ _) = none
  token_of (open_escape _ _ _ _ _ _) = none

  abbrev pub rest_of : {bytes : List ℕ} → Shape bytes → List ℕ
  rest_of (word _ _ _ _ rest _ _ _ _ _) = rest
  rest_of (open_quote_line _ _ _ _ _ rest _ _ _ _ _) = rest
  rest_of (last_word _ _ _ _ _ _ _) = []
  rest_of (blank _) = []
  rest_of (open_quote _ _ _ _ _ _ _ _ _ _) = []
  rest_of (open_escape _ _ _ _ _ _) = []

  -- A quote or an escape that is left open is an error, and so is a read error at the end.
  abbrev pub fails : {bytes : List ℕ} → Shape bytes → Bool
  fails (word _ _ _ _ _ _ _ _ _ _) = false
  fails (last_word _ _ _ _ _ _ _) = ferror
  fails (blank _) = ferror
  fails (open_quote_line _ _ _ _ _ _ _ _ _ _ _) = true
  fails (open_quote _ _ _ _ _ _ _ _ _ _) = true
  fails (open_escape _ _ _ _ _ _) = true

  -- What an input gives by its shape.
  abbrev pub SpaceReads : Reading
  SpaceReads bytes token rest errored =
      (s : Shape bytes) × (token_of s ≡ token) × (rest_of s ≡ rest) × (fails s ≡ errored)

  no_failure :
      {bytes : List ℕ} {token : Str} (s : Shape bytes)
      → token_of s ≡ some token
      → (fails s ≡ false) × (length (rest_of s) < length bytes)
  no_failure (word white raw value sep rest e _ _ _ _) t = (
    refl,
    omega (
      arith,
      ap length e,
      length-append white (raw ++ sep ∷ rest),
      length-append raw (sep ∷ rest),
    ),
  )
  no_failure (last_word white raw value e _ _ ne) t = elim (Bool-cases ferror) [
    | inl f ↦ absurd (ground (arith, f, t))
    | inr f ↦ (f, omega (arith, ap length e, length-append white raw, some_left raw ne))
  ]
  no_failure (blank _) t = absurd (cc)
  no_failure (open_quote_line _ _ _ _ _ _ _ _ _ _ _) t = absurd (cc)
  no_failure (open_quote _ _ _ _ _ _ _ _ _ _) t = absurd (cc)
  no_failure (open_escape _ _ _ _ _ _) t = absurd (cc)

  -- Every input has a reading.
  pub SpaceReads-any : (bytes : List ℕ) → Read SpaceReads bytes
  SpaceReads-any bytes =
      let s = shape bytes in
      elim (Option-cases (token_of s)) [
        | inl e ↦ read_null (rest_of s) (fails s) (s, e, refl, refl)
        | inr (token, e) ↦
            let (f, shorter) = no_failure s e in
            read_token token (rest_of s) (s, e, refl, f) shorter
      ]

  unmarked-NoNul :
      (value : List ℕ) (token : Str) → unmarked marker (until_nul value) ≡ some token → NoNul token
  unmarked-NoNul value token e =
      subst NoNul (unmarked-same marker (until_nul value) token e) (until_nul-NoNul value)

  pub SpaceReads-NoNul :
      (bytes rest : List ℕ) (token : Str) → SpaceReads bytes (some token) rest false → NoNul token
  SpaceReads-NoNul bytes rest token (word _ _ value _ _ _ _ _ _ _, e, _, _) =
      unmarked-NoNul value token e
  SpaceReads-NoNul bytes rest token (last_word _ _ value _ _ _ _, e, _, f) =
      unmarked-NoNul value token (rw f at e)
  SpaceReads-NoNul bytes rest token (blank _, e, _, _) = absurd (cc)
  SpaceReads-NoNul bytes rest token (open_quote_line _ _ _ _ _ _ _ _ _ _ _, e, _, _) = absurd (cc)
  SpaceReads-NoNul bytes rest token (open_quote _ _ _ _ _ _ _ _ _ _, e, _, _) = absurd (cc)
  SpaceReads-NoNul bytes rest token (open_escape _ _ _ _ _ _, e, _, _) = absurd (cc)

-- Between two tokens, with the marker, and without an error.
pub data SpaceReady (marker : Option Str) : Toker → Type 0 where
  space_ready :
      {t : SpaceTokenizer}
      → IsReady t
      → t.base.err ≡ err_none
      → t.logical_end_of_input_marker ≡ marker
      → SpaceReady marker (space t)

-- What a call of a ready tokenizer gives, in the terms of the reading.
record Gives (t : SpaceTokenizer) (ferror : Bool) (token : Option Str) (rest : List ℕ)
    (errored : Bool) (cmd : Command) (n : Next Command) : Type 0 where
  gives_token : n.token ≡ token
  gives_rest : n.source ≡ record { bytes = rest; error = ferror }
  gives_lines : SameButLines cmd n.ctx
  gives_error : is_error n.self.base.err ≡ errored
  gives_ready : (token ≡ none) ⊎ Holds t n.self no_token []

module _ (marker : Option Str) where
  Null-Gives :
      {t : SpaceTokenizer} {ferror errored : Bool} {err : TokenizerError} {rest : List ℕ}
      {cmd : Command} {n : Next Command}
      → is_error err ≡ errored
      → Null command_increment_line_count t err rest ferror cmd n
      → Gives t ferror none rest errored cmd n
  Null-Gives {cmd} failing (e₁, e₂, e₃, e₄) = record {
    gives_token = e₁;
    gives_rest = e₂;
    gives_lines = (cmd.line_count, e₃);
    gives_error = ap is_error e₄ ∙ failing;
    gives_ready = inl refl;
  }

  Reads-Gives :
      {bytes : List ℕ} {t : SpaceTokenizer} (s : Shape bytes) (ferror : Bool) (cmd : Command)
      (n : Next Command)
      → t.base.err ≡ err_none
      → t.logical_end_of_input_marker ≡ marker
      → Reads command_increment_line_count t s ferror cmd n
      → Gives t ferror
          (token_of marker ferror s)
          (rest_of marker ferror s)
          (fails marker ferror s)
          cmd
          n
  Reads-Gives {t} (word _ _ value sep rest _ _ _ _ _) ferror cmd n clean m (e₁, e₂, e₃, h) =
      record {
        gives_token = e₁ ∙ ap (λ x. unmarked x (until_nul value)) m;
        gives_rest = e₂;
        gives_lines = elim (Bool-cases (sep == b'\n')) [
          | inl line ↦ (cmd.line_count + 1, rw line at e₃)
          | inr same ↦ (cmd.line_count, rw same at e₃)
        ];
        gives_error = ap is_error (h.err_is ∙ clean);
        gives_ready = inr h;
      }
  Reads-Gives {t} (last_word _ _ value _ _ _ _) true cmd n clean m r = Null-Gives refl r
  Reads-Gives {t} (last_word _ _ value _ _ _ _) false cmd n clean m (e₁, e₂, e₃, h) = record {
    gives_token = e₁ ∙ ap (λ x. unmarked x (until_nul value)) m;
    gives_rest = e₂;
    gives_lines = (cmd.line_count + 1, e₃);
    gives_error = ap is_error (h.err_is ∙ clean);
    gives_ready = inr h;
  }
  Reads-Gives {t} (blank _) true cmd n clean m r = Null-Gives refl r
  Reads-Gives {t} (blank _) false cmd n clean m r = Null-Gives (ap is_error clean) r
  Reads-Gives {t} (open_quote_line _ _ _ _ _ rest _ _ _ _ _) ferror cmd n clean m r =
      Null-Gives refl r
  Reads-Gives {t} (open_quote _ _ _ _ _ _ _ _ _ _) true cmd n clean m r = Null-Gives refl r
  Reads-Gives {t} (open_quote _ _ _ _ _ _ _ _ _ _) false cmd n clean m r = Null-Gives refl r
  Reads-Gives {t} (open_escape _ _ _ _ _ _) true cmd n clean m r = Null-Gives refl r
  Reads-Gives {t} (open_escape _ _ _ _ _ _) false cmd n clean m r = Null-Gives refl r

  again :
      {t : SpaceTokenizer} (t' : SpaceTokenizer)
      → t.base.err ≡ err_none
      → t.logical_end_of_input_marker ≡ marker
      → Holds t t' no_token []
      → SpaceReady marker (space t')
  again t' clean m h =
      space_ready
        (record {
          state_is = h.state_is;
          start_is = h.start_is;
          represents = h.represents;
          marker_is = refl;
          err_is = refl;
        })
        (h.err_is ∙ clean) (h.marker_is ∙ m)

  -- A ready tokenizer gives what the grammar says.
  pub space-Serves :
      (char_is_signed ferror : Bool)
      → Serves char_is_signed ferror (SpaceReads marker ferror) (SpaceReady marker)
  unfolding tokenizer_next_token
  space-Serves char_is_signed ferror (delim _) bytes token rest errored ready h _ cmd =
      elim ready [ ]
  space-Serves char_is_signed ferror (space t) bytes token rest errored (space_ready ready clean m)
        h (s, e, e', e'') cmd =
      let (n, read, r) =
        next_space_token-Shape command_increment_line_count t bytes ferror cmd ready h s in
      let g = Reads-Gives s ferror cmd n clean m r in
      (
        record {
          after = space n.self;
          counted = n.ctx;
          lines_only = g.gives_lines;
          error_is = g.gives_error ∙ e'';
          fetches = rw (read, g.gives_token, g.gives_rest, e, e') refl;
        },
        elim g.gives_ready [
          | inl absent ↦ inl (sym e ∙ absent)
          | inr holds ↦ inr (again n.self clean m holds)
        ],
      )
