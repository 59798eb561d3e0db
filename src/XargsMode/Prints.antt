-- ===== src/XargsMode/Prints.antt =====
-- Inputs that are written so that they are read back as the tokens they were written from.
use phxargs.Base.{
  ◌≡◌, ◌≢◌, refl, ap, ◌∙◌, inr, Bool, false, List, [], ◌∷◌, ◌++◌, Option, some, length-append,
  arith,
}
use phxargs.Base.Strings.{Str, NoNul, NoNuls, until_nul}
use phxargs.SpaceTokenizer.Marker.{unmarked, unmarked-free}
use phxargs.SpaceTokenizer.Grammar.{Word, nil, escaped, quoted, IsQuotable, word, blank, IsWhite}
use phxargs.DelimTokenizer.Items.{Avoids, delimited, final}
use phxargs.XargsMode.Inputs.{Tokens, stops, goes_on}
use phxargs.XargsMode.SpaceInputs.{SpaceReads}
use phxargs.XargsMode.DelimInputs.{DelimReads}

-- A backslash in front of each byte; two quotes for the empty token.
abbrev pub backslashed : Str → Str
backslashed [] = []
backslashed (c ∷ cs) = b'\\' ∷ c ∷ backslashed cs

abbrev pub quoted_token : Str → Str
quoted_token [] = b'"' ∷ b'"' ∷ []
quoted_token (c ∷ cs) = backslashed (c ∷ cs)

-- Each token on a line.
abbrev pub lines_of : List Str → Str
lines_of [] = []
lines_of (token ∷ tokens) = quoted_token token ++ b'\n' ∷ lines_of tokens

-- Each token with a NUL behind it, as `find -print0` writes them.
abbrev pub nul_ended : List Str → Str
nul_ended [] = []
nul_ended (token ∷ tokens) = token ++ 0 ∷ nul_ended tokens

pub until_nul-same : (s : Str) → NoNul s → until_nul s ≡ s
until_nul-same [] h = refl
until_nul-same (c ∷ s) h = ground (arith, h.0, until_nul-same s h.1)

backslashed-Word : (token : Str) → Word (backslashed token) token
backslashed-Word [] = nil
backslashed-Word (c ∷ cs) = escaped c (backslashed-Word cs)

quoted_token-Word : (token : Str) → Word (quoted_token token) token
quoted_token-Word [] = quoted {q = b'"'} {body = []} refl IsQuotable.nil nil
quoted_token-Word (c ∷ cs) = backslashed-Word (c ∷ cs)

quoted_token-some : (token : Str) → quoted_token token ≢ []
quoted_token-some [] e = cc
quoted_token-some (c ∷ cs) e = cc

-- No token is the marker of the logical end of the input.
abbrev pub Unmarked : Option Str → List Str → Type 0
Unmarked marker [] = Unit {0}
Unmarked marker (token ∷ tokens) = (marker ≢ some token) × Unmarked marker tokens

pub lines_of-Tokens :
    (marker : Option Str) (tokens : List Str)
    → NoNuls tokens
    → Unmarked marker tokens
    → Tokens (SpaceReads marker false) (lines_of tokens) tokens false
lines_of-Tokens marker [] whole free = stops (blank IsWhite.nil, refl, refl, refl)
lines_of-Tokens marker (token ∷ tokens) whole free =
    goes_on
      (
        word [] (quoted_token token) token b'\n' (lines_of tokens) refl IsWhite.nil
            (quoted_token-Word token) (quoted_token-some token) refl,
        ap (unmarked marker) (until_nul-same token whole.0) ∙ unmarked-free marker token free.0,
        refl,
        refl,
      )
      (omega (arith, length-append (quoted_token token) (b'\n' ∷ lines_of tokens)))
      (lines_of-Tokens marker tokens whole.1 free.1)

NoNul-Avoids : (char_is_signed : Bool) (s : Str) → NoNul s → Avoids char_is_signed 0 s
NoNul-Avoids char_is_signed [] h = Avoids.nil
NoNul-Avoids char_is_signed (c ∷ s) h =
    Avoids.cons (λ d. h.0 d.0) (NoNul-Avoids char_is_signed s h.1)

pub nul_ended-Tokens :
    (char_is_signed : Bool) (tokens : List Str)
    → NoNuls tokens
    → Tokens (DelimReads char_is_signed 0 false) (nul_ended tokens) tokens false
nul_ended-Tokens char_is_signed [] whole = stops (final Avoids.nil, refl, refl, refl)
nul_ended-Tokens char_is_signed (token ∷ tokens) whole =
    goes_on
      (
        delimited token 0 (nul_ended tokens) refl (NoNul-Avoids char_is_signed token whole.0)
            (refl, inr (omega arith)),
        ap some (until_nul-same token whole.0),
        refl,
        refl,
      )
      (omega (arith, length-append token (0 ∷ nul_ended tokens)))
      (nul_ended-Tokens char_is_signed tokens whole.1)
