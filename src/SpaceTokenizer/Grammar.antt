-- ===== src/SpaceTokenizer/Grammar.antt =====
-- The input language of the default mode, with no mention of the state machine: a word is made of
-- plain characters, backslash escapes and quoted parts, and words are set apart by white space.
use phxargs.Base.{
  ℕ, Bool, true, false, ◌||◌, List, [], ◌∷◌, ◌++◌, ◌≡◌, refl, ◌≢◌, ◌==◌, length, length-append,
  arith, inl, inr, ◌⊎◌, ◌≤◌,
}
use phxargs.SpaceTokenizer.{is_quote, is_blank}

abbrev pub is_white : ℕ → Bool
is_white ch = is_blank ch || ch == b'\n'

abbrev pub is_special : ℕ → Bool
is_special ch = is_white ch || (is_quote ch || ch == b'\\')

-- Characters that stand for themselves between the quotes `q`.
pub data IsQuotable (q : ℕ) : List ℕ → Type 0 where
  nil : IsQuotable q []
  cons :
      {c : ℕ} {cs : List ℕ}
      → (c == q) ≡ false
      → (c == b'\n') ≡ false
      → IsQuotable q cs
      → IsQuotable q (c ∷ cs)

pub data IsWhite : List ℕ → Type 0 where
  nil : IsWhite []
  cons : {c : ℕ} {cs : List ℕ} → is_white c ≡ true → IsWhite cs → IsWhite (c ∷ cs)

-- `Word raw value`: the characters `raw`, read as (a part of) a word, stand for `value`.
pub data Word : List ℕ → List ℕ → Type 0 where
  nil : Word [] []
  plain :
      {c : ℕ} {raw value : List ℕ}
      → is_special c ≡ false
      → Word raw value
      → Word (c ∷ raw) (c ∷ value)
  escaped : {raw value : List ℕ} (c : ℕ) → Word raw value → Word (b'\\' ∷ c ∷ raw) (c ∷ value)
  quoted :
      {q : ℕ} {body raw value : List ℕ}
      → is_quote q ≡ true
      → IsQuotable q body
      → Word raw value
      → Word (q ∷ (body ++ q ∷ raw)) (body ++ value)

-- What an input begins with.
pub data Shape (bytes : List ℕ) : Type 0 where
  -- nothing but white space
  blank : IsWhite bytes → Shape bytes
  -- a word that ends at white space
  word :
      (white raw value : List ℕ) (sep : ℕ) (rest : List ℕ)
      → bytes ≡ white ++ (raw ++ sep ∷ rest)
      → IsWhite white
      → Word raw value
      → raw ≢ []
      → is_white sep ≡ true
      → Shape bytes
  -- a word that ends with the input
  last_word :
      (white raw value : List ℕ)
      → bytes ≡ white ++ raw
      → IsWhite white
      → Word raw value
      → raw ≢ []
      → Shape bytes
  -- a quote that the line ends in
  open_quote_line :
      (white raw value : List ℕ) (q : ℕ) (body rest : List ℕ)
      → bytes ≡ white ++ (raw ++ q ∷ (body ++ b'\n' ∷ rest))
      → IsWhite white
      → Word raw value
      → is_quote q ≡ true
      → IsQuotable q body
      → Shape bytes
  -- a quote that the input ends in
  open_quote :
      (white raw value : List ℕ) (q : ℕ) (body : List ℕ)
      → bytes ≡ white ++ (raw ++ q ∷ body)
      → IsWhite white
      → Word raw value
      → is_quote q ≡ true
      → IsQuotable q body
      → Shape bytes
  -- a backslash at the end of the input
  open_escape :
      (white raw value : List ℕ)
      → bytes ≡ white ++ (raw ++ b'\\' ∷ [])
      → IsWhite white
      → Word raw value
      → Shape bytes

pub Word-cases : {raw value : List ℕ} → Word raw value → ((raw ≡ []) × (value ≡ [])) ⊎ (raw ≢ [])
Word-cases nil = inl (refl, refl)
Word-cases (plain p w) = inr (λ e. cc)
Word-cases (escaped c w) = inr (λ e. cc)
Word-cases (quoted iq b w) = inr (λ e. cc)

pub length-Word : {raw value : List ℕ} → Word raw value → length value ≤ length raw
length-Word nil = omega arith
length-Word (plain p w) = omega (arith, length-Word w)
length-Word (escaped c w) = omega (arith, length-Word w)
length-Word (quoted {q} {body} {raw} {value} iq b w) =
    omega (arith, length-Word w, length-append body value, length-append body (q ∷ raw))
