-- ===== src/DelimTokenizer/Items.antt =====
-- The input language of -d and -0: items that end at the delimiter, or with the input.
use phxargs.Base.{
  ℕ, ◌≡◌, refl, ap, inl, inr, Bool, true, false, List, [], ◌∷◌, ◌++◌, ◌==◌, if◌then◌else◌, arith,
  length, ◌≤◌, ◌<◌, ◌⊎◌, Bool-cases,
}
use phxargs.DelimTokenizer.{is_delim}

-- The byte is the delimiter. Where `char` is signed, a delimiter from 128 on has a negative value, which
-- no byte of the input has.
abbrev pub IsDelim : Bool → ℕ → ℕ → Type 0
IsDelim char_is_signed delim c = (c ≡ delim) × ((char_is_signed ≡ false) ⊎ (delim < 128))

is_delim-IsDelim :
    (char_is_signed : Bool) (delim c : ℕ)
    → is_delim char_is_signed delim c ≡ true
    → IsDelim char_is_signed delim c
unfolding is_delim
is_delim-IsDelim true delim c h = (ground (arith, h), inr (ground (arith, h)))
is_delim-IsDelim false delim c h = (ground (arith, h), inl refl)

pub is_delim_found :
    (char_is_signed : Bool) (delim c : ℕ)
    → IsDelim char_is_signed delim c
    → is_delim char_is_signed delim c ≡ true
unfolding is_delim
is_delim_found true delim c h = ground (arith, h.0, h.1)
is_delim_found false delim c h = ground (arith, h.0)

pub is_delim_missed :
    (char_is_signed : Bool) (delim c : ℕ)
    → ¬ IsDelim char_is_signed delim c
    → is_delim char_is_signed delim c ≡ false
is_delim_missed char_is_signed delim c n = elim (Bool-cases (is_delim char_is_signed delim c)) [
  | inl d ↦ absurd (n (is_delim-IsDelim char_is_signed delim c d))
  | inr missed ↦ missed
]

pub data Avoids (char_is_signed : Bool) (delim : ℕ) : List ℕ → Type 0 where
  nil : Avoids char_is_signed delim []
  cons :
      {c : ℕ} {cs : List ℕ}
      → ¬ IsDelim char_is_signed delim c
      → Avoids char_is_signed delim cs
      → Avoids char_is_signed delim (c ∷ cs)

pub data Item (char_is_signed : Bool) (delim : ℕ) (bytes : List ℕ) : Type 0 where
  delimited :
      (item : List ℕ) (ch : ℕ) (rest : List ℕ)
      → bytes ≡ item ++ ch ∷ rest
      → Avoids char_is_signed delim item
      → IsDelim char_is_signed delim ch
      → Item char_is_signed delim bytes
  final : Avoids char_is_signed delim bytes → Item char_is_signed delim bytes

module _ (char_is_signed : Bool) (delim : ℕ) where
  Item-cons :
      {bytes : List ℕ} (c : ℕ)
      → ¬ IsDelim char_is_signed delim c
      → Item char_is_signed delim bytes
      → Item char_is_signed delim (c ∷ bytes)
  Item-cons c n (delimited item ch rest e a d) =
      delimited (c ∷ item) ch rest (ap (◌∷◌ c) e) (cons n a) d
  Item-cons c n (final a) = final (cons n a)

  -- Every input begins with an item.
  pub first_item : (bytes : List ℕ) → Item char_is_signed delim bytes
  first_item [] = final nil
  first_item (c ∷ cs) = elim (Bool-cases (is_delim char_is_signed delim c)) [
    | inl d ↦ delimited [] c cs refl nil (is_delim-IsDelim char_is_signed delim c d)
    | inr n ↦
        Item-cons c (λ d. absurd (cc (n, is_delim_found char_is_signed delim c d))) (first_item cs)
  ]

-- One newline less at the end, if there is one.
abbrev pub without_newline : List ℕ → List ℕ
without_newline [] = []
without_newline (c ∷ []) = if c == b'\n' then [] else c ∷ []
without_newline (c ∷ d ∷ cs) = c ∷ without_newline (d ∷ cs)

abbrev pub trimmed : ℕ → List ℕ → List ℕ
trimmed delim bytes = if delim == b'\n' then bytes else without_newline bytes

pub without_newline-concat :
    (bytes : List ℕ) (c : ℕ)
    → without_newline (bytes ++ c ∷ []) ≡ (if c == b'\n' then bytes else bytes ++ c ∷ [])
without_newline-concat [] c = refl
without_newline-concat (b ∷ []) c = ground arith
without_newline-concat (b ∷ d ∷ bytes) c = ground (arith, without_newline-concat (d ∷ bytes) c)

length-without_newline : (bytes : List ℕ) → length (without_newline bytes) ≤ length bytes
length-without_newline [] = omega arith
length-without_newline (b ∷ []) = ground arith
length-without_newline (b ∷ d ∷ bytes) = omega (arith, length-without_newline (d ∷ bytes))

pub length-trimmed : (delim : ℕ) (bytes : List ℕ) → length (trimmed delim bytes) ≤ length bytes
length-trimmed delim bytes = ground (arith, length-without_newline bytes)
