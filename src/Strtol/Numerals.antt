-- ===== src/Strtol/Numerals.antt =====
-- Which strings are numerals, with no mention of `strtol`, and what it makes of them.
use mathlib.Core.Path.{subst, ap₂}
use phxargs.Base.{
  ℕ, ◌+◌, ◌*◌, ◌≡◌, refl, sym, ap, ◌∙◌, ◌⊎◌, inl, inr, Bool, true, false, [], ◌∷◌, ◌++◌,
  append_assoc, append-nil, ◌≤◌, arith, Bool-cases, if◌then◌else◌, ◌==◌,
}
use phxargs.Base.Int.{pos}
use phxargs.Base.Strings.{Str}
use phxargs.Strtol.{
  is_space, is_digit, skip_spaces, take_sign, digit_value, long_max, read_digits, in_range,
  has_digit, strtol,
}

-- The digits of a number: each further one is worth a tenth of those in front of it.
pub data Digits : Str → ℕ → Type 0 where
  one : (d : ℕ) → is_digit d ≡ true → Digits (d ∷ []) (digit_value d)
  more :
      {digits digits' : Str} {n n' : ℕ} (d : ℕ)
      → Digits digits n
      → is_digit d ≡ true
      → digits' ≡ digits ++ d ∷ []
      → n' ≡ n * 10 + digit_value d
      → Digits digits' n'

abbrev pub Spaces : Str → Type 0
Spaces [] = Unit {0}
Spaces (c ∷ s) = (is_space c ≡ true) × Spaces s

-- No sign, a plus, or a minus before zero.
abbrev pub IsSign : Str → ℕ → Type 0
IsSign sign n = (sign ≡ []) ⊎ ((sign ≡ b'+' ∷ []) ⊎ (sign ≡ b'-' ∷ []) × (n ≡ 0))

-- The string is a numeral of `n`: spaces, then a sign, then digits.
pub record Numeral (s : Str) (n : ℕ) : Type 0 where
  pub spaces : Str
  pub sign : Str
  pub digits : Str
  pub parts : s ≡ spaces ++ (sign ++ digits)
  pub blank : Spaces spaces
  pub signed : IsSign sign n
  pub spells : Digits digits n

Digits-nonempty : {n : ℕ} {digits : Str} → Digits digits n → digits ≡ [] → ⊥
Digits-nonempty (one d h) e = cc
Digits-nonempty (more {digits = []} d h hd e e') f = cc
Digits-nonempty (more {digits = c ∷ digits} d h hd e e') f = cc

Digits-has_digit : {n : ℕ} {digits : Str} → Digits digits n → has_digit digits ≡ true
unfolding has_digit
Digits-has_digit (one d h) = h
Digits-has_digit (more {digits = []} d h hd e e') = absurd (Digits-nonempty h refl)
Digits-has_digit (more {digits = c ∷ digits} d h hd e e') = ap has_digit e ∙ Digits-has_digit h

read_digits-digit :
    (read c : ℕ) (s : Str)
    → is_digit c ≡ true
    → read_digits read (c ∷ s) ≡ read_digits (read * 10 + digit_value c) s
unfolding read_digits
read_digits-digit read c s h =
    ap (λ b. if b then read_digits (read * 10 + digit_value c) s else (read, c ∷ s)) h

read_digits-other :
    (read c : ℕ) (s : Str) → is_digit c ≡ false → read_digits read (c ∷ s) ≡ (read, c ∷ s)
unfolding read_digits
read_digits-other read c s h =
    ap (λ b. if b then read_digits (read * 10 + digit_value c) s else (read, c ∷ s)) h

read_digits-snoc :
    (read n : ℕ) (digits : Str) (d : ℕ)
    → read_digits read digits ≡ (n, [])
    → is_digit d ≡ true
    → read_digits read (digits ++ d ∷ []) ≡ (n * 10 + digit_value d, [])
unfolding read_digits
read_digits-snoc read n [] d h hd =
    read_digits-digit read d [] hd ∙ ap (λ (r : ℕ × Str). (r.0 * 10 + digit_value d, r.1)) h
read_digits-snoc read n (c ∷ digits) d h hd = elim (Bool-cases (is_digit c)) [
  | inl digit ↦
      read_digits-digit read c (digits ++ d ∷ []) digit
      ∙ read_digits-snoc (read * 10 + digit_value c) n digits d
          (sym (read_digits-digit read c digits digit) ∙ h) hd
  | inr other ↦ absurd (cc (sym (read_digits-other read c digits other) ∙ h))
]

-- Digits are read as the number that they spell.
read_digits-Digits : {n : ℕ} {digits : Str} → Digits digits n → read_digits 0 digits ≡ (n, [])
unfolding read_digits
read_digits-Digits (one d h) = read_digits-digit 0 d [] h ∙ ap (λ n. (n, [])) (omega arith)
read_digits-Digits (more {digits} {n} d h hd e e') =
    ap (read_digits 0) e
    ∙ read_digits-snoc 0 n digits d (read_digits-Digits h) hd
    ∙ ap (λ m. (m, [])) (sym e')

-- What is read to the end is digits, which spell the number, behind those read before.
Digits-read :
    (front s : Str) (read n : ℕ)
    → Digits front read
    → read_digits read s ≡ (n, [])
    → Digits (front ++ s) n
unfolding read_digits
Digits-read front [] read n h e =
    rw (append-nil front) (subst (Digits front) (ap (λ (r : ℕ × Str). r.0) e) h)
Digits-read front (c ∷ s) read n h e = elim (Bool-cases (is_digit c)) [
  | inl digit ↦
      subst (λ t. Digits t n) (append_assoc front (c ∷ []) s)
        (Digits-read (front ++ c ∷ []) s (read * 10 + digit_value c) n (more c h digit refl refl)
          (sym (read_digits-digit read c s digit) ∙ e))
  | inr other ↦ absurd (cc (sym (read_digits-other read c s other) ∙ e))
]

read_digits-starts : (s : Str) (n : ℕ) → has_digit s ≡ true → read_digits 0 s ≡ (n, []) → Digits s n
unfolding has_digit
read_digits-starts [] n h e = cc
read_digits-starts (c ∷ s) n h e =
    Digits-read (c ∷ []) s (digit_value c) n (one c h)
      (ap (λ m. read_digits m s) (omega arith) ∙ sym (read_digits-digit 0 c s h) ∙ e)

skip_spaces-Spaces : (spaces s : Str) → Spaces spaces → skip_spaces (spaces ++ s) ≡ skip_spaces s
unfolding skip_spaces
skip_spaces-Spaces [] s h = refl
skip_spaces-Spaces (c ∷ spaces) s h = rw (h.0) (skip_spaces-Spaces spaces s h.1)

skip_spaces-digit : (s : Str) → has_digit s ≡ true → skip_spaces s ≡ s
unfolding skip_spaces has_digit
skip_spaces-digit [] h = refl
skip_spaces-digit (c ∷ s) h = ground arith

take_sign-digit : (s : Str) → has_digit s ≡ true → take_sign s ≡ (false, s)
unfolding take_sign has_digit
take_sign-digit [] h = refl
take_sign-digit (c ∷ s) h = ground arith

-- What is converted, from the sign and the digits.
strtol-from :
    (arg u : Str) (negative : Bool) (read : ℕ × Str)
    → take_sign (skip_spaces arg) ≡ (negative, u)
    → has_digit u ≡ true
    → read_digits 0 u ≡ read
    → strtol arg ≡ in_range negative read
unfolding strtol
strtol-from arg u negative read e h r = rw (e, h, r) refl

strtol-none :
    (arg u : Str) (negative : Bool)
    → take_sign (skip_spaces arg) ≡ (negative, u)
    → has_digit u ≡ false
    → (strtol arg).converts ≡ false
unfolding strtol
strtol-none arg u negative e h = rw (e, h) refl

-- A numeral is converted to its number, as far as that is in range.
pub strtol-Numeral : {s : Str} {n : ℕ} → Numeral s n → strtol s ≡ in_range false (n, [])
unfolding skip_spaces take_sign in_range
strtol-Numeral {s} {n} m =
    let digit = Digits-has_digit m.spells in
    let reads = read_digits-Digits m.spells in
    let behind : skip_spaces s ≡ skip_spaces (m.sign ++ m.digits) =
      ap skip_spaces m.parts ∙ skip_spaces-Spaces m.spaces (m.sign ++ m.digits) m.blank in
    let signed = λ (sign : Str).
      λ (e : m.sign ≡ sign). ap take_sign (behind ∙ ap (λ t. skip_spaces (t ++ m.digits)) e) in
    elim m.signed [
      | inl e ↦
          strtol-from s m.digits false (n, [])
            (signed [] e
              ∙ ap take_sign (skip_spaces-digit m.digits digit)
              ∙ take_sign-digit m.digits digit)
            digit reads
      | inr (inl e) ↦ strtol-from s m.digits false (n, []) (signed (b'+' ∷ []) e) digit reads
      | inr (inr (e, z)) ↦
          strtol-from s m.digits true (n, []) (signed (b'-' ∷ []) e) digit reads
          ∙ ap (λ n. in_range true (n, [])) z
          ∙ ap (λ n. in_range false (n, [])) (sym z)
    ]

Spaces-split : (s : Str) → (spaces : Str) × Spaces spaces × (s ≡ spaces ++ skip_spaces s)
unfolding skip_spaces
Spaces-split [] = ([], tt, refl)
Spaces-split (c ∷ s) = elim (Bool-cases (is_space c)) [
  | inl space ↦
      let (spaces, h, e) = Spaces-split s in (c ∷ spaces, (space, h), rw space (ap (◌∷◌ c) e))
  | inr other ↦ ([], tt, rw other refl)
]

take_sign-cases :
    (s : Str)
    → (sign : Str) × (negative : Bool) × (u : Str) × (take_sign s ≡ (negative, u))
      × (s ≡ sign ++ u)
      × ((negative ≡ false) × (sign ≡ [])
          ⊎ ((negative ≡ false) × (sign ≡ b'+' ∷ []) ⊎ (negative ≡ true) × (sign ≡ b'-' ∷ [])))
unfolding take_sign
take_sign-cases [] = ([], false, [], refl, refl, inl (refl, refl))
take_sign-cases (c ∷ s) = elim (Bool-cases (c == b'-')) [
  | inl minus ↦
      (b'-' ∷ [], true, s, rw minus refl, ap (λ c. c ∷ s) (ground arith), inr (inr (refl, refl)))
  | inr other ↦ elim (Bool-cases (c == b'+')) [
    | inl plus ↦ (
      b'+' ∷ [],
      false,
      s,
      rw (other, plus) refl,
      ap (λ c. c ∷ s) (ground arith),
      inr (inl (refl, refl)),
    )
    | inr none ↦ ([], false, c ∷ s, rw (other, none) refl, refl, inl (refl, refl))
  ]
]

in_range-cases :
    (negative : Bool) (m n : ℕ) (rest : Str)
    → (in_range negative (m, rest)).out_of_range ≡ false
    → (in_range negative (m, rest)).rest ≡ []
    → (in_range negative (m, rest)).value ≡ pos n
    → (rest ≡ []) × (m ≡ n) × (n ≤ long_max + 1) × ((negative ≡ true) → n ≡ 0)
unfolding in_range
in_range-cases true m n rest o r v = ground arith
in_range-cases false m n rest o r v = ground arith

-- What is converted to a number that is not negative, within the range and to the end, is a numeral of
-- the number.
pub Numeral-strtol :
    (s : Str) (n : ℕ)
    → (strtol s).converts ≡ true
    → (strtol s).out_of_range ≡ false
    → (strtol s).rest ≡ []
    → (strtol s).value ≡ pos n
    → Numeral s n
Numeral-strtol s n c o r v =
    let (spaces, blank, parts) = Spaces-split s in
    let (sign, negative, u, e, parts', signs) = take_sign-cases (skip_spaces s) in
    elim (Bool-cases (has_digit u)) [
      | inr none ↦ absurd (cc (sym (strtol-none s u negative e none), c))
      | inl digit ↦
          let reads = read_digits 0 u in
          let from = strtol-from s u negative reads e digit refl in
          let (ends, same, _, zero) =
            in_range-cases negative reads.0 n reads.1 (ap (λ c. c.out_of_range) (sym from) ∙ o)
              (ap (λ c. c.rest) (sym from) ∙ r) (ap (λ c. c.value) (sym from) ∙ v) in
          record {
            spaces = spaces;
            sign = sign;
            digits = u;
            parts = parts ∙ ap (λ t. spaces ++ t) parts';
            blank = blank;
            signed = elim signs [
              | inl (_, e) ↦ inl e
              | inr (inl (_, e)) ↦ inr (inl e)
              | inr (inr (h, e)) ↦ inr (inr (e, zero h))
            ];
            spells = read_digits-starts u n digit (ap₂ (λ m rest. (m, rest)) same ends);
          }
    ]
