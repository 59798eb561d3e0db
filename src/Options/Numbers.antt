-- ===== src/Options/Numbers.antt =====
-- The numbers that options take.
use mathlib.Core.Path.{subst}
use phxargs.Base.{
  ℕ, zero, suc, ltb, lt→ltb, if◌then◌else◌, ◌+◌, ◌/◌, ◌%◌, ◌≤◌, ◌<◌, ◌≡◌, refl, sym, ap, ◌∙◌, ◌⊎◌,
  inl, inr, Bool, true, false, ◌||◌, not, [], ◌∷◌, ◌++◌, ok, exit, exit_failure, Bool-cases, length,
  arith, ◌==◌,
}
use phxargs.Base.Int.{ℤ, pos, negsuc, ltb_ℤ}
use phxargs.Base.Strings.{Str}
use phxargs.Strtol.{strtol, in_range, long_max, Converted}
use phxargs.Strtol.Numerals.{Digits, one, more, Numeral, strtol-Numeral, Numeral-strtol}
use phxargs.Options.{parse_number_arg_with_min, parse_number_arg}

-- What `strtol` gives cannot be taken as the number.
abbrev is_invalid : Converted → Bool
is_invalid parsed = not parsed.converts || parsed.out_of_range || not (length parsed.rest == 0)

no_rest : (s : Str) → not (length s == 0) ≡ false → s ≡ []
no_rest [] h = refl
no_rest (c ∷ s) h = absurd (ground arith)

is_valid-cases :
    (parsed : Converted)
    → is_invalid parsed ≡ false
    → (parsed.converts ≡ true) × (parsed.out_of_range ≡ false) × (parsed.rest ≡ [])
is_valid-cases parsed h = (ground arith, ground arith, no_rest parsed.rest (ground arith))

in_range_small : (n : ℕ) → (in_range false (n, [])).out_of_range ≡ false → n ≤ long_max
unfolding in_range
in_range_small n h = ground arith

-- A numeral of a number within the bounds is accepted.
parse_number_arg_with_min-accepts :
    (arg : Str) (min n : ℕ)
    → Numeral arg n
    → min ≤ n
    → n ≤ long_max
    → parse_number_arg_with_min arg (pos min) ≡ ok (pos n)
unfolding parse_number_arg_with_min in_range
parse_number_arg_with_min-accepts arg min n m low high = rw (strtol-Numeral m) (ground arith)

-- The argument is a numeral of `n`, which is within the bounds.
abbrev pub IsNumber : Str → ℕ → ℕ → Type 0
IsNumber arg min n = Numeral arg n × (min ≤ n) × (n ≤ long_max)

-- The argument is refused, and is no such numeral.
abbrev pub IsRefused : Str → ℕ → Type 0
IsRefused arg min =
    (parse_number_arg_with_min arg (pos min) ≡ exit exit_failure)
    × ((n : ℕ) → IsNumber arg min n → ⊥)

exit-IsRefused :
    (arg : Str) (min : ℕ)
    → parse_number_arg_with_min arg (pos min) ≡ exit exit_failure
    → IsRefused arg min
exit-IsRefused arg min e =
    (e, λ n (m, low, high). cc (sym (parse_number_arg_with_min-accepts arg min n m low high) ∙ e))

ℤ-cases : (z : ℤ) → ((n : ℕ) × (z ≡ pos n)) ⊎ ((n : ℕ) × (z ≡ negsuc n))
ℤ-cases (pos n) = inl (n, refl)
ℤ-cases (negsuc n) = inr (n, refl)

too_small :
    (arg : Str) (min : ℕ)
    → is_invalid (strtol arg) ≡ false
    → ltb_ℤ (strtol arg).value (pos min) ≡ true
    → parse_number_arg_with_min arg (pos min) ≡ exit exit_failure
unfolding parse_number_arg_with_min
too_small arg min h small = rw (h, small) refl

-- The same for any minimum.
pub parse_number_arg_with_min-cases :
    (arg : Str) (min : ℕ)
    → ((n : ℕ) × (parse_number_arg_with_min arg (pos min) ≡ ok (pos n)) × IsNumber arg min n)
      ⊎ IsRefused arg min
unfolding parse_number_arg_with_min
parse_number_arg_with_min-cases arg min = elim (Bool-cases (is_invalid (strtol arg))) [
  | inl bad ↦ inr (exit-IsRefused arg min (rw bad refl))
  | inr good ↦ elim (ℤ-cases (strtol arg).value) [
    | inr (n, v) ↦ inr (
        exit-IsRefused arg min
          (too_small arg min good (ap (λ z. ltb_ℤ z (pos min)) v ∙ lt→ltb _ _ (omega arith))))
    | inl (n, v) ↦
        let (converts, fits, ends) = is_valid-cases (strtol arg) good in
        let m = Numeral-strtol arg n converts fits ends v in
        elim (Bool-cases (ltb_ℤ (pos n) (pos min))) [
          | inl small ↦ inr (
              exit-IsRefused arg min
                (too_small arg min good (ap (λ z. ltb_ℤ z (pos min)) v ∙ small)))
          | inr enough ↦ inl (
            n,
            rw (good, v, enough) refl,
            (
              m,
              ground arith,
              in_range_small n
                  (ap (λ (c : Converted). c.out_of_range) (sym (strtol-Numeral m)) ∙ fits),
            ),
          )
        ]
  ]
]

-- A number argument is accepted where it is a numeral of a number from 1 to LONG_MAX (spaces, a sign
-- perhaps, and digits to the end), and gives that number; anything else ends the process with status 1.
pub parse_number_arg-cases :
    (arg : Str)
    → ((n : ℕ) × (parse_number_arg arg ≡ ok n) × IsNumber arg 1 n)
      ⊎ (parse_number_arg arg ≡ exit exit_failure) × ((n : ℕ) → IsNumber arg 1 n → ⊥)
unfolding parse_number_arg
parse_number_arg-cases arg = elim (parse_number_arg_with_min-cases arg 1) [
  | inl (n, e, is) ↦ inl (n, rw e refl, is)
  | inr (e, none) ↦ inr (rw e refl, none)
]

-- The decimal numeral of a number.
unfoldable pub decimal : ℕ → ℕ → Str
decimal zero n = []
decimal (suc bound) n =
    if ltb n 10 then (b'0' + n) ∷ [] else decimal bound (n / 10) ++ (b'0' + n % 10) ∷ []

decimal-Digits : (bound n : ℕ) → n < bound → Digits (decimal bound n) n
unfolding decimal
decimal-Digits zero n h = absurd (omega arith)
decimal-Digits (suc bound) n h = elim (Bool-cases (ltb n 10)) [
  | inl small ↦
      rw small (subst (Digits ((b'0' + n) ∷ [])) (omega arith) (one (b'0' + n) (ground arith)))
  | inr large ↦ rw large (
      more (b'0' + n % 10) (decimal-Digits bound (n / 10) (ground arith)) (ground arith) refl
        (ground arith))
]

-- Any number from 1 to LONG_MAX, written in decimal, is read as itself.
pub parse_number_arg-decimal :
    (n : ℕ) → 1 ≤ n → n ≤ long_max → parse_number_arg (decimal (n + 1) n) ≡ ok n
unfolding parse_number_arg
parse_number_arg-decimal n low high =
    let m : Numeral (decimal (n + 1) n) n = record {
      spaces = [];
      sign = [];
      digits = decimal (n + 1) n;
      parts = refl;
      blank = tt;
      signed = inl refl;
      spells = decimal-Digits (n + 1) n (omega arith);
    } in
    rw (parse_number_arg_with_min-accepts (decimal (n + 1) n) 1 n m low high) refl
