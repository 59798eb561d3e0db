-- ===== src/Strtol.antt =====
-- `strtol (arg, &endptr, 10)` of <stdlib.h>, as src/options.c calls it.
pub mod Numerals
use phxargs.Base.{
  ℕ, suc, ◌+◌, ◌-◌, ◌*◌, ◌^◌, Bool, true, false, ◌&&◌, ◌||◌, List, [], ◌∷◌, ltb, leb, ◌==◌,
  if◌then◌else◌,
}
use phxargs.Base.Int.{ℤ, pos, negsuc}
use phxargs.Base.Strings.{Str}

-- A `long` has 64 bits.
abbrev pub long_max : ℕ
long_max = 2 ^ 63 - 1

-- `isspace`, in the C locale.
abbrev pub is_space : ℕ → Bool
is_space c = c == b' ' || leb 9 c && leb c 13

abbrev pub is_digit : ℕ → Bool
is_digit c = leb b'0' c && leb c b'9'

unfoldable pub skip_spaces : Str → Str
skip_spaces [] = []
skip_spaces (c ∷ s) = if is_space c then skip_spaces s else c ∷ s

-- The sign, if there is one, and what follows it.
unfoldable pub take_sign : Str → Bool × Str
take_sign [] = (false, [])
take_sign (c ∷ s) =
    if c == b'-' then (true, s) else if c == b'+' then (false, s) else (false, c ∷ s)

abbrev pub digit_value : ℕ → ℕ
digit_value c = c - b'0'

-- The number that the digits stand for, after those read so far, and what follows them.
unfoldable pub read_digits : ℕ → Str → ℕ × Str
read_digits read [] = (read, [])
read_digits read (c ∷ s) =
    if is_digit c then read_digits (read * 10 + digit_value c) s else (read, c ∷ s)

-- The value that is returned, whether anything was converted (else `*endptr` is `arg`), whether
-- `errno` is then ERANGE, and the string at `*endptr`.
pub record Converted : Type 0 where
  pub value : ℤ
  pub converts : Bool
  pub out_of_range : Bool
  pub rest : Str

-- The number within the range of a `long`.
unfoldable pub in_range : Bool → ℕ × Str → Converted
in_range false (n, rest) =
    if ltb long_max n
    then record { value = pos long_max; converts = true; out_of_range = true; rest = rest }
    else record { value = pos n; converts = true; out_of_range = false; rest = rest }
in_range true (n, rest) =
    if ltb (long_max + 1) n
    then record { value = negsuc long_max; converts = true; out_of_range = true; rest = rest }
    else if n == 0
    then record { value = pos 0; converts = true; out_of_range = false; rest = rest }
    else record { value = negsuc (n - 1); converts = true; out_of_range = false; rest = rest }

unfoldable pub has_digit : Str → Bool
has_digit [] = false
has_digit (c ∷ s) = is_digit c

unfoldable pub strtol : Str → Converted
unfolding skip_spaces take_sign read_digits in_range has_digit
strtol arg =
    let (negative, unsigned) = take_sign (skip_spaces arg) in
    if has_digit unsigned
    then in_range negative (read_digits 0 unsigned)
    else record { value = pos 0; converts = false; out_of_range = false; rest = arg }
