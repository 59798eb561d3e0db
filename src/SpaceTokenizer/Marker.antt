-- ===== src/SpaceTokenizer/Marker.antt =====
-- The marker of the logical end of the input (-E): a token that equals it ends the input.
use phxargs.Base.{◌≡◌, ◌≢◌, ◌⊎◌, refl, ap, inl, inr, false, Option, none, some, Bool-cases}
use phxargs.Base.Strings.{Str, str_eq, str_eq_iff}
use phxargs.SpaceTokenizer.{unless_marker}

pub Str-cases : (a b : Str) → (a ≡ b) ⊎ (a ≢ b)
Str-cases a b = elim (Bool-cases (str_eq a b)) [
  | inl same ↦ inl ((str_eq_iff a b).0 same)
  | inr other ↦ inr (λ e. absurd (cc (other, (str_eq_iff a b).1 e)))
]

str_eq_other : (a b : Str) → a ≢ b → str_eq a b ≡ false
str_eq_other a b other = elim (Bool-cases (str_eq a b)) [
  | inl same ↦ absurd (other ((str_eq_iff a b).0 same))
  | inr e ↦ e
]

-- The token, or NULL where it equals the marker.
abbrev pub unmarked_by : {marker token : Str} → (marker ≡ token) ⊎ (marker ≢ token) → Option Str
unmarked_by (inl same) = none
unmarked_by {token} (inr other) = some token

abbrev pub unmarked : Option Str → Str → Option Str
unmarked none token = some token
unmarked (some marker) token = unmarked_by (Str-cases marker token)

unless_marker_by :
    {marker token : Str} (c : (marker ≡ token) ⊎ (marker ≢ token))
    → unless_marker (some marker) token ≡ unmarked_by c
unfolding unless_marker
unless_marker_by {marker} {token} (inl same) = rw ((str_eq_iff marker token).1 same) refl
unless_marker_by {marker} {token} (inr other) = rw (str_eq_other marker token other) refl

pub unless_marker_lem :
    (marker : Option Str) (token : Str) → unless_marker marker token ≡ unmarked marker token
unfolding unless_marker
unless_marker_lem none token = refl
unless_marker_lem (some marker) token = unless_marker_by (Str-cases marker token)

unmarked_by-free :
    {marker token : Str} (c : (marker ≡ token) ⊎ (marker ≢ token))
    → some marker ≢ some token
    → unmarked_by c ≡ some token
unmarked_by-free (inl same) free = absurd (free (ap some same))
unmarked_by-free (inr other) free = refl

pub unmarked-free :
    (marker : Option Str) (token : Str) → marker ≢ some token → unmarked marker token ≡ some token
unmarked-free none token free = refl
unmarked-free (some marker) token free = unmarked_by-free (Str-cases marker token) free

unmarked_by-same :
    {marker value token : Str} (c : (marker ≡ value) ⊎ (marker ≢ value))
    → unmarked_by c ≡ some token
    → value ≡ token
unmarked_by-same (inl same) e = cc
unmarked_by-same (inr other) e = cc

pub unmarked-same :
    (marker : Option Str) (value token : Str) → unmarked marker value ≡ some token → value ≡ token
unmarked-same none value token e = cc
unmarked-same (some marker) value token e = unmarked_by-same (Str-cases marker value) e
