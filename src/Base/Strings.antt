-- ===== src/Base/Strings.antt =====
-- C strings, and what <string.h> and <ctype.h> do with them. A string is the list of its bytes in
-- front of the terminating NUL.
use mathlib.Core.Option
use phxargs.Base.Tests.{◌==◌, if◌then◌else◌}
use phxargs.Base.Lists.{length, take}
use Prim.Native.Nat.{ℕ}
use mathlib.Core.Path.{◌≡◌, refl, subst}
use mathlib.Core.Logic.{◌↔◌, ◌≢◌}
use mathlib.Core.Bool.{Bool, true, false, ◌&&◌}
use mathlib.Core.Option.{Option, none, some}
use mathlib.Core.List.{List, [], ◌∷◌, ◌++◌, map}
use native.Mathlib.Omega.{arith}

abbrev pub Str : Type 0
Str = List ℕ

-- What a reader of memory takes for the string at its start; `none` if it runs into a cell that
-- holds no value, or out of the block.
abbrev pub c_string : List (Option ℕ) → Option Str
c_string [] = none
c_string (none ∷ cells) = none
c_string (some c ∷ cells) = if c == 0 then some [] else Option.map (◌∷◌ c) (c_string cells)

-- The cell at the start of some memory.
abbrev pub cell : List (Option ℕ) → Option ℕ
cell [] = none
cell (c ∷ cells) = c

abbrev pub until_nul : List ℕ → Str
until_nul [] = []
until_nul (c ∷ cs) = if c == 0 then [] else c ∷ until_nul cs

pub c_string-cells :
    (token : List ℕ) (cells : List (Option ℕ))
    → take (length (token ++ 0 ∷ [])) cells ≡ map some (token ++ 0 ∷ [])
    → c_string cells ≡ some (until_nul token)
c_string-cells [] [] h = cc
c_string-cells [] (none ∷ cells) h = cc
c_string-cells [] (some c ∷ cells) h = ground arith
c_string-cells (t ∷ token) [] h = cc
c_string-cells (t ∷ token) (none ∷ cells) h = cc
c_string-cells (t ∷ token) (some c ∷ cells) h = ground (arith, c_string-cells token cells)

-- `strcmp (a, b) == 0`.
unfoldable pub str_eq : Str → Str → Bool
str_eq [] [] = true
str_eq [] (b ∷ bs) = false
str_eq (a ∷ as') [] = false
str_eq (a ∷ as') (b ∷ bs) = a == b && str_eq as' bs

pub str_eq_iff : (a b : Str) → (str_eq a b ≡ true) ↔ (a ≡ b)
unfolding str_eq
str_eq_iff (x ∷ a) (y ∷ b) = ground (arith, str_eq_iff a b)
str_eq_iff _ _ = ground arith

-- No byte of the string is NUL, as in the memory of any C string.
abbrev pub NoNul : Str → Type 0
NoNul [] = Unit {0}
NoNul (c ∷ s) = (c ≢ 0) × NoNul s

pub NoNul-append : (a b : Str) → NoNul a → NoNul b → NoNul (a ++ b)
NoNul-append [] b ha hb = hb
NoNul-append (c ∷ a) b ha hb = (ha.0, NoNul-append a b ha.1 hb)

pub NoNul-left : (a b : Str) → NoNul (a ++ b) → NoNul a
NoNul-left [] b h = tt
NoNul-left (c ∷ a) b h = (h.0, NoNul-left a b h.1)

pub NoNul-right : (a b : Str) → NoNul (a ++ b) → NoNul b
NoNul-right [] b h = h
NoNul-right (c ∷ a) b h = NoNul-right a b h.1

pub c_string-NoNul : (s tail : Str) → NoNul s → c_string (map some (s ++ 0 ∷ tail)) ≡ some s
c_string-NoNul [] tail h = refl
c_string-NoNul (c ∷ s) tail h = ground (arith, c_string-NoNul s tail h.1)

abbrev pub NoNuls : List Str → Type 0
NoNuls [] = Unit {0}
NoNuls (s ∷ strings) = NoNul s × NoNuls strings

pub until_nul-NoNul : (cs : List ℕ) → NoNul (until_nul cs)
until_nul-NoNul [] = tt
until_nul-NoNul (c ∷ cs) = ground (arith, until_nul-NoNul cs)

pub until_nul-some : (cs : List ℕ) {token : Str} → some (until_nul cs) ≡ some token → NoNul token
until_nul-some cs e = subst NoNul (cc) (until_nul-NoNul cs)
