-- ===== src/Base/Cells.antt =====
-- Arrays of cells, of which a front part stands for a list.
use mathlib.Core.List.{map-append, tail}
use Prim.Native.Nat.{ℕ, zero, suc}
use mathlib.Core.Path.{◌≡◌, sym, ap, ◌∙◌}
use mathlib.Core.List.{List, [], ◌∷◌, ◌++◌, map}
use mathlib.Core.Option.{Option, some}
use native.Mathlib.Omega.{arith}
use phxargs.Base.Lists.{length, take, drop, take-take, take-map-append, length-append}
use phxargs.Base.Strings.{cell}

-- One element less.
pub take-shorter :
    (n m : ℕ) (cells : List (Option ℕ)) (bytes : List ℕ) (ch : ℕ)
    → n ≡ suc m
    → n ≡ length (bytes ++ ch ∷ [])
    → take n cells ≡ map some (bytes ++ ch ∷ [])
    → take m cells ≡ map some bytes
take-shorter n m cells bytes ch e l h =
    let e' : m ≡ length bytes = omega (arith, length-append bytes (ch ∷ [])) in
    sym (take-take m n cells (omega arith))
    ∙ ap (take m) (h ∙ map-append some bytes (ch ∷ []))
    ∙ rw e' (take-map-append some bytes (some ch ∷ []))

pub last-cell :
    (m : ℕ) (cells : List (Option ℕ)) (bytes : List ℕ) (ch : ℕ)
    → m ≡ length bytes
    → take (suc m) cells ≡ map some (bytes ++ ch ∷ [])
    → cell (drop m cells) ≡ some ch
last-cell m [] [] ch e h = cc
last-cell zero (c ∷ cells) [] ch e h = ground (arith, h)
last-cell (suc m) (c ∷ cells) [] ch e h = absurd (omega arith)
last-cell m [] (b ∷ bytes) ch e h = cc
last-cell zero (c ∷ cells) (b ∷ bytes) ch e h = absurd (omega arith)
last-cell (suc m) (c ∷ cells) (b ∷ bytes) ch e h =
    last-cell m cells bytes ch (omega arith) (ap tail h)
