-- ===== src/Buffer/Refines.antt =====
-- A buffer stands for the list of the bytes in front of its position.
use native.Mathlib.Numerals.{add-one}
use mathlib.Core.Path.{subst}
use mathlib.Core.List.{map-append}
use phxargs.Base.Strings.{cell, c_string, c_string-cells, until_nul}
use phxargs.Base.Cells.{take-shorter, last-cell}
use phxargs.Base.{
  lt→ltb, drop, ℕ, suc, ◌+◌, ◌-◌, ◌/◌, ◌≤◌, ◌<◌, ◌≡◌, refl, sym, ap, ◌∙◌, inl, inr, List, [], ◌∷◌,
  ◌++◌, map, Option, none, some, ok, arith, ◌==◌, Bool-cases, take, length, replicate,
  length-append, length-set, length-replicate, take-set, take-append,
}
use phxargs.Util.{double_capacity_grows, double_capacity_total, size_max}
use phxargs.Buffer.{Buffer, buffer_create, grow, store, buffer_put, buffer_drop_last, buffer_reset}

pub record Represents (b : Buffer) (bytes : List ℕ) : Type 0 where
  pub allocated : length b.buf ≡ b.sz + 1
  pub fits : b.pos ≤ b.sz
  pub position : b.pos ≡ length bytes
  pub contents : take b.pos b.buf ≡ map some bytes

pub buffer_create-Represents : (sz : ℕ) → Represents (buffer_create sz) []
unfolding buffer_create
buffer_create-Represents sz = record {
  allocated = length-replicate (sz + 1) (some 0);
  fits = omega arith;
  position = refl;
  contents = refl;
}

pub buffer_reset-Represents :
    {b : Buffer} {bytes : List ℕ} → Represents b bytes → Represents (buffer_reset b) []
unfolding buffer_reset
buffer_reset-Represents r = ground arith

pub store-Represents :
    {b : Buffer} {bytes : List ℕ} (ch : ℕ)
    → Represents b bytes
    → b.pos < b.sz
    → Represents (store b ch) (bytes ++ ch ∷ [])
unfolding store
store-Represents {b} {bytes} ch r h = record {
  allocated = length-set b.buf b.pos (some ch) ∙ r.allocated;
  fits = omega arith;
  position = omega (arith, length-append bytes (ch ∷ []), r.position);
  contents = rw add-one (
      take-set b.buf b.pos (some ch) (omega arith)
      ∙ ap (λ t. t ++ some ch ∷ []) r.contents
      ∙ sym (map-append some bytes (ch ∷ [])));
}

-- Growth changes what may follow, not what is there.
grow-Represents :
    {b : Buffer} {bytes : List ℕ}
    → Represents b bytes
    → b.sz ≤ size_max / 2
    → (b' : Buffer) × (grow b ≡ ok b') × Represents b' bytes × (b'.pos < b'.sz)
unfolding grow
grow-Represents {b} {bytes} r h =
    let (sz, e) = double_capacity_total b.sz h in
    let wide = double_capacity_grows b.sz sz e in
    let fill = replicate {A = Option ℕ} (sz - b.sz) none in
    (
      record b { buf = b.buf ++ fill; sz = sz },
      rw e,
      record {
        allocated = omega (
          arith,
          length-append b.buf fill,
          length-replicate {A = Option ℕ} (sz - b.sz) none,
          r.allocated,
        );
        fits = omega arith;
        position = r.position;
        contents = take-append b.pos b.buf fill (omega arith) ∙ r.contents;
      },
      omega arith,
    )

-- A put below half of the address space appends the byte.
pub buffer_put-Represents :
    {b : Buffer} {bytes : List ℕ} (ch : ℕ)
    → Represents b bytes
    → length bytes ≤ size_max / 2
    → (b' : Buffer) × (buffer_put b ch ≡ ok b') × Represents b' (bytes ++ ch ∷ [])
unfolding buffer_put
buffer_put-Represents {b} ch r h = elim (Bool-cases (b.pos == b.sz)) [
  | inl full ↦
      let (b', e, r', room) = grow-Represents r (ground (arith, r.position)) in
      (store b' ch, rw (full, e), store-Represents ch r' room)
  | inr free ↦ (store b ch, rw free, store-Represents ch r (ground (arith, r.fits)))
]

pub buffer_drop_last-Represents :
    {b : Buffer} (bytes : List ℕ) (ch : ℕ)
    → Represents b (bytes ++ ch ∷ [])
    → Represents (buffer_drop_last b) bytes
unfolding buffer_drop_last
buffer_drop_last-Represents {b} bytes ch r =
    let p : b.pos ≡ suc (length bytes) = omega (arith, r.position, length-append bytes (ch ∷ [])) in
    rw (lt→ltb 0 b.pos (omega arith)) record {
      allocated = r.allocated;
      fits = omega arith;
      position = omega arith;
      contents = take-shorter b.pos (b.pos - 1) b.buf bytes ch (omega arith) r.position r.contents;
    }

-- A terminated token reads back as a C string, up to its first NUL.
pub c_string-Represents :
    {b : Buffer} (token : List ℕ)
    → Represents b (token ++ 0 ∷ [])
    → c_string b.buf ≡ some (until_nul token)
c_string-Represents {b} token r = c_string-cells token b.buf (rw r.position at r.contents)

-- The byte in front of the position.
pub cell-Represents :
    {b : Buffer} (bytes : List ℕ) (ch : ℕ)
    → Represents b (bytes ++ ch ∷ [])
    → cell (drop (b.pos - 1) b.buf) ≡ some ch
cell-Represents {b} bytes ch r =
    let p : b.pos ≡ suc (length bytes) = omega (arith, r.position, length-append bytes (ch ∷ [])) in
    let p' : b.pos ≡ suc (b.pos - 1) = omega arith in
    last-cell (b.pos - 1) b.buf bytes ch (omega arith)
      (subst (λ n. take n b.buf ≡ map some (bytes ++ ch ∷ [])) p' r.contents)
