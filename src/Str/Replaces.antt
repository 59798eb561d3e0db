-- ===== src/Str/Replaces.antt =====
-- What `str_replace` puts together, with no mention of passes and blocks.
use mathlib.Core.Path.{subst}
use phxargs.Base.{
  ℕ, zero, suc, ◌+◌, ◌*◌, ◌<◌, ◌≡◌, refl, ap, sym, ◌∙◌, inl, inr, [], ◌∷◌, ◌++◌, ok, length, drop,
  arith, length-append,
}
use phxargs.Base.Strings.{Str, NoNul, NoNul-append, NoNul-left, NoNul-right}
use phxargs.Str.{count_loop}
use phxargs.Str.Finds.{First, Absent, First-append, strstr-cases, strstr-First, strstr-Absent}

-- `out` is `s` with `n` occurrences of the placeholder replaced: each is the first in what follows
-- the one before, and none is left behind the last.
pub data Replaces (placeholder repl : Str) : Str → Str → ℕ → Type 0 where
  kept : {s : Str} → Absent placeholder s → Replaces placeholder repl s s 0
  put :
      {s front rest out out' : Str} {n : ℕ}
      → First placeholder s front rest
      → Replaces placeholder repl rest out n
      → out' ≡ front ++ (repl ++ out)
      → Replaces placeholder repl s out' (suc n)

pub suc_mul : (n k : ℕ) → suc n * k ≡ n * k + k
suc_mul n k = grind arith

pub drop-append : (xs ys : Str) → drop (length xs) (xs ++ ys) ≡ ys
drop-append [] ys = refl
drop-append (x ∷ xs) ys = drop-append xs ys

module _ (placeholder repl : Str) where
  pub First-shorter :
      {s front rest : Str}
      → First placeholder s front rest
      → length s ≡ length front + (length placeholder + length rest)
  First-shorter {front} {rest} f =
      ap length (First-append f)
      ∙ omega (arith, length-append front (placeholder ++ rest), length-append placeholder rest)

  -- Every string has such a result.
  pub Replaces-any :
      (bound : ℕ) (s : Str)
      → length s < bound
      → 0 < length placeholder
      → (out : Str) × (n : ℕ) × Replaces placeholder repl s out n
  Replaces-any zero s h p = absurd (omega arith)
  Replaces-any (suc bound) s h p = elim (strstr-cases s placeholder) [
    | inl (absent, e) ↦ (s, 0, kept absent)
    | inr (front, rest, f, e) ↦
        let (out, n, r) = Replaces-any bound rest (omega (arith, First-shorter f)) p in
        (front ++ (repl ++ out), suc n, put f r refl)
  ]

  pub length-Replaces :
      {s out : Str} {n : ℕ}
      → Replaces placeholder repl s out n
      → length out + n * length placeholder ≡ length s + n * length repl
  length-Replaces (kept absent) = omega arith
  length-Replaces (put {front} {out} {n} f r e) = omega (
    arith,
    First-shorter f,
    length-Replaces r,
    ap length e,
    length-append front (repl ++ out),
    length-append repl out,
    suc_mul n (length placeholder),
    suc_mul n (length repl),
  )

  pub Replaces-NoNul :
      {s out : Str} {n : ℕ} → Replaces placeholder repl s out n → NoNul s → NoNul repl → NoNul out
  Replaces-NoNul (kept absent) hs hr = hs
  Replaces-NoNul (put {front} {rest} {out} f r e) hs hr =
      let split = subst NoNul (First-append f) hs in
      subst NoNul (sym e) (
        NoNul-append front (repl ++ out) (NoNul-left front _ split) (
          NoNul-append repl out hr
            (Replaces-NoNul r (NoNul-right placeholder rest (NoNul-right front _ split)) hr)))

  -- The first pass counts the replacements.
  pub count_loop-Replaces :
      {s out : Str} {n : ℕ} (rounds k : ℕ)
      → Replaces placeholder repl s out n
      → length s < rounds
      → 0 < length placeholder
      → count_loop rounds s placeholder k ≡ ok (k + n)
  unfolding count_loop
  count_loop-Replaces zero k r h p = absurd (omega arith)
  count_loop-Replaces (suc rounds) k (kept absent) h p =
      rw (strstr-Absent absent, count_loop) (ap ok (omega arith))
  count_loop-Replaces (suc rounds) k (put {rest} {n} f r e) h p =
      rw (strstr-First f, count_loop, drop-append placeholder rest)
        (count_loop-Replaces rounds (k + 1) r (omega (arith, First-shorter f)) p
          ∙ ap ok (omega arith))
