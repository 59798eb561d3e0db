-- ===== src/Str/Result.antt =====
-- `str_replace` as a whole, on every branch.
use native.Mathlib.Nat.{le-div_iff_mul-le, div-lt_iff_lt-mul, mul_comm}
use phxargs.Base.{
  ℕ, zero, suc, ◌+◌, ◌-◌, ◌*◌, ◌/◌, ◌≤◌, ◌<◌, ◌≡◌, refl, ap, ◌∙◌, ◌⊎◌, inl, inr, [], ◌∷◌, ◌++◌, ok,
  exit, undefined, exit_failure, ltb, ltb→lt, Bool-cases, length, replicate, length-replicate,
  length-append, arith, take,
}
use phxargs.Base.Strings.{Str, NoNul, c_string-NoNul}
use phxargs.Util.{size_max, wrapped}
use phxargs.Str.{
  count_loop, checked_mul, checked_add, copy_loop, memcpy, replace_in, replaced_length,
  write_replaced,
}
use phxargs.Str.Finds.{strstr-Absent, strstr-First}
use phxargs.Str.Replaces.{
  Replaces, kept, put, Replaces-any, suc_mul, length-Replaces, Replaces-NoNul, count_loop-Replaces,
  First-shorter, drop-append,
}
use phxargs.Str.Copies.{copy_loop-Replaces}

-- The product, where it fits in a `size_t`; else the process is left.
checked_mul-cases :
    (a b : ℕ)
    → (a * b ≤ size_max) × (checked_mul a b ≡ ok (a * b))
      ⊎ (size_max < a * b) × (checked_mul a b ≡ exit exit_failure)
unfolding checked_mul
checked_mul-cases zero b = inl (omega arith, ap ok (omega arith))
checked_mul-cases (suc a) b = elim (Bool-cases (ltb (size_max / suc a) b)) [
  | inl large ↦
      let over : size_max < b * suc a =
        (div-lt_iff_lt-mul {x = size_max} (omega arith)).0 (ltb→lt _ _ large) in
      inr (rw (mul_comm (suc a) b) over, ground arith)
  | inr small ↦
      let below : b ≤ size_max / suc a = ground arith in
      let fits : suc a * b ≤ size_max =
        rw (mul_comm (suc a) b) ((le-div_iff_mul-le (omega arith)).0 below) in
      inl (fits, rw small (ground arith))
]

checked_add-cases :
    (a b : ℕ)
    → b ≤ size_max
    → (a + b ≤ size_max) × (checked_add a b ≡ ok (a + b))
      ⊎ (size_max < a + b) × (checked_add a b ≡ exit exit_failure)
unfolding checked_add
checked_add-cases a b h = elim (Bool-cases (ltb (size_max - b) a)) [
  | inl large ↦ inr (ground arith, rw large refl)
  | inr small ↦ inl (ground arith, rw small (ap ok (ground arith)))
]

-- The sum of the lengths does not wrap, since what is removed was there.
replaced_length-cases :
    (target n placeholder_len repl_len len : ℕ)
    → target ≤ size_max
    → n * placeholder_len ≤ target
    → len + n * placeholder_len ≡ target + n * repl_len
    → (len ≤ size_max) × (replaced_length target n placeholder_len repl_len ≡ ok len)
      ⊎ (size_max < len) × (replaced_length target n placeholder_len repl_len ≡ exit exit_failure)
unfolding replaced_length
replaced_length-cases target n placeholder_len repl_len len h r e =
    elim (checked_mul-cases n placeholder_len) [
      | inr (large, _) ↦ absurd (omega arith)
      | inl (_, e₁) ↦ elim (checked_mul-cases n repl_len) [
        | inr (large, e₂) ↦ inr (omega arith, rw (e₁, e₂) refl)
        | inl (fits, e₂) ↦
            let left : wrapped (target + (size_max + 1) - n * placeholder_len)
                ≡ target - n * placeholder_len =
              omega arith in
            elim (checked_add-cases (target - n * placeholder_len) (n * repl_len) fits) [
              | inl (sum, e₃) ↦ inl (omega arith, rw (e₁, e₂, left) (e₃ ∙ ap ok (omega arith)))
              | inr (large, e₃) ↦ inr (omega arith, rw (e₁, e₂, left) e₃)
            ]
      ]
    ]

memcpy-nothing :
    (place : ℕ) (bytes : Str)
    → (memcpy [] place bytes ≡ undefined) ⊎ (bytes ≡ []) × (memcpy [] place bytes ≡ ok [])
unfolding memcpy
memcpy-nothing zero [] = inr (refl, refl)
memcpy-nothing (suc place) [] = inl (ground arith)
memcpy-nothing place (b ∷ bytes) = inl (ground arith)

module _ (placeholder repl : Str) where
  -- Nothing can be written to an empty block, not even the NUL.
  copy_loop-nothing :
      {s out : Str} {n : ℕ} (rounds place : ℕ)
      → Replaces placeholder repl s out n
      → length s < rounds
      → 0 < length placeholder
      → copy_loop rounds s placeholder repl [] place ≡ undefined
  unfolding copy_loop
  copy_loop-nothing zero place r h p = absurd (omega arith)
  copy_loop-nothing (suc rounds) place (kept {s} absent) h p =
      rw (strstr-Absent absent, copy_loop)
        (elim (memcpy-nothing place (s ++ 0 ∷ [])) [
          | inl e ↦ e
          | inr (e, _) ↦ absurd (omega (arith, ap length e, length-append s (0 ∷ [])))
        ])
  copy_loop-nothing (suc rounds) place (put {s} {rest} f r q) h p =
      let k = length s - length (placeholder ++ rest) in
      rw (strstr-First f, copy_loop, drop-append placeholder rest)
        (elim (memcpy-nothing place (take k s)) [
          | inl e ↦ rw e refl
          | inr (_, e) ↦ rw e (elim (memcpy-nothing (place + k) repl) [
            | inl e' ↦ rw e' refl
            | inr (_, e') ↦ rw e' (
                copy_loop-nothing rounds (place + k + length repl) r
                  (omega (arith, First-shorter placeholder repl f)) p)
          ])
        ])

  pub removed-le :
      {s out : Str} {n : ℕ} → Replaces placeholder repl s out n → n * length placeholder ≤ length s
  removed-le (kept absent) = omega arith
  removed-le (put {n} f r q) =
      omega (arith, First-shorter placeholder repl f, removed-le r, suc_mul n (length placeholder))

  written-Replaces :
      {s out : Str} {n : ℕ}
      → Replaces placeholder repl s out n
      → 0 < length placeholder
      → NoNul s
      → NoNul repl
      → length out < size_max
      → write_replaced s placeholder repl (length out) ≡ ok out
  unfolding write_replaced
  written-Replaces {s} {out} r p hs hr below =
      let block : wrapped (length out + 1) ≡ length out + 1 = omega arith in
      let (tail, e) =
        copy_loop-Replaces placeholder repl (length s + 1) [] (replicate (length out + 1) 0) 0 r
          (omega arith) p refl (omega (arith, length-replicate {A = ℕ} (length out + 1) 0)) in
      rw (block, e, c_string-NoNul out tail (Replaces-NoNul placeholder repl r hs hr)) refl

  written-nothing :
      {s out : Str} {n : ℕ}
      → Replaces placeholder repl s out n
      → 0 < length placeholder
      → length out ≡ size_max
      → write_replaced s placeholder repl (length out) ≡ undefined
  unfolding write_replaced
  written-nothing {s} {out} r p full =
      let block : wrapped (length out + 1) ≡ 0 = omega arith in
      rw (block, copy_loop-nothing (length s + 1) 0 r (omega arith) p) refl

  -- Replacing a placeholder that is not empty, in a string of at most 2^64 - 1 bytes and by a string,
  -- neither with a NUL: there is a text with each occurrence replaced, from left to right. It is the
  -- result where it has less than 2^64 - 1 bytes; where it has more, the process is left with status
  -- 1; and where it has 2^64 - 1 bytes, the size of the block wraps to 0 and the copy is undefined.
  pub replace_in-Replaces :
      (s : Str)
      → 0 < length placeholder
      → NoNul s
      → NoNul repl
      → length s ≤ size_max
      → (out : Str) × (n : ℕ) × Replaces placeholder repl s out n
        × ((length out < size_max) × (replace_in s placeholder repl ≡ ok out)
            ⊎ (length out ≡ size_max) × (replace_in s placeholder repl ≡ undefined)
            ⊎ (size_max < length out) × (replace_in s placeholder repl ≡ exit exit_failure))
  unfolding replace_in
  replace_in-Replaces s p hs hr h =
      let (out, n, r) = Replaces-any placeholder repl (length s + 1) s (omega arith) p in
      let counted : count_loop (length s + 1) s placeholder 0 ≡ ok n =
        count_loop-Replaces placeholder repl (length s + 1) 0 r (omega arith) p
        ∙ ap ok (omega arith) in
      (
        out,
        n,
        r,
        elim (replaced_length-cases (length s) n (length placeholder) (length repl) (length out) h
            (removed-le r) (length-Replaces placeholder repl r)) [
              | inr (large, e) ↦ inr (inr (large, rw (counted, e) refl))
              | inl (fits, e) ↦ elim (Bool-cases (ltb (length out) size_max)) [
                | inl below ↦ inl (
                  ltb→lt _ _ below,
                  rw (counted, e) (written-Replaces r p hs hr (ltb→lt _ _ below)),
                )
                | inr not_below ↦
                    let equal : length out ≡ size_max = ground arith in
                    inr (inl (equal, rw (counted, e) (written-nothing r p equal)))
              ]
            ],
      )
