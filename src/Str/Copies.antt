-- ===== src/Str/Copies.antt =====
-- What the second pass writes.
use phxargs.Base.{
  ℕ, zero, suc, ◌+◌, ◌-◌, ◌≤◌, ◌<◌, ◌≡◌, refl, ap, ◌∙◌, List, [], ◌∷◌, ◌++◌, ok, length, drop,
  ltb-false, length-drop, take, arith, length-append, append_assoc, take-length, take-append,
}
use phxargs.Base.Strings.{Str}
use phxargs.Str.{memcpy, copy_loop}
use phxargs.Str.Finds.{First, First-append, strstr-First, strstr-Absent}
use phxargs.Str.Replaces.{Replaces, kept, put, First-shorter, drop-append}

drop-beyond :
    (written junk : List ℕ) (k : ℕ) → drop (length written + k) (written ++ junk) ≡ drop k junk
drop-beyond [] junk k = ap (λ n. drop n junk) {y = k} (omega arith)
drop-beyond (w ∷ written) junk k =
    ap (λ n. drop n (w ∷ (written ++ junk))) {y = suc (length written + k)} (omega arith)
    ∙ drop-beyond written junk k

take-here : (written junk : List ℕ) → take (length written) (written ++ junk) ≡ written
take-here written junk =
    take-append (length written) written junk (omega arith) ∙ take-length written

-- Bytes are written behind what has been written, where the block has room for them.
memcpy-append :
    (written junk : List ℕ) (bytes : Str) (place : ℕ)
    → place ≡ length written
    → length bytes ≤ length junk
    → memcpy (written ++ junk) place bytes ≡ ok ((written ++ bytes) ++ drop (length bytes) junk)
unfolding memcpy
memcpy-append written junk bytes place e h =
    rw
      (
        e,
        ltb-false (length (written ++ junk)) (length written + length bytes)
            (omega (arith, length-append written junk)),
        take-here written junk,
        drop-beyond written junk (length bytes),
      )
      refl

front-of :
    {needle s front rest : Str}
    → First needle s front rest
    → take (length s - length (needle ++ rest)) s ≡ front
front-of {needle} {s} {front} {rest} f =
    let e = First-append f in
    ap (λ t. take (length t - length (needle ++ rest)) t) e
    ∙ ap (λ n. take n (front ++ (needle ++ rest)))
        (omega (arith, length-append front (needle ++ rest)))
    ∙ take-here front (needle ++ rest)

regroup :
    (written front repl out more : List ℕ) {out' : List ℕ}
    → out' ≡ front ++ (repl ++ out)
    → ((written ++ front) ++ repl) ++ (out ++ more) ≡ written ++ (out' ++ more)
regroup written front repl out more q = rw q (simp (append_assoc))

module _ (placeholder repl : Str) where
  -- The second pass writes the string with its replacements, and the NUL, behind what has been
  -- written, where the block has room for them.
  pub copy_loop-Replaces :
      {s out : Str} {n : ℕ} (rounds : ℕ) (written junk : List ℕ) (place : ℕ)
      → Replaces placeholder repl s out n
      → length s < rounds
      → 0 < length placeholder
      → place ≡ length written
      → length out < length junk
      → (tail : List ℕ) × (copy_loop rounds s placeholder repl (written ++ junk) place
          ≡ ok (written ++ (out ++ 0 ∷ tail)))
  unfolding copy_loop
  copy_loop-Replaces zero written junk place r h p e room = absurd (omega arith)
  copy_loop-Replaces {s} (suc rounds) written junk place (kept absent) h p e room =
      let tail = drop (length (s ++ 0 ∷ [])) junk in
      (
        tail,
        rw (strstr-Absent absent, copy_loop)
            (memcpy-append written junk (s ++ 0 ∷ []) place e
                (omega (arith, length-append s (0 ∷ [])))
              ∙ ap ok (
                  append_assoc written (s ++ 0 ∷ []) tail
                  ∙ ap (λ xs. written ++ xs) (append_assoc s (0 ∷ []) tail))),
      )
  copy_loop-Replaces {s} {out = out'} (suc rounds) written junk place
        (put {front} {rest} {out} f r q) h p e room =
      let fits : length front + (length repl + length out) < length junk =
        omega (arith, ap length q, length-append front (repl ++ out), length-append repl out) in
      let k = length s - length (placeholder ++ rest) in
      let prefix : k ≡ length front =
        omega (arith, First-shorter placeholder repl f, length-append placeholder rest) in
      let junk₁ = drop (length front) junk in
      let len₁ = length-drop (length front) junk (omega arith) in
      let junk₂ = drop (length repl) junk₁ in
      let len₂ = length-drop (length repl) junk₁ (omega arith) in
      let (tail, ih) =
        copy_loop-Replaces rounds ((written ++ front) ++ repl) junk₂ (place + k + length repl) r
          (omega (arith, First-shorter placeholder repl f)) p
          (omega (arith, length-append (written ++ front) repl, length-append written front))
          (omega arith) in
      (
        tail,
        rw
            (
              strstr-First f,
              copy_loop,
              front-of f,
              memcpy-append written junk front place e (omega arith),
              memcpy-append (written ++ front) junk₁ repl (place + k)
                  (omega (arith, length-append written front)) (omega arith),
              drop-append placeholder rest,
            )
            (ih ∙ ap ok (regroup written front repl out (0 ∷ tail) q)),
      )
