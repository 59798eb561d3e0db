-- ===== src/Str/Finds.antt =====
-- What `strstr` finds.
use phxargs.Base.{
  ℕ, ◌≡◌, refl, ap, ◌∙◌, ◌⊎◌, inl, inr, true, false, [], ◌∷◌, ◌++◌, some, none, Bool-cases, arith,
}
use phxargs.Base.Strings.{Str}
use phxargs.Str.{starts_with, strstr}

-- The string begins with the needle.
abbrev pub Begins : Str → Str → Type 0
Begins needle s = (rest : Str) × (s ≡ needle ++ rest)

-- The needle stands behind `front`, and at no place before; `rest` follows it.
pub data First (needle : Str) : Str → Str → Str → Type 0 where
  here : {s rest : Str} → s ≡ needle ++ rest → First needle s [] rest
  there :
      {c : ℕ} {s front rest : Str}
      → ¬ Begins needle (c ∷ s)
      → First needle s front rest
      → First needle (c ∷ s) (c ∷ front) rest

-- The needle stands at no place.
pub data Absent (needle : Str) : Str → Type 0 where
  ends : ¬ Begins needle [] → Absent needle []
  skips : {c : ℕ} {s : Str} → ¬ Begins needle (c ∷ s) → Absent needle s → Absent needle (c ∷ s)

starts_with-Begins : (needle s : Str) → starts_with needle s ≡ true → Begins needle s
unfolding starts_with
starts_with-Begins [] s h = (s, refl)
starts_with-Begins (n ∷ needle) [] h = cc
starts_with-Begins (n ∷ needle) (c ∷ s) h =
    let (rest, e) = starts_with-Begins needle s (ground arith) in (rest, ground arith)

starts_with-append : (needle rest : Str) → starts_with needle (needle ++ rest) ≡ true
unfolding starts_with
starts_with-append [] rest = refl
starts_with-append (n ∷ needle) rest = ground (arith, starts_with-append needle rest)

not_Begins : (needle s : Str) → starts_with needle s ≡ false → ¬ Begins needle s
not_Begins needle s h (rest, e) =
    absurd (cc (starts_with-append needle rest, ap (starts_with needle) e))

pub First-append :
    {needle s front rest : Str} → First needle s front rest → s ≡ front ++ (needle ++ rest)
First-append (here e) = e
First-append (there {c} absent f) = ap (◌∷◌ c) (First-append f)

-- `strstr` gives the string from the first occurrence on, or NULL where there is none.
pub strstr-cases :
    (s needle : Str)
    → Absent needle s × (strstr s needle ≡ none)
      ⊎ (front : Str) × (rest : Str) × First needle s front rest
        × (strstr s needle ≡ some (needle ++ rest))
unfolding strstr
strstr-cases [] needle = elim (Bool-cases (starts_with needle [])) [
  | inl yes_here ↦
      let (rest, e) = starts_with-Begins needle [] yes_here in
      inr ([], rest, here e, rw yes_here (ap some e))
  | inr not_here ↦ inl (ends (not_Begins _ _ not_here), rw not_here refl)
]
strstr-cases (c ∷ s) needle = elim (Bool-cases (starts_with needle (c ∷ s))) [
  | inl yes_here ↦
      let (rest, e) = starts_with-Begins needle (c ∷ s) yes_here in
      inr ([], rest, here e, rw yes_here (ap some e))
  | inr not_here ↦ elim (strstr-cases s needle) [
    | inl (absent, e) ↦ inl (skips (not_Begins _ _ not_here) absent, rw not_here e)
    | inr (front, rest, f, e) ↦
        inr (c ∷ front, rest, there (not_Begins _ _ not_here) f, rw not_here e)
  ]
]

Begins-starts_with : (needle s : Str) → ¬ Begins needle s → starts_with needle s ≡ false
Begins-starts_with needle s absent = elim (Bool-cases (starts_with needle s)) [
  | inl yes_here ↦ absurd (absent (starts_with-Begins needle s yes_here))
  | inr not_here ↦ not_here
]

strstr-Begins : (needle s rest : Str) → s ≡ needle ++ rest → strstr s needle ≡ some (needle ++ rest)
unfolding strstr
strstr-Begins needle [] rest e =
    rw (ap (starts_with needle) e ∙ starts_with-append needle rest) (ap some e)
strstr-Begins needle (c ∷ s) rest e =
    rw (ap (starts_with needle) e ∙ starts_with-append needle rest) (ap some e)

pub strstr-First :
    {needle s front rest : Str}
    → First needle s front rest
    → strstr s needle ≡ some (needle ++ rest)
unfolding strstr
strstr-First {needle} {s} {rest} (here e) = strstr-Begins needle s rest e
strstr-First {needle} (there {c} {s} absent f) =
    rw (Begins-starts_with needle (c ∷ s) absent) (strstr-First f)

pub strstr-Absent : {needle s : Str} → Absent needle s → strstr s needle ≡ none
unfolding strstr
strstr-Absent {needle} (ends absent) = rw (Begins-starts_with needle [] absent) refl
strstr-Absent {needle} (skips {c} {s} absent f) =
    rw (Begins-starts_with needle (c ∷ s) absent) (strstr-Absent f)
