-- ===== src/AppenderMode/Batches/Moves.antt =====
-- How the limits of the batches are kept when an argument is added, and when a batch is launched.
use mathlib.Core.Path.{subst}
use phxargs.Base.{
  ◌≤◌, ◌<◌, ◌≡◌, refl, sym, ap, inl, inr, Bool, true, List, [], ◌∷◌, ◌++◌, length, length-append,
  arith, none, some, Bool-cases, ltb,
}
use phxargs.Base.Strings.{Str}
use phxargs.CommandArgs.Refines.{bytes_of, bytes_of-append}
use phxargs.Command.{Command}
use phxargs.AppenderMode.Batches.{
  size_of, Limited, Admitted, first_of, IsFull, EachFull, Room, Sound, Within, Cleared, Sent,
  full_lines,
}

pub empty-Limited : (base : Command) → Limited base []
empty-Limited base = record { number = inr (omega arith); size = inr (inl refl) }

-- There is room for any argument in an empty batch.
pub empty-Room :
    (base : Command) (batches : List (List Str)) (token : Str)
    → EachFull base batches (some token)
    → Room base batches [] token
empty-Room base batches token f = record {
  full = f;
  number = elim (Bool-cases (ltb 0 base.max_args)) [
    | inl some_max ↦ inr (ground (arith, some_max))
    | inr no_max ↦ inl (ground (arith, no_max))
  ];
  size = inr (inl refl);
}

pub Room-Admitted :
    {base : Command} {batches : List (List Str)} (items : List Str) (token : Str)
    → Room base batches items token
    → Admitted base (items ++ token ∷ [])
unfolding bytes_of
Room-Admitted {base} items token r =
    let longer = length-append items (token ∷ []) in
    record {
      number = elim r.number [
        | inl unlimited ↦ inl unlimited
        | inr below ↦ inr (omega (arith, longer))
      ];
      size = elim r.size [
        | inl short ↦ inl (omega (arith, bytes_of-append items (token ∷ [])))
        | inr (inl empty) ↦ inr (inl (omega (arith, longer, ap length empty)))
        | inr (inr (inl lines)) ↦ inr (inr (inl lines))
        | inr (inr (inr strict)) ↦ inr (inr (inr strict))
      ];
    }

pub Admitted-Limited :
    {base : Command} {batch : List Str}
    → Admitted base batch
    → (base.terminate_on_too_large_command ≡ true → size_of base batch ≤ base.max_length)
    → Limited base batch
Admitted-Limited {base} a checked = record {
  number = a.number;
  size = elim (Bool-cases base.terminate_on_too_large_command) [
    | inl strict ↦ inl (checked strict)
    | inr lax ↦ elim a.size [
      | inl short ↦ inl short
      | inr (inl one) ↦ inr (inr (lax, inl one))
      | inr (inr (inl lines)) ↦ inr (inr (lax, inr lines))
      | inr (inr (inr strict)) ↦ absurd (cc)
    ]
  ];
}

pub Sound-flushed :
    {base : Command} {batches : List (List Str)} {items : List Str}
    → Sound base batches items
    → 0 < length items
    → Sound base (items ∷ batches) []
Sound-flushed {base} s some_held = record {
  limited = (s.held, s.limited);
  filled = (some_held, s.filled);
  full = (tt, s.full);
  held = empty-Limited base;
}

pub Within-flushed :
    {base : Command} {batches : List (List Str)} {items : List Str}
    → Sound base batches items
    → 0 < length items
    → base.line_mode ≡ true
    → Within base (items ∷ batches) []
Within-flushed s some_held lines = record {
  sound = Sound-flushed s some_held;
  resting = inr (inr lines);
}

pub Cleared-flushed :
    {base : Command} {batches : List (List Str)} {items : List Str} (token : Str)
    → Sound base batches items
    → 0 < length items
    → IsFull base items token
    → Cleared base token (items ∷ batches) []
Cleared-flushed token s some_held f = record {
  sound = Sound-flushed s some_held;
  room = inr (f, s.full);
}

-- In lines, what has been launched is full before anything.
full_before :
    (base : Command) (batches : List (List Str)) (token : Str)
    → base.line_mode ≡ true
    → EachFull base batches none
    → EachFull base batches (some token)
full_before base [] token lines f = tt
full_before base (batch ∷ batches) token lines f = (full_lines lines, f.1)

-- Between two tokens the batches are full before a token that is added to the items.
pub Within-full :
    {base : Command} {batches : List (List Str)} (items : List Str) (token : Str)
    → Within base batches items
    → EachFull base batches (first_of (items ++ token ∷ []))
Within-full (item ∷ items) token w = w.sound.full
Within-full {base} {batches} [] token w = elim w.resting [
  | inl some_held ↦ absurd (omega arith)
  | inr (inl none_launched) ↦ subst (λ b. EachFull base b (some token)) (sym none_launched) tt
  | inr (inr lines) ↦ full_before base batches token lines w.sound.full
]

pub Sound-Sent :
    {base : Command} {suppress : Bool} {tokens : List Str} {batches : List (List Str)}
    {items : List Str}
    → Sound base batches items
    → 0 < length tokens
    → Sent base suppress tokens batches items
Sound-Sent s some_token = record {
  limited = s.limited;
  filled = inl (some_token, s.filled);
  full = s.full;
}
