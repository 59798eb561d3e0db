-- ===== src/ReplacerMode/Arguments.antt =====
-- The replacement of the placeholder in the arguments of a command.
use mathlib.Core.Path.{subst}
use phxargs.Base.{
  ℕ, ◌+◌, ◌*◌, ◌^◌, ◌≤◌, ◌<◌, ◌≡◌, refl, ◌⊎◌, inl, inr, List, [], ◌∷◌, ◌++◌, some, ok, length,
  length-append, append-nil, append_assoc, arith,
}
use phxargs.Base.Strings.{Str, NoNul, NoNuls}
use phxargs.Util.{size_max}
use phxargs.Str.{str_replace, replace_in}
use phxargs.Str.Replaces.{Replaces, length-Replaces}
use phxargs.Str.Result.{removed-le, replace_in-Replaces}
use phxargs.CommandArgs.{CommandArgs}
use phxargs.CommandArgs.Refines as Args
use phxargs.CommandArgs.Refines.{bytes_of, command_args_add-room}
use phxargs.Command.{Command, replace_each, command_replace_args}

-- An argument with the placeholder replaced by the token; an empty placeholder replaces nothing.
pub data IsReplaced (placeholder token : Str) : Str → Str → Type 0 where
  copied : {arg : Str} → placeholder ≡ [] → IsReplaced placeholder token arg arg
  substituted :
      {arg out : Str} {n : ℕ}
      → 0 < length placeholder
      → Replaces placeholder token arg out n
      → IsReplaced placeholder token arg out

-- The arguments, each with the placeholder replaced by the token.
pub data ReplacesEach (placeholder token : Str) : List Str → List Str → Type 0 where
  replaces_none : ReplacesEach placeholder token [] []
  replaces_one :
      {arg out : Str} {args outs : List Str}
      → IsReplaced placeholder token arg out
      → ReplacesEach placeholder token args outs
      → ReplacesEach placeholder token (arg ∷ args) (out ∷ outs)

-- A limit on the lengths that leaves room for every replacement.
abbrev pub length_bound : ℕ
length_bound = 2 ^ 31

mul_bound : (n k m : ℕ) → n ≤ m → k ≤ m → n * k ≤ m * m
mul_bound n k m h h' = grind arith

occurrences-le : (n k l : ℕ) → 0 < k → n * k ≤ l → n ≤ l
occurrences-le n k l h h' = grind arith

str_replace-ok :
    (s placeholder repl out : Str)
    → 0 < length placeholder
    → replace_in s placeholder repl ≡ ok out
    → str_replace (some s) (some placeholder) (some repl) ≡ ok (some out)
unfolding str_replace
str_replace-ok s [] repl out h e = absurd (omega arith)
str_replace-ok s (c ∷ placeholder) repl out h e = rw e refl

str_replace-empty : (s repl : Str) → str_replace (some s) (some []) (some repl) ≡ ok (some s)
unfolding str_replace
str_replace-empty s repl = refl

empty-cases : (s : Str) → (s ≡ []) ⊎ (0 < length s)
empty-cases [] = inl refl
empty-cases (c ∷ s) = inr (omega arith)

module _ (placeholder token : Str) (token_whole : NoNul token)
    (token_short : length token ≤ length_bound) where
  -- A result from strings within the bound is far from the greatest size.
  fits :
      {arg out : Str} {n : ℕ}
      → 0 < length placeholder
      → Replaces placeholder token arg out n
      → length arg ≤ length_bound
      → length out < size_max
  fits {arg} {out} {n} nonempty r h =
      let few =
        occurrences-le n (length placeholder) (length arg) nonempty
          (removed-le placeholder token r) in
      let added = mul_bound n (length token) length_bound (omega arith) token_short in
      omega (arith, length-Replaces placeholder token r, added)

  str_replace-Replaces :
      (arg : Str)
      → 0 < length placeholder
      → NoNul arg
      → length arg ≤ length_bound
      → (out : Str) × IsReplaced placeholder token arg out
        × (str_replace (some arg) (some placeholder) (some token) ≡ ok (some out))
  str_replace-Replaces arg nonempty whole short =
      let (out, n, r, result) =
        replace_in-Replaces placeholder token arg nonempty whole token_whole (omega arith) in
      let below = fits nonempty r short in
      elim result [
        | inl (_, e) ↦
            (out, substituted nonempty r, str_replace-ok arg placeholder token out nonempty e)
        | inr (inl (full, _)) ↦ absurd (omega arith)
        | inr (inr (over, _)) ↦ absurd (omega arith)
      ]

  str_replace-IsReplaced :
      (arg : Str)
      → NoNul arg
      → length arg ≤ length_bound
      → (out : Str) × IsReplaced placeholder token arg out
        × (str_replace (some arg) (some placeholder) (some token) ≡ ok (some out))
  str_replace-IsReplaced arg whole short = elim (empty-cases placeholder) [
    | inl empty ↦ (arg, copied empty, rw empty (str_replace-empty arg token))
    | inr nonempty ↦ str_replace-Replaces arg nonempty whole short
  ]

  replace_each-ReplacesEach :
      (args done : List Str) (replaced : CommandArgs)
      → NoNuls args
      → bytes_of args ≤ length_bound
      → Args.Represents replaced done
      → length done + length args ≤ replaced.capacity
      → (outs : List Str) × (all : CommandArgs) × ReplacesEach placeholder token args outs
        × (replace_each (some placeholder) token replaced args ≡ ok all)
        × Args.Represents all (done ++ outs)
  unfolding replace_each bytes_of
  replace_each-ReplacesEach [] done replaced whole short r room =
      ([], replaced, replaces_none, refl, rw (append-nil done) r)
  replace_each-ReplacesEach (arg ∷ args) done replaced whole short r room =
      let (out, one, e) = str_replace-IsReplaced arg whole.0 (omega arith) in
      let (more, e', r', same) = command_args_add-room out r (omega (arith, r.counted)) in
      let (outs, all, each, e'', r'') =
        replace_each-ReplacesEach args (done ++ out ∷ []) more whole.1 (omega arith) r'
          (omega (arith, same, length-append done (out ∷ []))) in
      (
        out ∷ outs,
        all,
        replaces_one one each,
        rw (e, e') e'',
        subst (Args.Represents all) (append_assoc done (out ∷ []) outs) r'',
      )

  -- The word stays as it is, and the placeholder is replaced in the arguments behind it.
  pub command_replace_args-ReplacesEach :
      (cmd : Command) (word : Str) (args : List Str)
      → cmd.arg_placeholder ≡ some placeholder
      → cmd.fixed_args.args ≡ word ∷ args
      → NoNuls args
      → bytes_of args ≤ length_bound
      → Args.Represents cmd.replaced_fixed_args []
      → length (word ∷ args) ≤ cmd.replaced_fixed_args.capacity
      → (outs : List Str) × (all : CommandArgs) × ReplacesEach placeholder token args outs
        × (command_replace_args cmd token ≡ ok (record cmd { replaced_fixed_args = all }))
        × Args.Represents all (word ∷ outs)
  unfolding command_replace_args
  command_replace_args-ReplacesEach cmd word args given fixed whole short r room =
      let (with_word, e, r', same) = command_args_add-room word r (omega (arith, r.counted)) in
      let (outs, all, each, e', r'') =
        replace_each-ReplacesEach args (word ∷ []) with_word whole short r' (omega (arith, same)) in
      (outs, all, each, rw (fixed, given, e, e') refl, r'')
