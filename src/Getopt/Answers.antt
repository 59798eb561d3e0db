-- ===== src/Getopt/Answers.antt =====
-- What the answers for any arguments are like.
use phxargs.Base.{ℕ, ◌≡◌, refl, ap, ◌⊎◌, inl, inr, List, [], ◌∷◌, ◌++◌, Option, none, some}
use phxargs.Base.Strings.{Str}
use phxargs.Getopt.{
  Answer, OptionKind, flag, takes_argument, unknown, kind_of, ArgumentKind, cluster_of,
  ends_options, operand, argument_kind, cluster_answers, getopt,
}

-- A missing argument, an unknown option, an option without an argument, or one with its argument.
pub data IsAnswer (answer : Answer) : Type 0 where
  missing : answer.opt ≡ b':' → IsAnswer answer
  invalid : answer.opt ≡ b'?' → IsAnswer answer
  plain : kind_of answer.opt ≡ flag → IsAnswer answer
  given :
      (arg : Str) → kind_of answer.opt ≡ takes_argument → answer.optarg ≡ some arg → IsAnswer answer

pub data AreAnswers : List Answer → Type 0 where
  no_answers : AreAnswers []
  answers_on :
      {answer : Answer} {answers : List Answer}
      → IsAnswer answer
      → AreAnswers answers
      → AreAnswers (answer ∷ answers)

AreAnswers-append : (xs ys : List Answer) → AreAnswers xs → AreAnswers ys → AreAnswers (xs ++ ys)
AreAnswers-append [] ys hx hy = hy
AreAnswers-append (x ∷ xs) ys (answers_on h hx) hy = answers_on h (AreAnswers-append xs ys hx hy)

-- An option that waits for the next argument.
abbrev pub Waits : Option ℕ → Type 0
Waits none = Unit {0}
Waits (some c) = kind_of c ≡ takes_argument

OptionKind-cases : (k : OptionKind) → (k ≡ flag) ⊎ ((k ≡ takes_argument) ⊎ (k ≡ unknown))
OptionKind-cases flag = inl refl
OptionKind-cases takes_argument = inr (inl refl)
OptionKind-cases unknown = inr (inr refl)

cluster_answers-AreAnswers :
    (cluster : Str) → AreAnswers (cluster_answers cluster).0 × Waits (cluster_answers cluster).1
unfolding cluster_answers
cluster_answers-AreAnswers [] = (no_answers, tt)
cluster_answers-AreAnswers (c ∷ []) = elim (OptionKind-cases (kind_of c)) [
  | inl e ↦ rw (e, cluster_answers) (answers_on (plain e) no_answers, tt)
  | inr (inl e) ↦ rw (e, cluster_answers) (no_answers, e)
  | inr (inr e) ↦ rw (e, cluster_answers) (answers_on (invalid refl) no_answers, tt)
]
cluster_answers-AreAnswers (c ∷ d ∷ cluster) =
    let (h, w) = cluster_answers-AreAnswers (d ∷ cluster) in
    elim (OptionKind-cases (kind_of c)) [
      | inl e ↦ rw (e, cluster_answers) (answers_on (plain e) h, w)
      | inr (inl e) ↦
          rw (e, cluster_answers) (answers_on (given (d ∷ cluster) e refl) no_answers, tt)
      | inr (inr e) ↦ rw (e, cluster_answers) (answers_on (invalid refl) h, w)
    ]

ArgumentKind-cases :
    (k : ArgumentKind)
    → ((cluster : Str) × (k ≡ cluster_of cluster)) ⊎ ((k ≡ ends_options) ⊎ (k ≡ operand))
ArgumentKind-cases (cluster_of cluster) = inl (cluster, refl)
ArgumentKind-cases ends_options = inr (inl refl)
ArgumentKind-cases operand = inr (inr refl)

pub getopt-AreAnswers :
    (pending : Option ℕ) (args : List Str)
    → Waits pending
    → AreAnswers (getopt pending args).answers
unfolding getopt
getopt-AreAnswers none [] w = no_answers
getopt-AreAnswers (some c) [] w = answers_on (missing refl) no_answers
getopt-AreAnswers (some c) (arg ∷ args) w =
    answers_on (given arg w refl) (getopt-AreAnswers none args tt)
getopt-AreAnswers none (arg ∷ args) w = elim (ArgumentKind-cases (argument_kind arg)) [
  | inl (cluster, e) ↦
      let (h, pending) = cluster_answers-AreAnswers cluster in
      rw (e, getopt)
        (AreAnswers-append _ _ h (getopt-AreAnswers (cluster_answers cluster).1 args pending))
  | inr (inl e) ↦ rw (e, getopt) no_answers
  | inr (inr e) ↦ rw (e, getopt) no_answers
]

-- The operands are what is left of the arguments, from some place on.
pub getopt-operands :
    (pending : Option ℕ) (args : List Str)
    → (front : List Str) × (args ≡ front ++ (getopt pending args).operands)
unfolding getopt
getopt-operands none [] = ([], refl)
getopt-operands (some c) [] = ([], refl)
getopt-operands (some c) (arg ∷ args) =
    let (front, e) = getopt-operands none args in (arg ∷ front, ap (◌∷◌ arg) e)
getopt-operands none (arg ∷ args) = elim (ArgumentKind-cases (argument_kind arg)) [
  | inl (cluster, k) ↦
      let (front, e) = getopt-operands (cluster_answers cluster).1 args in
      (arg ∷ front, rw (k, getopt) (ap (◌∷◌ arg) e))
  | inr (inl k) ↦ (arg ∷ [], rw (k, getopt) refl)
  | inr (inr k) ↦ ([], rw (k, getopt) refl)
]
