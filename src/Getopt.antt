-- ===== src/Getopt.antt =====
-- `getopt` of <unistd.h>, as POSIX describes it, for the string of options that src/options.c gives.
pub mod Answers
use phxargs.Base.{ℕ, ◌||◌, List, [], ◌∷◌, ◌++◌, Option, none, some, ◌==◌, if◌then◌else◌}
use phxargs.Base.Strings.{Str}

-- What one call of `getopt` gives: the value that it returns, and `optarg`.
pub record Answer : Type 0 where
  pub opt : ℕ
  pub optarg : Option Str

-- The answers before -1, and the operands: the arguments from `optind` on.
pub record Scan : Type 0 where
  pub answers : List Answer
  pub operands : List Str

-- How the string of options, ":0a:d:E:I:L:n:opP:rs:tx", has a character: with a colon behind it, without,
-- or not at all.
pub data OptionKind : Type 0 where
  flag : OptionKind
  takes_argument : OptionKind
  unknown : OptionKind

unfoldable pub kind_of : ℕ → OptionKind
kind_of c =
    if c == b'0' || c == b'o' || c == b'p' || c == b'r' || c == b't' || c == b'x'
    then flag
    else if c == b'a'
        || c == b'd'
        || c == b'E'
        || c == b'I'
        || c == b'L'
        || c == b'n'
        || c == b'P'
        || c == b's'
    then takes_argument
    else unknown

abbrev pub answered : ℕ → Option Str → Scan → Scan
answered opt optarg scan = record {
  answers = record { opt = opt; optarg = optarg } ∷ scan.answers;
  operands = scan.operands;
}

-- What kind of argument comes next: options behind a hyphen, `--`, or an operand.
pub data ArgumentKind : Type 0 where
  cluster_of : Str → ArgumentKind
  ends_options : ArgumentKind
  operand : ArgumentKind

unfoldable pub argument_kind : Str → ArgumentKind
argument_kind [] = operand
argument_kind (c ∷ []) = operand
argument_kind (c ∷ o ∷ []) =
    if c == b'-' then if o == b'-' then ends_options else cluster_of (o ∷ []) else operand
argument_kind (c ∷ o ∷ p ∷ os) = if c == b'-' then cluster_of (o ∷ p ∷ os) else operand

-- The answers for the options of one argument, and the option at its end that takes the next argument.
unfoldable pub cluster_answers : Str → List Answer × Option ℕ
unfolding kind_of
cluster_answers [] = ([], none)
cluster_answers (c ∷ []) = elim (kind_of c) [
  | flag ↦ (record { opt = c; optarg = none } ∷ [], none)
  | takes_argument ↦ ([], some c)
  | unknown ↦ (record { opt = b'?'; optarg = none } ∷ [], none)
]
cluster_answers (c ∷ d ∷ cluster) = elim (kind_of c) [
  | flag ↦
      let (answers, pending) = cluster_answers (d ∷ cluster) in
      (record { opt = c; optarg = none } ∷ answers, pending)
  | takes_argument ↦ (record { opt = c; optarg = some (d ∷ cluster) } ∷ [], none)
  | unknown ↦
      let (answers, pending) = cluster_answers (d ∷ cluster) in
      (record { opt = b'?'; optarg = none } ∷ answers, pending)
]

-- All answers for the arguments, the first of which belongs to the pending option, if there is one. An
-- option whose argument is missing is answered by a colon.
unfoldable pub getopt : Option ℕ → List Str → Scan
unfolding cluster_answers argument_kind
getopt none [] = record { answers = []; operands = [] }
getopt (some c) [] = answered b':' none (record { answers = []; operands = [] })
getopt (some c) (arg ∷ args) = answered c (some arg) (getopt none args)
getopt none (arg ∷ args) = elim (argument_kind arg) [
  | cluster_of cluster ↦
      let (answers, pending) = cluster_answers cluster in
      let scan = getopt pending args in
      record { answers = answers ++ scan.answers; operands = scan.operands }
  | ends_options ↦ record { answers = []; operands = args }
  | operand ↦ record { answers = []; operands = arg ∷ args }
]
