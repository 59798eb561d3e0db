-- ===== src/Command/ChildEnds.antt =====
-- How a child ends: its process is replaced, or it exits for a reason.
use phxargs.Base.{
  ℕ, ◌≡◌, ◌≢◌, ◌⊎◌, refl, ap, inl, inr, Bool, true, false, not, ◌&&◌, ◌==◌, List, [], ◌∷◌, ◌++◌,
  Option, none, some, Outcome, ok, exit, Bool-cases, if◌then◌else◌, arith,
}
use phxargs.Base.Strings.{Str}
use phxargs.Stream.{Stream}
use phxargs.Command.{Command, build_exec_args}
use phxargs.Command.Child.{
  Exec, replaces_process, fails_e2big, fails_enoent, fails_otherwise, ChildSystem, phxargs_exec,
  skip_line, confirm_execution, write_trace, exec_child, joined, write_trace-joined,
}

-- What the child writes to stderr.
abbrev pub trace_of : Command → Str
trace_of cmd =
    if cmd.trace
    then if not cmd.prompt
      then joined (build_exec_args cmd) ++ b'\n' ∷ []
      else joined (build_exec_args cmd)
    else []

-- The answer at the terminal begins with `y` or `Y`.
pub data Agrees (tty : Option Stream) : Type 0 where
  small_y :
      {stream : Stream} {bytes : List ℕ}
      → tty ≡ some stream
      → stream.bytes ≡ b'y' ∷ bytes
      → Agrees tty
  capital_y :
      {stream : Stream} {bytes : List ℕ}
      → tty ≡ some stream
      → stream.bytes ≡ b'Y' ∷ bytes
      → Agrees tty

-- The terminal gives no answer, or one that begins with another byte.
pub data Declines (tty : Option Stream) : Type 0 where
  says_nothing : {stream : Stream} → tty ≡ some stream → stream.bytes ≡ [] → Declines tty
  says_no :
      {stream : Stream} {first : ℕ} {bytes : List ℕ}
      → tty ≡ some stream
      → stream.bytes ≡ first ∷ bytes
      → first ≢ b'y'
      → first ≢ b'Y'
      → Declines tty

-- The command may be executed: the question is not to be asked, or it is answered with a yes.
abbrev pub Granted : ChildSystem → Command → Type 0
Granted system cmd = (cmd.prompt ≡ false) ⊎ (cmd.prompt ≡ true) × Agrees system.tty

-- The standard input is as the command asks for.
abbrev pub InputReady : ChildSystem → Command → Type 0
InputReady system cmd = (cmd.open_tty ≡ false) ⊎ (system.reopens ≡ true)

-- Why a child exits with a status.
pub data Ends (system : ChildSystem) (cmd : Command) : ℕ → Type 0 where
  declined : cmd.prompt ≡ true → Declines system.tty → Ends system cmd 0
  no_terminal : cmd.prompt ≡ true → system.tty ≡ none → Ends system cmd 1
  no_standard_input :
      Granted system cmd → cmd.open_tty ≡ true → system.reopens ≡ false → Ends system cmd 1
  too_long :
      Granted system cmd
      → InputReady system cmd
      → system.execvp (build_exec_args cmd) ≡ fails_e2big
      → Ends system cmd 125
  not_found :
      Granted system cmd
      → InputReady system cmd
      → system.execvp (build_exec_args cmd) ≡ fails_enoent
      → Ends system cmd 127
  not_executable :
      Granted system cmd
      → InputReady system cmd
      → system.execvp (build_exec_args cmd) ≡ fails_otherwise
      → Ends system cmd 126

-- The process is replaced: nothing stands in the way of it, and `execvp` succeeds.
pub record Replaced (system : ChildSystem) (cmd : Command) : Type 0 where
  pub granted : Granted system cmd
  pub input_ready : InputReady system cmd
  pub succeeds : system.execvp (build_exec_args cmd) ≡ replaces_process

abbrev Execs : ChildSystem → Command → Outcome (List Str) → Type 0
Execs system cmd m =
    (m ≡ ok (build_exec_args cmd)) × Replaced system cmd
    ⊎ ((code : ℕ) × (m ≡ exit code) × Ends system cmd code)

Exec-cases :
    (e : Exec)
    → (e ≡ replaces_process) ⊎ ((e ≡ fails_e2big) ⊎ ((e ≡ fails_enoent) ⊎ (e ≡ fails_otherwise)))
Exec-cases replaces_process = inl refl
Exec-cases fails_e2big = inr (inl refl)
Exec-cases fails_enoent = inr (inr (inl refl))
Exec-cases fails_otherwise = inr (inr (inr refl))

reopening-cases :
    (open_tty reopens : Bool)
    → ((open_tty && not reopens) ≡ true) × (open_tty ≡ true) × (reopens ≡ false)
      ⊎ ((open_tty && not reopens) ≡ false) × ((open_tty ≡ false) ⊎ (reopens ≡ true))
reopening-cases true true = inr (refl, inr refl)
reopening-cases true false = inl (refl, refl, refl)
reopening-cases false reopens = inr (refl, inl refl)

phxargs_exec-Execs :
    (system : ChildSystem) (cmd : Command)
    → Granted system cmd
    → Execs system cmd (phxargs_exec system (build_exec_args cmd) cmd.open_tty)
unfolding phxargs_exec
phxargs_exec-Execs system cmd agreed = elim (reopening-cases cmd.open_tty system.reopens) [
  | inl (closed, opens, fails) ↦ inr (1, rw closed refl, no_standard_input agreed opens fails)
  | inr (fits, ready) ↦ elim (Exec-cases (system.execvp (build_exec_args cmd))) [
    | inl runs ↦
        inl
          (rw (fits, runs) refl, record { granted = agreed; input_ready = ready; succeeds = runs })
    | inr (inl big) ↦ inr (125, rw (fits, big) refl, too_long agreed ready big)
    | inr (inr (inl missing)) ↦ inr (127, rw (fits, missing) refl, not_found agreed ready missing)
    | inr (inr (inr bad)) ↦ inr (126, rw (fits, bad) refl, not_executable agreed ready bad)
  ]
]

-- What the answer at the terminal says, and what `confirm_execution` makes of it.
data Answers (tty : Option Stream) : Type 0 where
  closed : tty ≡ none → confirm_execution tty ≡ exit 1 → Answers tty
  answers_no :
      {left : List ℕ} → Declines tty → confirm_execution tty ≡ ok (false, left) → Answers tty
  answers_yes : {left : List ℕ} → Agrees tty → confirm_execution tty ≡ ok (true, left) → Answers tty

byte-cases : (first : ℕ) → (first ≡ b'y') ⊎ ((first ≡ b'Y') ⊎ (first ≢ b'y') × (first ≢ b'Y'))
byte-cases first = elim (Bool-cases (first == b'y')) [
  | inl small ↦ inl (ground (arith, small))
  | inr not_small ↦ elim (Bool-cases (first == b'Y')) [
    | inl capital ↦ inr (inl (ground (arith, capital)))
    | inr other ↦
        inr
          (inr (λ e. absurd (ground (arith, e, not_small)), λ e. absurd (ground (arith, e, other))))
  ]
]

stream-Answers :
    (bytes : List ℕ) (error : Bool) → Answers (some (record { bytes = bytes; error = error }))
unfolding confirm_execution
stream-Answers [] error = answers_no (says_nothing refl refl) refl
stream-Answers (first ∷ bytes) error = elim (byte-cases first) [
  | inl e ↦ answers_yes {left = skip_line bytes} (small_y refl (ap (λ c. c ∷ bytes) e)) (rw e refl)
  | inr (inl e) ↦
      answers_yes {left = skip_line bytes} (capital_y refl (ap (λ c. c ∷ bytes) e)) (rw e refl)
  | inr (inr (other, never)) ↦
      answers_no {left = skip_line bytes} (says_no refl refl other never)
        (ground (arith, other, never))
]

confirm_execution-Answers : (tty : Option Stream) → Answers tty
unfolding confirm_execution
confirm_execution-Answers none = closed refl refl
confirm_execution-Answers (some stream) = stream-Answers stream.bytes stream.error

traced-ok :
    (cmd : Command)
    → (if cmd.trace then write_trace (build_exec_args cmd) (not cmd.prompt) else ok [])
      ≡ ok (trace_of cmd)
unfolding build_exec_args
traced-ok cmd = elim (Bool-cases cmd.trace) [
  | inl traces ↦ elim (Bool-cases cmd.prompt) [
    | inl prompts ↦ rw (traces, prompts) (write_trace-joined (build_exec_args cmd) false)
    | inr silent ↦ rw (traces, silent) (write_trace-joined (build_exec_args cmd) true)
  ]
  | inr quiet ↦ rw quiet refl
]

-- A child either has its process replaced, with the argument vector of the command, after it has
-- written the trace, if one is asked for; or it exits. It is replaced only where no question is to be
-- asked or the answer at the terminal begins with `y` or `Y`, and where the standard input has been
-- reopened from the terminal, if `-o` asks for it. It exits with 0 where the question is asked and
-- the answer begins with anything else or there is none; with 1 where the terminal cannot be opened
-- for the question, or for the standard input; and behind a yes, or without a question, with 125 where
-- the arguments are too long for the system, 127 where the command is not found, and 126 where it
-- cannot be executed.
pub exec_child-Ends :
    (system : ChildSystem) (cmd : Command)
    → (exec_child system cmd ≡ ok (trace_of cmd, build_exec_args cmd)) × Replaced system cmd
      ⊎ ((code : ℕ) × (exec_child system cmd ≡ exit code) × Ends system cmd code)
unfolding exec_child build_exec_args
exec_child-Ends system cmd =
    let traced = traced-ok cmd in
    elim (Bool-cases cmd.prompt) [
      | inr silent ↦ elim (phxargs_exec-Execs system cmd (inl silent)) [
        | inl (e, runs) ↦ inl (rw (traced, silent, e) refl, runs)
        | inr (code, e, ends) ↦ inr (code, rw (traced, silent, e) refl, ends)
      ]
      | inl prompts ↦ elim (confirm_execution-Answers system.tty) [
        | closed missing e ↦ inr (1, rw (traced, prompts, e) refl, no_terminal prompts missing)
        | answers_no other e ↦ inr (0, rw (traced, prompts, e) refl, declined prompts other)
        | answers_yes agreed e₁ ↦ elim (phxargs_exec-Execs system cmd (inr (prompts, agreed))) [
          | inl (e, runs) ↦ inl (rw (traced, prompts, e₁, e) refl, runs)
          | inr (code, e, ends) ↦ inr (code, rw (traced, prompts, e₁, e) refl, ends)
        ]
      ]
    ]
