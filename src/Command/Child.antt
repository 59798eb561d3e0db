-- ===== src/Command/Child.antt =====
-- The child's side of a launch: the trace, the question, and the replacement of the process.
use phxargs.Base.{
  ℕ, ◌+◌, ◌≤◌, ◌≡◌, ◌≢◌, refl, sym, ap, ◌∙◌, Bool, true, false, not, ◌&&◌, ◌||◌, List, [], ◌∷◌,
  ◌++◌, Option, none, some, Outcome, ok, exit, undefined, exit_success, exit_failure, ◌>>=◌, ltb,
  ltb-false, ◌==◌, if◌then◌else◌, length, take, length-append, append_assoc, append-nil,
  take-length, arith,
}
use phxargs.Base.Strings.{Str}
use phxargs.Stream.{Stream}
use phxargs.ExitCodes.{
  phxargs_status_internal_error, phxargs_status_not_found, phxargs_status_not_executable,
}
use phxargs.Command.{Command, build_exec_args}

-- What `execvp` does: it does not return, or it fails with an error number.
pub data Exec : Type 0 where
  replaces_process : Exec
  fails_e2big : Exec
  fails_enoent : Exec
  fails_otherwise : Exec

-- What a child asks the system for: what `fopen` gives for the terminal, whether `freopen` succeeds
-- with it, and what `execvp` does.
pub record ChildSystem : Type 0 where
  pub tty : Option Stream
  pub reopens : Bool
  pub execvp : List Str → Exec

unfoldable pub phxargs_exec : ChildSystem → List Str → Bool → Outcome (List Str)
phxargs_exec system exec_args open_tty =
    if open_tty && not system.reopens then exit exit_failure else elim (system.execvp exec_args) [
      | replaces_process ↦ ok exec_args
      | fails_e2big ↦ exit phxargs_status_internal_error
      | fails_enoent ↦ exit phxargs_status_not_found
      | fails_otherwise ↦ exit phxargs_status_not_executable
    ]

-- `while ((ch = fgetc(tty)) != '\n' && ch != EOF)`: what is left to read.
unfoldable pub skip_line : List ℕ → List ℕ
skip_line [] = []
skip_line (ch ∷ bytes) = if ch == b'\n' then bytes else skip_line bytes

-- Whether the answer is yes, and what the terminal still holds.
unfoldable pub confirm_execution : Option Stream → Outcome (Bool × List ℕ)
unfolding skip_line
confirm_execution none = exit exit_failure
confirm_execution (some tty) = elim tty.bytes [
  | [] ↦ ok (false, [])
  | first ∷ bytes ↦ ok (first == b'y' || first == b'Y', skip_line bytes)
]

-- The first loop of `write_trace`, which measures.
unfoldable pub trace_length : List Str → ℕ
trace_length [] = 0
trace_length (arg ∷ []) = length arg
trace_length (arg ∷ (next ∷ exec_args)) = length arg + 1 + trace_length (next ∷ exec_args)

-- Bytes are written behind those written before; beyond the block this is undefined.
unfoldable pub push : ℕ → Str → Str → Outcome Str
push size written bytes =
    if ltb size (length written + length bytes) then undefined else ok (written ++ bytes)

-- The second loop, which writes.
unfoldable pub trace_loop : ℕ → Str → List Str → Outcome Str
unfolding push
trace_loop size written [] = ok written
trace_loop size written (arg ∷ []) = push size written arg
trace_loop size written (arg ∷ (next ∷ exec_args)) = do
  with_arg ← push size written arg
  with_space ← push size with_arg (b' ' ∷ [])
  trace_loop size with_space (next ∷ exec_args)

-- `write` of `trace_len` bytes: those that have no value are undefined.
unfoldable pub written_out : ℕ → Str → Outcome Str
written_out trace_len written =
    if ltb (length written) trace_len then undefined else ok (take trace_len written)

-- What is written to stderr.
unfoldable pub write_trace : List Str → Bool → Outcome Str
unfolding trace_length trace_loop written_out
write_trace exec_args with_newline = do
  let trace_len = if with_newline then trace_length exec_args + 1 else trace_length exec_args
  text ← trace_loop (trace_len + 1) [] exec_args
  ended ← if with_newline then push (trace_len + 1) text (b'\n' ∷ []) else ok text
  written_out trace_len ended

-- The trace, and the arguments that the process is replaced with; or its exit.
unfoldable pub exec_child : ChildSystem → Command → Outcome (Str × List Str)
unfolding phxargs_exec confirm_execution write_trace
exec_child system cmd = do
  let exec_args = build_exec_args cmd
  trace ← if cmd.trace then write_trace exec_args (not cmd.prompt) else ok []
  (execute, _) ← if cmd.prompt then confirm_execution system.tty else ok (true, [])
  executed ← if execute then phxargs_exec system exec_args cmd.open_tty else exit exit_success
  ok (trace, executed)

-- The arguments with a space between each two.
abbrev pub joined : List Str → Str
joined [] = []
joined (arg ∷ []) = arg
joined (arg ∷ (next ∷ exec_args)) = arg ++ b' ' ∷ joined (next ∷ exec_args)

length-joined : (exec_args : List Str) → length (joined exec_args) ≡ trace_length exec_args
unfolding trace_length
length-joined [] = refl
length-joined (arg ∷ []) = refl
length-joined (arg ∷ next ∷ exec_args) =
    omega (
      arith,
      length-append arg (b' ' ∷ joined (next ∷ exec_args)),
      length-joined (next ∷ exec_args),
    )

push-ok :
    (size : ℕ) (written bytes : Str)
    → length written + length bytes ≤ size
    → push size written bytes ≡ ok (written ++ bytes)
unfolding push
push-ok size written bytes h = rw (ltb-false size (length written + length bytes) h) refl

trace_loop-joined :
    (size : ℕ) (written : Str) (exec_args : List Str)
    → length written + trace_length exec_args ≤ size
    → trace_loop size written exec_args ≡ ok (written ++ joined exec_args)
unfolding trace_loop trace_length
trace_loop-joined size written [] h = ap ok (sym (append-nil written))
trace_loop-joined size written (arg ∷ []) h = push-ok size written arg h
trace_loop-joined size written (arg ∷ next ∷ exec_args) h =
    rw
      (
        push-ok size written arg (omega arith),
        push-ok size (written ++ arg) (b' ' ∷ []) (omega (arith, length-append written arg)),
      )
      (trace_loop-joined size ((written ++ arg) ++ b' ' ∷ []) (next ∷ exec_args)
          (omega (arith, length-append written arg, length-append (written ++ arg) (b' ' ∷ [])))
        ∙ ap ok (
            append_assoc (written ++ arg) (b' ' ∷ []) (joined (next ∷ exec_args))
            ∙ append_assoc written arg (b' ' ∷ joined (next ∷ exec_args))))

written_out-all : (text : Str) → written_out (length text) text ≡ ok text
unfolding written_out
written_out-all text =
    rw (ltb-false (length text) (length text) (omega arith)) (ap ok (take-length text))

-- The trace is the arguments with a space between each two, with a newline behind them where it is
-- asked for; the block that is measured first holds it, and all that is written has a value.
pub write_trace-joined :
    (exec_args : List Str) (with_newline : Bool)
    → write_trace exec_args with_newline
      ≡ ok (if with_newline then joined exec_args ++ b'\n' ∷ [] else joined exec_args)
unfolding write_trace
write_trace-joined exec_args true =
    let text = joined exec_args in
    let size = length-joined exec_args in
    rw
      (
        trace_loop-joined (trace_length exec_args + 1 + 1) [] exec_args (omega arith),
        push-ok (trace_length exec_args + 1 + 1) text (b'\n' ∷ []) (omega (arith, size)),
      )
      (ap (λ n. written_out n (text ++ b'\n' ∷ []))
          (omega (arith, size, length-append text (b'\n' ∷ [])))
        ∙ written_out-all (text ++ b'\n' ∷ []))
write_trace-joined exec_args false =
    rw (trace_loop-joined (trace_length exec_args + 1) [] exec_args (omega arith)) (
      ap (λ n. written_out n (joined exec_args)) (sym (length-joined exec_args))
      ∙ written_out-all (joined exec_args))

abbrev pub NoNewline : Str → Type 0
NoNewline [] = Unit {0}
NoNewline (c ∷ line) = (c ≢ b'\n') × NoNewline line

skip_line-NoNewline : (line rest : Str) → NoNewline line → skip_line (line ++ b'\n' ∷ rest) ≡ rest
unfolding skip_line
skip_line-NoNewline [] rest h = refl
skip_line-NoNewline (c ∷ line) rest h = ground (arith, skip_line-NoNewline line rest h.1)

-- The first byte of the answer is read, and then all up to the next newline: the answer is a yes where
-- it begins with `y` or `Y`, and its line is read to the end. Where it is an empty line, it is a no, and
-- the line behind it is read as well.
pub confirm_execution_lem :
    (first : ℕ) (line rest : Str) (error : Bool)
    → NoNewline line
    → (confirm_execution (some (record { bytes = first ∷ (line ++ b'\n' ∷ rest); error = error }))
        ≡ ok (first == b'y' || first == b'Y', rest))
      × (confirm_execution (some (record { bytes = b'\n' ∷ (line ++ b'\n' ∷ rest); error = error }))
          ≡ ok (false, rest))
unfolding confirm_execution
confirm_execution_lem first line rest error h =
    let e = skip_line-NoNewline line rest h in
    (ap (λ left. ok (first == b'y' || first == b'Y', left)) e, ap (λ left. ok (false, left)) e)
