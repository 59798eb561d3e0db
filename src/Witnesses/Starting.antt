-- ===== src/Witnesses/Starting.antt =====
-- The creation of the program, and the child's side, at concrete inputs.
use phxargs.Base.{ℕ, ◌≡◌, ◌⊎◌, true, false, List, [], ◌∷◌, none, some, ok, exit, Yields}
use phxargs.Base.Int.{pos}
use phxargs.Base.Strings.{Str}
use phxargs.Command.{Command, build_exec_args}
use phxargs.Command.Child.{
  ChildSystem, fails_enoent, exec_child, write_trace, write_trace-joined, confirm_execution,
  confirm_execution_lem,
}
use phxargs.Command.ChildEnds.{Ends, Replaced, trace_of, exec_child-Ends}
use phxargs.Xargs.{System, xargs_create}
use phxargs.Xargs.Starting.{StartFails, IsStarted, xargs_create-IsStarted}
use phxargs.Witnesses.{steady}
use phxargs.Witnesses.Appender.{echo_mode}

-- No file can be opened, and the environment is empty.
abbrev pub small_system : System
small_system = record {
  kernel = steady;
  files = record { stdin = record { bytes = []; error = false }; fopen = λ path. none };
  environ = [];
  sc_arg_max = pos 2097152;
  char_is_signed = true;
}

-- -I % ls %
abbrev pub percent_line : List Str
percent_line = (b'-' ∷ b'I' ∷ []) ∷ (b'%' ∷ []) ∷ (b'l' ∷ b's' ∷ []) ∷ (b'%' ∷ []) ∷ []

xargs_create-IsStarted_example :
    Yields
      (StartFails small_system percent_line)
      (IsStarted small_system percent_line)
      (xargs_create small_system percent_line)
xargs_create-IsStarted_example = xargs_create-IsStarted small_system percent_line

write_trace-joined_example :
    write_trace ((b'l' ∷ b's' ∷ []) ∷ (b'a' ∷ []) ∷ []) true
    ≡ ok (b'l' ∷ b's' ∷ b' ' ∷ b'a' ∷ b'\n' ∷ [])
write_trace-joined_example = write_trace-joined ((b'l' ∷ b's' ∷ []) ∷ (b'a' ∷ []) ∷ []) true

confirm_execution_lem_example :
    (confirm_execution (some (record { bytes = b'y' ∷ b'e' ∷ b's' ∷ b'\n' ∷ []; error = false }))
      ≡ ok (true, []))
    × (confirm_execution (some (record { bytes = b'\n' ∷ b'e' ∷ b's' ∷ b'\n' ∷ []; error = false }))
        ≡ ok (false, []))
confirm_execution_lem_example =
    confirm_execution_lem b'y' (b'e' ∷ b's' ∷ []) [] false (λ e. cc, (λ e. cc, tt))

-- A terminal at which "n" is typed, on a system where nothing is found.
abbrev declining : ChildSystem
declining = record {
  tty = some (record { bytes = b'n' ∷ b'\n' ∷ []; error = false });
  reopens = true;
  execvp = λ exec_args. fails_enoent;
}

abbrev prompting : Command
prompting = record echo_mode.cmd { prompt = true; trace = true }

exec_child-Ends_example :
    (exec_child declining prompting ≡ ok (trace_of prompting, build_exec_args prompting))
      × Replaced declining prompting
    ⊎ ((code : ℕ) × (exec_child declining prompting ≡ exit code) × Ends declining prompting code)
exec_child-Ends_example = exec_child-Ends declining prompting
