-- ===== src/World.antt =====
-- What the operating system answers, and what has happened so far. The answers are parameters of the
-- model; the history is what the theorems speak of.
use phxargs.Base.{ℕ, List, Option}
use phxargs.Base.Int.{ℤ}
use phxargs.Base.Strings.{Str}

-- The status of a child as <sys/wait.h> takes it apart.
pub data RawStatus : Type 0 where
  exited : ℕ → RawStatus
  signalled : ℕ → RawStatus
  stopped : RawStatus

-- The answers to a call of `waitpid` that is made again while it is interrupted.
pub data WaitAnswer : Type 0 where
  interrupted : WaitAnswer → WaitAnswer
  failed : WaitAnswer
  child : ℕ → RawStatus → WaitAnswer

pub data Signal : Type 0 where
  sigusr1 sigusr2 : Signal

-- `fork n` is the pid that the n-th fork gives the parent (`none` if it fails). `waitpid n pids`
-- answers the n-th wait, while `pids` run. `before n` and `between n` are the signals that arrive
-- before the n-th adjustment of the limit, and between its two looks at the counters.
pub record Kernel : Type 0 where
  pub fork : ℕ → Option ℕ
  pub waitpid : ℕ → List ℕ → WaitAnswer
  pub before : ℕ → List Signal
  pub between : ℕ → List Signal
  pub sc_child_max : ℤ

-- How often the kernel has been asked, and the history: the children launched, with their
-- arguments, and those reaped, with their statuses, the latest first.
pub record World : Type 0 where
  pub forks : ℕ
  pub waits : ℕ
  pub adjustments : ℕ
  pub launched : List (ℕ × List Str)
  pub reaped : List (ℕ × RawStatus)
