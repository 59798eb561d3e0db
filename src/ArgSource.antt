-- ===== src/ArgSource.antt =====
-- src/arg_source.c: where the input comes from.
use phxargs.Base.{Option, none, some, Outcome, ok, exit, exit_failure}
use phxargs.Base.Strings.{Str}
use phxargs.Stream.{Stream}

-- The standard input, and what `fopen` for reading answers.
pub record Files : Type 0 where
  pub stdin : Stream
  pub fopen : Str → Option Stream

unfoldable pub arg_source_open : Files → Option Str → Outcome Stream
arg_source_open files none = ok files.stdin
arg_source_open files (some path) = elim (files.fopen path) [
  | none ↦ exit exit_failure
  | some arg_source ↦ ok arg_source
]
