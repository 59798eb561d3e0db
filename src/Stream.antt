-- ===== src/Stream.antt =====
-- The C library's input stream, as far as `getc` and `ferror` show it.
use phxargs.Base.{ℕ, Bool, List}

-- `bytes` is what `getc` still returns before EOF; `error` is what `ferror` says then.
pub record Stream : Type 0 where
  pub bytes : List ℕ
  pub error : Bool
