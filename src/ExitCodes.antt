-- ===== src/ExitCodes.antt =====
-- src/exit_codes.h.
use phxargs.Base.{ℕ}

abbrev pub phxargs_status_child_failed : ℕ
phxargs_status_child_failed = 123

abbrev pub phxargs_status_halt : ℕ
phxargs_status_halt = 124

abbrev pub phxargs_status_signalled : ℕ
phxargs_status_signalled = 125

abbrev pub phxargs_status_internal_error : ℕ
phxargs_status_internal_error = 125

abbrev pub phxargs_status_not_executable : ℕ
phxargs_status_not_executable = 126

abbrev pub phxargs_status_not_found : ℕ
phxargs_status_not_found = 127
