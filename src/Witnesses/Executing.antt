-- ===== src/Witnesses/Executing.antt =====
-- One execution of the command of a mode at a concrete input.
use phxargs.Base.{[], Yields}
use phxargs.XargsMode.{xargs_mode_execute_command}
use phxargs.XargsMode.Launches.{LaunchFails}
use phxargs.XargsMode.Executes.{Execution, execute_command-Execution}
use phxargs.Witnesses.{steady, steady-IsLawful}
use phxargs.Witnesses.Appender.{echo_mode, echo_mode-Serves}

execute_command-Execution_example :
    Yields
      (LaunchFails steady echo_mode.cmd 0 [])
      (Execution echo_mode.cmd echo_mode [])
      (xargs_mode_execute_command steady echo_mode)
execute_command-Execution_example =
    execute_command-Execution steady echo_mode.cmd echo_mode [] steady-IsLawful
      echo_mode-Serves.tracks
