-- ===== src/Exec/Running.antt =====
-- exec/exec.go: `RunParams` with its `Run` and `Wait`, and `RunCommands`. What the package os/exec makes of a
-- command is the parameter `System`.
use juju_utils.Common.{
  ℕ, ◌≡◌, refl, Bool, true, false, Option, none, some, List, [], ◌∷◌, if◌then◌else◌, ◌==◌,
}
use juju_utils.Common.Bytes.{Bytes, bytes_eq, codes}
use juju_utils.Common.Results.{Result, ok, err}
use juju_utils.Exec.{merge_environment}

-- `exec.Cmd`, before it starts; an environment or a directory that is not given is that of this process.
pub record Command : Type 0 where
  pub path : Bytes
  pub args : List Bytes
  pub env : Option (List Bytes)
  pub dir : Option Bytes
  pub stdin : Bytes

pub data WaitStatus : Type 0 where
  exited signalled : ℕ → WaitStatus

-- The errors of `Cmd.Wait`: an `ExitError`, or another one.
pub data WaitError (E : Type 0) : Type 0 where
  exit_error : WaitStatus → WaitError E
  other_error : E → WaitError E

-- What a process writes, and what `Cmd.Wait` returns for it.
pub record Process (E : Type 0) : Type 0 where
  pub stdout : Bytes
  pub stderr : Bytes
  pub ending : Option (WaitError E)

pub record System (E : Type 0) : Type 0 where
  pub is_windows : Bool
  pub environ : List Bytes
  pub start : Command → Result E (Process E)
  pub not_started : E

-- A command that has been started, or has failed to start, is the process that there is.
pub record RunParams (E : Type 0) : Type 0 where
  pub commands : Bytes
  pub working_dir : Bytes
  pub environment : Option (List Bytes)
  pub ps : Option (Option (Process E))

pub record ExecResponse : Type 0 where
  pub code : ℕ
  pub stdout : Bytes
  pub stderr : Bytes

pub data ExecError (E : Type 0) : Type 0 where
  failed : E → ExecError E
  killed : ℕ → ExecError E
  no_process_started : ExecError E

-- `shellAndArgs`.
unfoldable pub shell_and_args : Bool → Bytes × List Bytes
shell_and_args true = (
  codes "powershell.exe",
  codes "-noprofile"
      ∷ codes "-noninteractive"
      ∷ codes "-command"
      ∷ codes "try{$input|iex; exit $LastExitCode}catch{Write-Error -Message $Error[0]; exit 1}"
      ∷ [],
)
shell_and_args false = (codes "/bin/bash", codes "-s" ∷ [])

module _ {E : Type 0} (s : System E) where
  abbrev pub as_dir : Bytes → Option Bytes
  as_dir d = if d == [] then none else some d

  abbrev pub command_for : Bytes × List Bytes → RunParams E → Command
  command_for (shell, args) r = record {
    path = shell;
    args = args;
    env = r.environment;
    dir = as_dir r.working_dir;
    stdin = r.commands;
  }

  abbrev pub started : RunParams E → Result E (Process E) → Option E × RunParams E
  started r (ok p) = (none, record r { ps = some (some p) })
  started r (err e) = (some e, record r { ps = some none })

  abbrev pub with_environment :
      RunParams E
      → Option (Option (List Bytes))
      → (RunParams E → Option E × RunParams E)
      → Option (Option E × RunParams E)
  with_environment r none next = none
  with_environment r (some env) next = some (next (record r { environment = env }))

  abbrev pub start_shell : RunParams E → Option E × RunParams E
  start_shell r = started r (s.start (command_for (shell_and_args s.is_windows) r))

  -- `Run`; a panic is `none`.
  unfoldable pub run : RunParams E → Option (Option E × RunParams E)
  unfolding merge_environment shell_and_args
  run r =
      if s.is_windows
      then with_environment r (merge_environment s.environ r.environment) start_shell
      else some (start_shell r)

  -- The end of `Wait`: a status other than 0 is no error.
  abbrev pub code_of : Option (WaitError E) → ℕ
  code_of (some (exit_error (exited n))) = n
  code_of (some (exit_error (signalled n))) = 0
  code_of (some (other_error e)) = 0
  code_of none = 0

  abbrev pub error_of : Option (WaitError E) → Option (ExecError E)
  error_of (some (exit_error (exited n))) = none
  error_of (some (exit_error (signalled n))) = some (killed n)
  error_of (some (other_error e)) = some (failed e)
  error_of none = none

  abbrev pub response : Process E → ExecResponse
  response p = record { code = code_of p.ending; stdout = p.stdout; stderr = p.stderr }

  -- `Wait`.
  unfoldable pub wait : Option (Option (Process E)) → Option ExecResponse × Option (ExecError E)
  wait none = (none, some no_process_started)
  wait (some none) =
      (some (record { code = 0; stdout = []; stderr = [] }), some (failed s.not_started))
  wait (some (some p)) = (some (response p), error_of p.ending)

  -- `RunCommands`.
  abbrev pub waited :
      Option (Option E × RunParams E) → Option (Option ExecResponse × Option (ExecError E))
  waited none = none
  waited (some (some e, r)) = some (none, some (failed e))
  waited (some (none, r)) = some (wait r.ps)

  unfoldable pub run_commands : RunParams E → Option (Option ExecResponse × Option (ExecError E))
  unfolding run wait
  run_commands r = waited (run r)

  -- Except on Windows, commands that exit give their output and status without an error, whatever the status,
  -- and the process has had exactly the environment, the directory and the commands of the parameters.
  pub run_commands_exited :
      (r : RunParams E) (p : Process E) (n : ℕ)
      → s.is_windows ≡ false
      → s.start (command_for (codes "/bin/bash", codes "-s" ∷ []) r) ≡ ok p
      → p.ending ≡ some (exit_error (exited n))
      → run_commands r
        ≡ some (some (record { code = n; stdout = p.stdout; stderr = p.stderr }), none)
  unfolding run_commands run wait shell_and_args
  run_commands_exited r p n unix start ending = rw (unix, start, ending) refl
