-- ===== src/Guest/Exec.antt =====
-- `runExec` and `normalizeArgv` of cmd/agent/main.go.
use manta.Prelude.{
  ℕ, suc, ◌-◌, ◌*◌, ◌%◌, ◌≤◌, ◌⊎◌, inl, inr, Bool, true, false, List, [], ◌∷◌, Option, none, some,
  arith, length, take, length-take, if◌then◌else◌,
}
use manta.Prelude.Int.{ℤ, pos, negsuc, is_pos, pos_or}
use manta.Text.{Str, lit, is_empty}
use manta.Text.Trim.{trim_space}
use manta.Rpc.{ExecRequest, ExecResponse}
use manta.Server.Exec.Mode.{no_args}
use manta.Server.Exec.Timeout.{from_bits}

-- How `cmd.Wait` ends: an exit status (0 is a nil error), another error, or the timeout first.
pub data Ending : Type 0 where
  exited : ℤ → Ending
  wait_failed : Str → Ending
  late : Ending

-- What `exec.Command` is set to: the program and its arguments, the directory where one is given, and
-- what is added to the agent's environment.
pub record Command : Type 0 where
  pub argv : List Str
  pub dir : Option Str
  pub env : List Str

abbrev pub command : ExecRequest → List Str → Command
command req argv = record {
  argv = argv;
  dir = if is_empty (trim_space req.cwd) then none else some req.cwd;
  env = req.env;
}

-- What the system does with a command. The pipes and the start may fail; the ending
-- is looked at with the timeout in nanoseconds; the outputs are all that the command writes.
pub record Child : Type 0 where
  pub stdout_pipe : Option Str
  pub stderr_pipe : Option Str
  pub start : Option Str
  pub ending : ℤ → Ending
  pub stdout : Str
  pub stderr : Str

pub record ExecResult : Type 0 where
  pub response : ExecResponse
  pub failure : Option Str

-- inl is the error.
unfoldable pub normalize_argv : ExecRequest → Str ⊎ List Str
normalize_argv req =
    if req.use_shell
    then (if is_empty (trim_space req.cmd)
        then inl (lit "use_shell set but cmd is empty")
        else inr (lit "/bin/sh" ∷ lit "-lc" ∷ trim_space req.cmd ∷ []))
    else if no_args req.argv
    then (if is_empty (trim_space req.cmd)
        then inl (lit "argv is required when not using shell")
        else inl (lit "cmd provided without use_shell; provide argv or set use_shell"))
    else inr req.argv

-- `time.Duration(ms) * time.Millisecond` on int64
abbrev pub duration_of : ℤ → ℤ
duration_of (pos n) = from_bits ((n * 1000000) % 18446744073709551616)
duration_of (negsuc n) =
    from_bits
      ((18446744073709551616 - (suc n * 1000000) % 18446744073709551616) % 18446744073709551616)

-- 20 seconds where the request gives none
abbrev pub command_timeout : ℤ → ℤ
command_timeout ms = if is_pos (duration_of ms) then duration_of ms else pos 20000000000

-- 1 MiB where the request gives none
abbrev pub output_limit : ℤ → ℕ
output_limit n = pos_or n 1048576

abbrev pub only_code : ℕ → Str → ExecResult
only_code code e = record {
  response = record { exit_code = pos code; stdout = []; stderr = []; timed_out = false };
  failure = some e;
}

abbrev pub exit_code_of : Ending → ℤ
exit_code_of (exited code) = code
exit_code_of (wait_failed e) = pos 1
exit_code_of late = pos 124

abbrev pub failure_of : Ending → Option Str
failure_of (exited code) = none
failure_of (wait_failed e) = some e
failure_of late = none

abbrev pub is_late : Ending → Bool
is_late (exited code) = false
is_late (wait_failed e) = false
is_late late = true

abbrev pub finished : Child → ℕ → Ending → ExecResult
finished c limit ending = record {
  response = record {
    exit_code = exit_code_of ending;
    stdout = take limit c.stdout;
    stderr = take limit c.stderr;
    timed_out = is_late ending;
  };
  failure = failure_of ending;
}

abbrev pub started : Child → ExecRequest → Option Str → ExecResult
started c req (some e) = only_code 127 e
started c req none =
    finished c (output_limit req.max_output_bytes) (c.ending (command_timeout req.timeout_ms))

abbrev pub with_stderr : Child → ExecRequest → Option Str → ExecResult
with_stderr c req (some e) = only_code 1 e
with_stderr c req none = started c req c.start

abbrev pub with_stdout : Child → ExecRequest → Option Str → ExecResult
with_stdout c req (some e) = only_code 1 e
with_stdout c req none = with_stderr c req c.stderr_pipe

abbrev pub with_argv : (Command → Child) → ExecRequest → Str ⊎ List Str → ExecResult
with_argv run req (inl e) = only_code 2 e
with_argv run req (inr argv) = let c = run (command req argv) in with_stdout c req c.stdout_pipe

unfoldable pub run_exec : (Command → Child) → ExecRequest → ExecResult
run_exec run req = with_argv run req (normalize_argv req)

abbrev IsBounded : ℕ → ExecResult → Type 0
IsBounded n r = (length r.response.stdout ≤ n) × (length r.response.stderr ≤ n)

started-IsBounded :
    (c : Child) (req : ExecRequest) (e : Option Str)
    → IsBounded (output_limit req.max_output_bytes) (started c req e)
started-IsBounded c req none =
    let n = output_limit req.max_output_bytes in
    (ground (arith, length-take n c.stdout), ground (arith, length-take n c.stderr))
started-IsBounded c req (some e) = (omega arith, omega arith)

stderr-IsBounded :
    (c : Child) (req : ExecRequest) (e : Option Str)
    → IsBounded (output_limit req.max_output_bytes) (with_stderr c req e)
stderr-IsBounded c req none = started-IsBounded c req c.start
stderr-IsBounded c req (some e) = (omega arith, omega arith)

stdout-IsBounded :
    (c : Child) (req : ExecRequest) (e : Option Str)
    → IsBounded (output_limit req.max_output_bytes) (with_stdout c req e)
stdout-IsBounded c req none = stderr-IsBounded c req c.stderr_pipe
stdout-IsBounded c req (some e) = (omega arith, omega arith)

argv-IsBounded :
    (run : Command → Child) (req : ExecRequest) (o : Str ⊎ List Str)
    → IsBounded (output_limit req.max_output_bytes) (with_argv run req o)
argv-IsBounded run req (inl e) = (omega arith, omega arith)
argv-IsBounded run req (inr argv) =
    let c = run (command req argv) in stdout-IsBounded c req c.stdout_pipe

-- However a command goes, each of its two outputs in the response is within the limit of the
-- request, or within 1 MiB where that gives no positive limit.
pub run_exec-IsBounded :
    (run : Command → Child) (req : ExecRequest)
    → let r = (run_exec run req).response in
      (length r.stdout ≤ output_limit req.max_output_bytes)
      × (length r.stderr ≤ output_limit req.max_output_bytes)
unfolding run_exec
run_exec-IsBounded run req = argv-IsBounded run req (normalize_argv req)
