-- ===== src/Server/Exec.antt =====
-- `handleExec` of cmd/server/handlers.go, and the parts of sshutil.go that it calls.
pub mod Mode
pub mod Timeout
pub mod Ends
use manta.Prelude.{
  ℕ, zero, suc, ◌+◌, ◌/◌, Bool, true, false, List, [], Option, none, some, String, ltb,
  if◌then◌else◌,
}
use manta.Prelude.Int.{ℤ, pos, negsuc}
use manta.Text.{Str, lit, is_empty, str_eq}
use manta.Text.Trim.{trim_space}
use manta.Rpc.{Request, Response, ExecResponse}
use manta.Types.{Config, Sandbox}
use manta.Machine.{
  Env, Error, Result, ok, err, World, M, pure, raise, ignore, need, observe, gets, catch, finally,
  ◌>>=◌, ◌>>◌, close_conn, sleep, ssh_dial, ssh_session, ssh_close, ssh_run, try,
}
use manta.Lifecycle.{try_start_exec, finish_exec}
use manta.Agent.{dial_agent, call, deadline}
use manta.Sandbox.{wrapped}
use manta.Server.{
  Reply, executed, bad_request, not_found, conflict, failed, panicked, modify_sandbox,
}
use manta.Server.Registry.{lookup}
use Mode.{Choice, refuse, run, select_mode}
use Timeout.{exec_timeout, milliseconds}

-- `execRequest` of types.go.
pub record ExecBody : Type 0 where
  pub sandbox_id : Str
  pub cmd : Str
  pub argv : List Str
  pub use_shell : Option Bool
  pub timeout_ms : ℤ

abbrev pub set_agent : Option ℕ → Sandbox → Sandbox
set_agent c sb = record sb { agent = c }

-- 150 * time.Millisecond
abbrev pub ssh_retry : ℕ
ssh_retry = 150000000

abbrev pub ssh_rounds : ℤ → ℕ
ssh_rounds (pos n) = n / ssh_retry + 1
ssh_rounds (negsuc n) = 0

module _ (env : Env) where
  -- One round of `waitForExecSSH`. `dialSSH` is one call here: it reads the key and dials.
  abbrev pub ssh_round : Str → ℕ → M (Unit {0}) → M (Unit {0})
  ssh_round ip until again = do
    now ← observe env.now
    let dial = (do done ← try env (ssh_dial ip); if done then pure tt else again)
    if ltb now until then dial else raise Error.ssh_dial_failed

  unfoldable pub ssh_loop : Str → ℕ → ℕ → M (Unit {0})
  ssh_loop ip until zero = ssh_round ip until (raise Error.out_of_fuel)
  ssh_loop ip until (suc fuel) =
      let rest = ssh_loop ip until fuel in ssh_round ip until (ignore env (sleep ssh_retry) >> rest)

  unfoldable pub wait_for_exec_ssh : Str → ℤ → M (Unit {0})
  wait_for_exec_ssh ip timeout = do
    now ← observe env.now
    ssh_loop ip (deadline now timeout) (ssh_rounds timeout)

  abbrev pub ssh_reply : Str × Str × ℕ → M Reply
  ssh_reply (out, errors, code) = pure (executed out errors (pos code))

  -- With a session: the command's outcome. A timeout is a failure of the run.
  abbrev pub ssh_command : Str → M Reply
  ssh_command cmd = do
    need env (ssh_run cmd) Error.ssh_exec_failed
    output ← observe env.ssh_output
    ssh_reply output

  -- The two closes are the deferred ones of the session and of the client.
  abbrev pub with_session : Str → M Reply
  with_session cmd = do
    need env ssh_session Error.ssh_session_failed
    finally (ignore env ssh_close) (ssh_command cmd)

  unfoldable pub exec_ssh : Config → Str → Str → M Reply
  exec_ssh cfg ip cmd = do
    wait_for_exec_ssh ip cfg.ssh_exec_wait
    finally (ignore env ssh_close) (with_session cmd)

  -- A new connection, which the sandbox keeps.
  unfoldable pub redial : Config → Str → Sandbox → M ℕ
  redial cfg id sb = do
    c ← dial_agent env sb.vsock_path cfg.agent_port cfg.agent_dial_timeout
    modify_sandbox id (set_agent (some c))
    pure c

  abbrev pub connection : Config → Str → Sandbox → Option ℕ → M ℕ
  connection cfg id sb none = redial cfg id sb
  connection cfg id sb (some c) = pure c

  -- After the first call: one more, on a new connection, where that failed.
  abbrev pub call_again : Config → Str → Sandbox → Request → ℕ → Result Response → M Response
  call_again cfg id sb req c (ok resp) = pure resp
  call_again cfg id sb req c (err e) = do
    ignore env (close_conn c)
    modify_sandbox id (set_agent none)
    c' ← redial cfg id sb
    call env c' req

  abbrev pub agent_reply : Option ExecResponse → Reply
  agent_reply none = panicked
  agent_reply (some r) = executed r.stdout r.stderr r.exit_code

  unfoldable pub exec_agent : Config → Str → Sandbox → Request → M Reply
  exec_agent cfg id sb req = do
    c ← connection cfg id sb sb.agent
    first ← catch (call env c req)
    resp ← call_again cfg id sb req c first
    pure (agent_reply resp.exec)

  abbrev pub agent_request : Config → ExecBody → Bool → Request
  agent_request cfg body shell = record {
    kind = lit "exec";
    exec = some (record {
      use_shell = shell;
      cmd = trim_space body.cmd;
      argv = body.argv;
      cwd = [];
      env = [];
      timeout_ms = milliseconds (exec_timeout cfg.exec_timeout body.timeout_ms);
      max_output_bytes = cfg.agent_max_output_b;
    });
    net = none;
  }

  abbrev pub unless : Bool → String → M Reply → M Reply
  unless bad text m = if bad then pure (bad_request text) else m

  abbrev pub replied : Result Reply → M Reply
  replied (ok reply) = pure reply
  replied (err e) = pure (failed e)

  -- An error of a transport is the text of a 500.
  abbrev pub or_failed : M Reply → M Reply
  or_failed m = do r ← catch m; replied r

  abbrev pub over_ssh : Config → ExecBody → Sandbox → Bool → M Reply
  over_ssh cfg body sb true = or_failed (exec_ssh cfg sb.guest_ip (trim_space body.cmd))
  over_ssh cfg body sb false = pure (bad_request "ssh transport only supports cmd (shell mode)")

  -- The value that the last text quotes is left out.
  unfoldable pub dispatch : Config → ExecBody → Sandbox → Bool → M Reply
  dispatch cfg body sb shell =
      if str_eq cfg.exec_transport (lit "ssh")
      then over_ssh cfg body sb shell
      else if is_empty cfg.exec_transport
      then or_failed (exec_agent cfg body.sandbox_id sb (agent_request cfg body shell))
      else if str_eq cfg.exec_transport (lit "agent")
      then or_failed (exec_agent cfg body.sandbox_id sb (agent_request cfg body shell))
      else pure (bad_request "unknown exec transport")

  abbrev pub exec_chosen : Config → ExecBody → Sandbox → Choice → M Reply
  exec_chosen cfg body sb (refuse text) = pure (bad_request text)
  exec_chosen cfg body sb (run shell) = dispatch cfg body sb shell

  unfoldable pub exec_command : ExecBody → Sandbox → M Reply
  exec_command body sb = do
    cfg ← gets (λ s. s.cfg)
    exec_chosen cfg body sb (select_mode (trim_space body.cmd) body.argv body.use_shell)

  abbrev pub exec_started : ExecBody → Option Sandbox → M Reply
  exec_started body none = pure (conflict "sandbox is closing")
  exec_started body (some sb) = do
    modify_sandbox body.sandbox_id (λ _. sb)
    finally (modify_sandbox body.sandbox_id finish_exec) (exec_command body sb)

  abbrev pub exec_found : ExecBody → Option Sandbox → M Reply
  exec_found body none = pure (not_found "sandbox not found")
  exec_found body (some sb) = exec_started body (try_start_exec sb)

  abbrev pub exec_named : ExecBody → M Reply
  exec_named body = do found ← gets (λ s. lookup body.sandbox_id s.sandboxes); exec_found body found

  unfoldable pub handle_exec : Option ExecBody → M Reply
  handle_exec none = pure (bad_request "invalid request body")
  handle_exec (some body) =
      if is_empty (trim_space body.sandbox_id)
      then pure (bad_request "sandbox_id is required")
      else exec_named body
