-- ===== src/Sandbox/Restore.antt =====
-- `restoreSandboxFromArtifacts` of restore.go: a sandbox from a snapshot. The timings are left out.
pub mod Keeps
pub mod Failure
pub mod Ends
use manta.Prelude.{
  ℕ, zero, suc, ◌+◌, ◌/◌, [], ◌∷◌, Bool, true, false, Option, none, some, ltb, not, ◌||◌,
  if◌then◌else◌,
}
use manta.Text.{Str, is_empty}
use manta.Text.Trim.{trim_space}
use manta.Types.{Config, NetnsConfig, Sandbox, running}
use manta.Machine.{
  Env, Error, Result, ok, err, World, M, pure, raise, catch, try, need, ignore, observe, on_error,
  gets, ◌>>=◌, ◌>>◌, mkdir_all, remove_all, start, close_conn, load_snapshot, sleep, stat,
  dial_unix,
}
use manta.Netns.Pool.{release_netns}
use manta.Agent.{wait_for_agent_ready}
use manta.Process.{
  kill_process_group, kill_cgroup, prepare_sandbox_cgroup, attach_process_to_cgroup,
}
use manta.Sandbox.{
  sandbox_dir, cgroup_dir, rootfs_copy, socket_of, vsock_of, log_of, prepare_runtime,
  configure_guest_network,
}
use manta.Sandbox.Create.{acquire_parts}

-- 1500 ms, and the pauses of the two loops, 2 ms and 20 ms.
abbrev pub socket_timeout : ℕ
socket_timeout = 1500000000

abbrev pub socket_retry : ℕ
socket_retry = 2000000

abbrev pub load_retry : ℕ
load_retry = 20000000

module _ (env : Env) where
  -- The probe's connection is the last that was dialled.
  abbrev pub close_probe : M Bool
  close_probe = do c ← observe env.conn; ignore env (close_conn c); pure true

  abbrev pub socket_answers : Str → M Bool
  socket_answers path = do
    there ← try env (stat path)
    let dial = (do answers ← try env (dial_unix path); if answers then close_probe else pure false)
    if there then dial else pure false

  abbrev pub socket_round : Str → ℕ → M (Unit {0}) → M (Unit {0})
  socket_round path until again = do
    now ← observe env.now
    let probe = (do answers ← socket_answers path; if answers then pure tt else again)
    if ltb now until then probe else raise Error.api_socket_not_ready

  unfoldable pub socket_loop : Str → ℕ → ℕ → M (Unit {0})
  socket_loop path until zero = socket_round path until (raise Error.out_of_fuel)
  socket_loop path until (suc fuel) =
      let rest = socket_loop path until fuel in
      socket_round path until (ignore env (sleep socket_retry) >> rest)

  -- `waitForUnixSocketReady`, at the timeout that it is called with.
  unfoldable pub wait_for_unix_socket : Str → M (Unit {0})
  wait_for_unix_socket path = do
    now ← observe env.now
    let loop = socket_loop path (now + socket_timeout) (socket_timeout / socket_retry + 1)
    if is_empty (trim_space path) then raise Error.api_socket_not_ready else loop

  -- `busy` is `isTransientUnixSocketErr` here.
  abbrev pub load_round : Str → Str → Str → ℕ → M (Unit {0}) → M (Unit {0})
  load_round socket state mem until again = do
    loaded ← try env (load_snapshot socket state mem)
    transient ← observe env.busy
    now ← observe env.now
    if loaded
        then pure tt
        else if not transient || ltb until now
        then raise Error.load_snapshot_failed
        else again

  unfoldable pub load_loop : Str → Str → Str → ℕ → ℕ → M (Unit {0})
  load_loop socket state mem until zero =
      load_round socket state mem until (raise Error.out_of_fuel)
  load_loop socket state mem until (suc fuel) =
      let rest = load_loop socket state mem until fuel in
      load_round socket state mem until (ignore env (sleep load_retry) >> rest)

  unfoldable pub load_snapshot_with_retry : Str → Str → Str → M (Unit {0})
  load_snapshot_with_retry socket state mem = do
    now ← observe env.now
    load_loop socket state mem (now + socket_timeout) (socket_timeout / load_retry + 1)

  -- Up to the process: its pid and the cgroup's path.
  unfoldable pub launch_empty : Config → Str → Str → NetnsConfig → M (ℕ × Str)
  launch_empty cfg id dir nc = do
    prepare_runtime env dir
    cgroup ← prepare_sandbox_cgroup env cfg (cgroup_dir cfg id)
    need env (start nc.netns_name dir false) Error.start_firecracker
    pid ← observe env.pid
    pure (pid, cgroup)

  unfoldable pub kill_all : ℕ → Str → M (Unit {0})
  kill_all pid cgroup = do
    kill_process_group env (some pid)
    _ ← catch (kill_cgroup env cgroup)
    pure tt

  -- Loading the snapshot, and reaching the agent in it.
  unfoldable pub resume : Config → Str → Str → Str → NetnsConfig → M ℕ
  resume cfg dir state mem nc = do
    load_snapshot_with_retry (socket_of dir) state mem
    wait_for_agent_ready env (vsock_of dir) cfg.agent_port cfg.agent_wait_timeout
        cfg.agent_dial_timeout

  -- From the start of the process on, every failure kills it.
  unfoldable pub bring_up : Config → Str → Str → Str → NetnsConfig → ℕ × Str → M (Str × ℕ)
  bring_up cfg dir state mem nc (pid, prepared) = do
    on_error (kill_all pid prepared) (wait_for_unix_socket (socket_of dir))
    cgroup ← attach_process_to_cgroup env prepared pid
    c ← on_error (kill_all pid cgroup) (resume cfg dir state mem nc)
    on_error (do ignore env (close_conn c); kill_all pid cgroup) (configure_guest_network env c nc)
    pure (cgroup, c)

  abbrev pub restored_sandbox : Str → Str → NetnsConfig → ℕ → Str → ℕ → Sandbox
  restored_sandbox id dir nc pid cgroup c = record {
    id = id;
    subnet = nc.subnet;
    tap_device = nc.tap_name;
    host_ip = nc.host_ip;
    guest_ip = nc.guest_ip;
    guest_cid = 3;
    netns = some nc;
    dir = dir;
    socket_path = socket_of dir;
    vsock_path = vsock_of dir;
    config_path = [];
    rootfs_path = rootfs_copy dir;
    log_path = log_of dir;
    cgroup_path = cgroup;
    process = some pid;
    agent = some c;
    state = running;
    in_flight_exec = 0;
  }

  unfoldable pub run_restored : Config → Str → Str → Str → Str → NetnsConfig → M Sandbox
  run_restored cfg id dir state mem nc = do
    (pid, prepared) ← launch_empty cfg id dir nc
    (cgroup, c) ← bring_up cfg dir state mem nc (pid, prepared)
    pure (restored_sandbox id dir nc pid cgroup c)

  unfoldable pub assemble : Config → Str → Str → Str → Str → Str → M Sandbox
  assemble cfg id dir disk state mem = do
    nc ← acquire_parts env cfg id disk dir
    on_error (release_netns env (some nc)) (run_restored cfg id dir state mem nc)

  unfoldable pub restore_sandbox : Config → Str → Str → Str → Str → Bool → M Sandbox
  restore_sandbox cfg id disk state mem keep_failed_dir = do
    need env (mkdir_all (sandbox_dir cfg id)) Error.create_sandbox_dir
    on_error (if keep_failed_dir then pure tt else ignore env (remove_all (sandbox_dir cfg id)))
        (assemble cfg id (sandbox_dir cfg id) disk state mem)
