-- ===== src/Sandbox/Create.antt =====
-- `createSandbox` of sandbox.go with snapshots disabled: a fresh virtual machine. The two
-- goroutines, which share nothing, run one after the other; the log file's closing is left out.
pub mod Keeps
pub mod Failure
use manta.Prelude.{ℕ, ◌+◌, ◌%◌, ◌^◌, [], ◌∷◌, Bool, true, false, Option, none, some, if◌then◌else◌}
use manta.Text.{Str, join}
use manta.Types.{Config, NetnsConfig, Sandbox, running}
use manta.Machine.{
  Env, Error, Result, ok, err, World, M, pure, raise, catch, try, need, ignore, observe, on_error,
  gets, ◌>>=◌, ◌>>◌, mkdir_all, remove_all, write_file, start, close_conn,
}
use manta.Netns.Cleanup.{cleanup_netns}
use manta.Netns.Pool.{acquire_netns, release_netns}
use manta.Agent.{wait_for_agent_ready}
use manta.Process.{
  kill_process_group, kill_cgroup, prepare_sandbox_cgroup, attach_process_to_cgroup,
}
use manta.Sandbox.{
  sandbox_dir, cgroup_dir, rootfs_copy, socket_of, vsock_of, log_of, materialize_sandbox_rootfs,
  prepare_runtime, configure_guest_network,
}

-- The results of the two goroutines together: the copy's error goes first.
abbrev pub join_results : Env → Result (Unit {0}) → Result NetnsConfig → M NetnsConfig
join_results env (ok _) (ok nc) = pure nc
join_results env (ok _) (err e) = raise e
join_results env (err e) (ok nc) = do release_netns env (some nc); raise e
join_results env (err e) (err _) = raise e

module _ (env : Env) where
  unfoldable pub acquire_parts : Config → Str → Str → Str → M NetnsConfig
  acquire_parts cfg id src dir = do
    copied ← catch (materialize_sandbox_rootfs env cfg src (rootfs_copy dir))
    netns ← catch (acquire_netns env id)
    join_results env copied netns

  -- From the virtual machine's configuration to the process: the pid and the cgroup.
  unfoldable pub launch : Config → Str → Str → NetnsConfig → M (ℕ × Str)
  launch cfg id dir nc = do
    need env (write_file (join dir "vm-config.json")) Error.write_vm_config
    prepare_runtime env dir
    cgroup ← prepare_sandbox_cgroup env cfg (cgroup_dir cfg id)
    need env (start nc.netns_name dir true) Error.start_firecracker
    pid ← observe env.pid
    pure (pid, cgroup)

  -- What both failures of the agent do: the namespace is removed, and not released.
  unfoldable pub take_down : NetnsConfig → ℕ → Str → M (Unit {0})
  take_down nc pid cgroup = do
    kill_process_group env (some pid)
    _ ← catch (kill_cgroup env cgroup)
    _ ← catch (cleanup_netns env nc)
    pure tt

  unfoldable pub connect : Config → Str → NetnsConfig → ℕ → Str → M ℕ
  connect cfg dir nc pid cgroup = do
    c ← on_error (take_down nc pid cgroup) (
        wait_for_agent_ready env (vsock_of dir) cfg.agent_port cfg.agent_wait_timeout
          cfg.agent_dial_timeout)
    on_error (do ignore env (close_conn c); take_down nc pid cgroup)
        (configure_guest_network env c nc)
    pure c

  abbrev pub fresh_sandbox : Str → Str → NetnsConfig → ℕ → Str → ℕ → Sandbox
  fresh_sandbox id dir nc pid cgroup c = record {
    id = id;
    subnet = nc.subnet;
    tap_device = nc.tap_name;
    host_ip = nc.host_ip;
    guest_ip = nc.guest_ip;
    guest_cid = (1000 + nc.subnet) % 2 ^ 32;
    netns = some nc;
    dir = dir;
    socket_path = socket_of dir;
    vsock_path = vsock_of dir;
    config_path = join dir "vm-config.json";
    rootfs_path = rootfs_copy dir;
    log_path = log_of dir;
    cgroup_path = cgroup;
    process = some pid;
    agent = some c;
    state = running;
    in_flight_exec = 0;
  }

  -- The deferred release of the network covers the steps up to the start of the process.
  unfoldable pub build : Config → Str → Str → M Sandbox
  build cfg id dir = do
    nc ← acquire_parts cfg id cfg.base_rootfs_path dir
    (pid, prepared) ← on_error (release_netns env (some nc)) (launch cfg id dir nc)
    cgroup ← attach_process_to_cgroup env prepared pid
    c ← connect cfg dir nc pid cgroup
    pure (fresh_sandbox id dir nc pid cgroup c)

  unfoldable pub create_fresh : Config → Str → M Sandbox
  create_fresh cfg id = do
    need env (mkdir_all (sandbox_dir cfg id)) Error.create_sandbox_dir
    on_error (ignore env (remove_all (sandbox_dir cfg id))) (build cfg id (sandbox_dir cfg id))
