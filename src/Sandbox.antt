-- ===== src/Sandbox.antt =====
-- cmd/server/sandbox.go and restore.go: building a sandbox and taking it down.
pub mod Create
pub mod Restore
pub mod Silence
pub mod Keeps
pub mod Processes
pub mod Cleanup
use manta.Prelude.{ℕ, ◌+◌, ◌%◌, ◌^◌, ◌++◌, [], ◌∷◌, none, some, true, false, Option}
use manta.Text.{Str, lit, join, str_eq}
use manta.Rpc.{Request, NetRequest}
use manta.Types.{Config, NetnsConfig, Sandbox, running}
use manta.Machine.{
  Env, Error, Result, ok, err, World, M, pure, raise, catch, need, ignore, ◌>>=◌, ◌>>◌, clone,
  remove, open_log,
}
use manta.Agent.{call}

-- filepath.Join(s.cfg.WorkDir, "sandboxes", id)
unfoldable pub sandbox_dir : Config → Str → Str
sandbox_dir cfg id = join cfg.work_dir "sandboxes" ++ 47 ∷ id

unfoldable pub cgroup_dir : Config → Str → Str
cgroup_dir cfg id = cfg.cgroup_root ++ 47 ∷ id

abbrev pub rootfs_copy : Str → Str
rootfs_copy dir = join dir "rootfs.ext4"

abbrev pub socket_of : Str → Str
socket_of dir = join dir "firecracker.sock"

abbrev pub vsock_of : Str → Str
vsock_of dir = join dir "vsock.sock"

abbrev pub log_of : Str → Str
log_of dir = join dir "firecracker.log"

-- `Net` of the request that `configureSandboxGuestNetwork` sends.
abbrev pub net_request : NetnsConfig → Request
net_request nc = record {
  kind = lit "net";
  exec = none;
  net = some (record {
    interface = lit "eth0";
    address = nc.guest_ip ++ lit "/30";
    gateway = nc.host_ip;
    dns = lit "1.1.1.1";
  });
}

abbrev pub renamed : Error → {A : Type 0} → Result A → M A
renamed e (ok a) = pure a
renamed e (err _) = raise e

-- `if err != nil { return nil, fmt.Errorf("…: %w", err) }`
abbrev pub wrapped : {A : Type 0} → Error → M A → M A
wrapped e m = do r ← catch m; renamed e r

module _ (env : Env) where
  -- `cp` with --reflink=always or --reflink=auto.
  unfoldable pub materialize_sandbox_rootfs : Config → Str → Str → M (Unit {0})
  materialize_sandbox_rootfs cfg src dst =
      need env (clone (str_eq cfg.rootfs_clone_mode (lit "reflink-required")) src dst)
        Error.clone_rootfs

  -- `prepareSandboxRuntimePaths`, which removes two stale sockets, and `openSandboxLog`.
  unfoldable pub prepare_runtime : Str → M (Unit {0})
  prepare_runtime dir = do
    ignore env (remove (socket_of dir))
    ignore env (remove (vsock_of dir))
    need env (open_log (log_of dir)) Error.open_log_file

  unfoldable pub configure_guest_network : ℕ → NetnsConfig → M (Unit {0})
  configure_guest_network c nc = do
    _ ← wrapped Error.agent_network_config (call env c (net_request nc))
    pure tt
