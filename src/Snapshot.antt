-- ===== src/Snapshot.antt =====
-- cmd/server/snapshot.go: the golden snapshot that sandboxes are restored from.
pub mod Keeps
pub mod Silence
pub mod Golden
pub mod Boots
pub mod Current
pub mod Reuse
use manta.Prelude.{
  ℕ, suc, zero, ◌++◌, ◌∷◌, Bool, true, false, Option, none, some, ◌==◌, not, if◌then◌else◌,
}
use manta.Prelude.Int.{ℤ, pos, negsuc}
use manta.Text.{Str, lit, is_empty, str_eq, join}
use manta.Text.Trim.{trim_space}
use manta.Types.{Config, NetnsConfig, Sandbox, SnapshotMeta}
use manta.Machine.{
  Env, Error, Result, ok, err, World, M, pure, raise, check, try, need, ignore, observe, catch,
  finally, ◌>>=◌, ◌>>◌, mkdir_all, remove, remove_all, stat, read_file, write_file, rename,
  open_log, start, wait_exit, close_conn, pause_vm, create_snapshot,
}
use manta.Netns.Setup.{setup_netns}
use manta.Netns.Cleanup.{cleanup_netns}
use manta.Agent.{wait_for_agent_ready}
use manta.Process.{kill_process_group}
use manta.Sandbox.{wrapped, materialize_sandbox_rootfs, socket_of, vsock_of, log_of}
use manta.Sandbox.Restore.{restore_sandbox}

pub record SnapshotPaths : Type 0 where
  pub dir : Str
  pub base_dir : Str
  pub base_disk : Str
  pub state_file : Str
  pub mem_file : Str
  pub meta_file : Str

unfoldable pub snapshot_layout : Str → SnapshotPaths
snapshot_layout work_dir =
    let dir = join work_dir "snapshot" in
    let base = join dir "base" in
    record {
      dir = dir;
      base_dir = base;
      base_disk = join base "rootfs.ext4";
      state_file = join dir "state.snap";
      mem_file = join dir "mem.snap";
      meta_file = join dir "meta.json";
    }

-- meta.Version == 1
abbrev pub is_version_one : ℤ → Bool
is_version_one (pos n) = n == 1
is_version_one (negsuc n) = false

-- The part of `validateSnapshotMeta` behind the decoding.
unfoldable pub check_meta : Config → SnapshotMeta → M (Unit {0})
check_meta cfg meta =
    if not (is_version_one meta.version)
    then raise Error.bad_meta_version
    else if is_empty (trim_space cfg.base_rootfs_lineage_id)
    then pure tt
    else if is_empty (trim_space meta.lineage_id)
    then raise Error.missing_lineage
    else if str_eq meta.lineage_id cfg.base_rootfs_lineage_id
    then pure tt
    else raise Error.lineage_mismatch

module _ (env : Env) where
  unfoldable pub file_exists : Str → M Bool
  file_exists p = try env (stat p)

  abbrev pub decoded : Config → Option SnapshotMeta → M (Unit {0})
  decoded cfg none = raise Error.decode_snapshot_meta
  decoded cfg (some meta) = check_meta cfg meta

  unfoldable pub validate_snapshot_meta : SnapshotPaths → Config → M (Unit {0})
  validate_snapshot_meta sp cfg = do
    need env (read_file sp.meta_file) Error.read_snapshot_meta
    meta ← observe env.snapshot_meta
    decoded cfg meta

  unfoldable pub write_snapshot_meta : SnapshotPaths → M (Unit {0})
  write_snapshot_meta sp = do
    need env (write_file (sp.meta_file ++ lit ".tmp")) Error.write_snapshot_meta_failed
    need env (rename (sp.meta_file ++ lit ".tmp") sp.meta_file) Error.persist_snapshot_meta

  unfoldable pub reset_snapshot_dir : SnapshotPaths → M (Unit {0})
  reset_snapshot_dir sp = do
    need env (remove_all sp.dir) Error.remove_snapshot_dir
    need env (mkdir_all sp.base_dir) Error.recreate_snapshot_dir

  -- `a && b`
  abbrev pub also : Bool → M Bool → M Bool
  also true m = m
  also false m = pure false

  unfoldable pub artifacts_exist : SnapshotPaths → M Bool
  artifacts_exist sp = do
    state ← file_exists sp.state_file
    mem ← also state (file_exists sp.mem_file)
    also mem (file_exists sp.base_disk)

  unfoldable pub kill_and_wait : ℕ → M (Unit {0})
  kill_and_wait pid = do kill_process_group env (some pid); ignore env (wait_exit pid)

  -- With the golden machine running: its snapshot.
  unfoldable pub take_snapshot : Config → SnapshotPaths → ℕ → M (Unit {0})
  take_snapshot cfg sp pid = do
    c ← wrapped Error.snapshot_agent_not_ready (
        wait_for_agent_ready env (vsock_of sp.base_dir) cfg.agent_port cfg.agent_wait_timeout
          cfg.agent_dial_timeout)
    ignore env (close_conn c)
    need env (pause_vm (socket_of sp.base_dir)) Error.pause_snapshot_vm
    ignore env (remove sp.state_file)
    ignore env (remove sp.mem_file)
    need env (create_snapshot (socket_of sp.base_dir) sp.state_file sp.mem_file)
        Error.create_snapshot_failed
    kill_and_wait pid
    write_snapshot_meta sp

  -- With the network of the golden machine: its start, and its deferred end.
  unfoldable pub boot_golden : Config → SnapshotPaths → NetnsConfig → M (Unit {0})
  boot_golden cfg sp nc = do
    need env (write_file (join sp.base_dir "vm-config.json")) Error.write_snapshot_vm_config
    ignore env (remove (socket_of sp.base_dir))
    ignore env (remove (vsock_of sp.base_dir))
    need env (open_log (log_of sp.base_dir)) Error.open_snapshot_log
    need env (start nc.netns_name sp.base_dir true) Error.start_snapshot_vm
    pid ← observe env.pid
    finally (kill_and_wait pid) (take_snapshot cfg sp pid)

  unfoldable pub remove_golden_netns : NetnsConfig → M (Unit {0})
  remove_golden_netns nc = do _ ← catch (cleanup_netns env nc); pure tt

  unfoldable pub build_snapshot : Config → SnapshotPaths → M SnapshotPaths
  build_snapshot cfg sp = do
    need env (mkdir_all sp.base_dir) Error.create_snapshot_dir
    wrapped Error.copy_base_disk
        (materialize_sandbox_rootfs env cfg cfg.base_rootfs_path sp.base_disk)
    nc ← wrapped Error.setup_snapshot_netns (setup_netns env (lit "snapshot") 250)
    finally (remove_golden_netns nc) (boot_golden cfg sp nc)
    pure sp

  abbrev pub rebuilt : Config → SnapshotPaths → Result (Unit {0}) → M SnapshotPaths
  rebuilt cfg sp (ok _) = pure sp
  rebuilt cfg sp (err e) = do reset_snapshot_dir sp; build_snapshot cfg sp

  abbrev pub reuse : Config → SnapshotPaths → M SnapshotPaths
  reuse cfg sp = do valid ← catch (validate_snapshot_meta sp cfg); rebuilt cfg sp valid

  unfoldable pub ensure_snapshot : Config → M SnapshotPaths
  ensure_snapshot cfg =
      let sp = snapshot_layout cfg.work_dir in
      do there ← artifacts_exist sp; if there then reuse cfg sp else build_snapshot cfg sp

  -- `createSandboxFromSnapshot` of restore.go.
  unfoldable pub create_from_snapshot : Config → Str → M Sandbox
  create_from_snapshot cfg id = do
    sp ← ensure_snapshot cfg
    restore_sandbox env cfg id sp.base_disk sp.state_file sp.mem_file cfg.keep_failed_sandboxes
