-- ===== src/Startup/Preflight.antt =====
-- cmd/server/preflight.go, iptables.go and diagnostics.go, with `ensureCgroupRoot` and
-- `scavengeCgroups` of cgroup.go. `run` is `runCmd` of cmdutil.go, which runs a command with its
-- arguments.
use manta.Prelude.{ℕ, Bool, true, false, List, [], ◌∷◌, ◌++◌, if◌then◌else◌}
use manta.Text.{Str, lit, is_empty, join}
use manta.Text.Trim.{trim_space}
use manta.Types.{Config}
use manta.Machine.{
  Env, Error, Result, ok, err, M, pure, raise, try, need, ignore, observe, catch, finally, ◌>>=◌,
  ◌>>◌, look_path, stat, mkdir_all, remove_all, write_file, read_dir, run,
}
use manta.Process.{kill_cgroup, remove_cgroup_dir}
use manta.Snapshot.{ensure_snapshot}

-- The rule that lets the guests' networks out, for `iptables -t nat -C` and `-A`.
abbrev pub masquerade : Str → Str → List Str
masquerade flag iface =
    lit "iptables"
    ∷ lit "-t"
    ∷ lit "nat"
    ∷ flag
    ∷ lit "POSTROUTING"
    ∷ lit "-s"
    ∷ lit "172.16.0.0/16"
    ∷ lit "-o"
    ∷ iface
    ∷ lit "-j"
    ∷ lit "MASQUERADE"
    ∷ []

-- 1500 * time.Millisecond
abbrev pub scavenge_timeout : ℕ
scavenge_timeout = 1500000000

module _ (env : Env) where
  abbrev pub add_rule : Str → M (Unit {0})
  add_rule iface = need env (run (masquerade (lit "-A") iface)) Error.add_masquerade

  abbrev pub ensure_rule : Str → M (Unit {0})
  ensure_rule iface = do
    there ← try env (run (masquerade (lit "-C") iface))
    if there then pure tt else add_rule iface

  unfoldable pub ensure_global_masquerade : Str → M (Unit {0})
  ensure_global_masquerade iface =
      if is_empty (trim_space iface) then raise Error.host_iface_empty else ensure_rule iface

  unfoldable pub ensure_cgroup_root : Str → M (Unit {0})
  ensure_cgroup_root root = do
    need env (stat (lit "/sys/fs/cgroup/cgroup.controllers")) Error.no_cgroup_v2
    need env (mkdir_all root) Error.create_cgroup_root

  -- One entry of the directory of the cgroups; the name has no slash.
  abbrev pub scavenge_entry : Str → Str × Bool → M (Unit {0})
  scavenge_entry root (name, false) = pure tt
  scavenge_entry root (name, true) = do
    _ ← catch (kill_cgroup env (root ++ 47 ∷ name))
    _ ← catch (remove_cgroup_dir env (root ++ 47 ∷ name) scavenge_timeout)
    pure tt

  unfoldable pub scavenge_each : Str → List (Str × Bool) → M (Unit {0})
  scavenge_each root [] = pure tt
  scavenge_each root (entry ∷ entries) = do scavenge_entry root entry; scavenge_each root entries

  unfoldable pub scavenge_cgroups : Str → M (Unit {0})
  scavenge_cgroups root = do
    there ← try env (read_dir root)
    entries ← observe env.entries
    if there then scavenge_each root entries else pure tt

  abbrev pub scavenge_after : Str → Result (Unit {0}) → M (Unit {0})
  scavenge_after root (ok _) = scavenge_cgroups root
  scavenge_after root (err e) = pure tt

  -- Without cgroups the configuration stays as it is, although the log says that they are disabled.
  abbrev pub prepare_cgroups : Str → M (Unit {0})
  prepare_cgroups root = do made ← catch (ensure_cgroup_root root); scavenge_after root made

  abbrev pub golden_snapshot : Config → M (Unit {0})
  golden_snapshot cfg = do _ ← ensure_snapshot env cfg; pure tt

  unfoldable pub ensure_preflight : Config → M (Unit {0})
  ensure_preflight cfg = do
    need env (look_path cfg.firecracker_bin) Error.firecracker_missing
    need env (stat cfg.kernel_path) Error.required_file_missing
    need env (stat cfg.base_rootfs_path) Error.required_file_missing
    need env (stat cfg.ssh_private_key) Error.required_file_missing
    need env (stat (lit "/dev/kvm")) Error.kvm_unavailable
    need env (mkdir_all (join cfg.work_dir "sandboxes")) Error.create_work_dir
    need env (run (lit "sysctl" ∷ lit "-w" ∷ lit "net.ipv4.ip_forward=1" ∷ []))
        Error.enable_ip_forwarding
    ensure_global_masquerade cfg.host_nat_iface
    if cfg.enable_cgroups then prepare_cgroups cfg.cgroup_root else pure tt
    if cfg.enable_snapshots then golden_snapshot cfg else pure tt

  abbrev pub try_clone : Str → M Bool
  try_clone dir = do
    need env (write_file (join dir "src")) Error.write_probe
    try env (run (lit "cp" ∷ lit "--reflink=always" ∷ join dir "src" ∷ join dir "dst" ∷ []))

  -- Whether the file system of the work directory can share blocks; the probe is removed.
  unfoldable pub probe_reflink_support : Str → M Bool
  probe_reflink_support work_dir =
      let dir = join work_dir ".reflink-probe" in
      do
        need env (mkdir_all dir) Error.create_probe_dir
        finally (ignore env (remove_all dir)) (try_clone dir)

  -- The result goes to the log only.
  unfoldable pub log_startup_diagnostics : Config → M (Unit {0})
  log_startup_diagnostics cfg = do _ ← catch (probe_reflink_support cfg.work_dir); pure tt
