-- ===== src/Snapshot/Keeps.antt =====
-- The golden snapshot, and a sandbox from it: the map of sandboxes is left alone.
use manta.Prelude.{ℕ, Bool, true, false, Option, none, some}
use manta.Text.{Str}
use manta.Types.{Config, NetnsConfig, SnapshotMeta}
use manta.Machine.{Env, Result, ok, err, M}
use manta.Machine.Keeps.{Keeps, keeps_rules}
use manta.Netns.Keeps.{setup-Keeps, cleanup-Keeps}
use manta.Agent.Keeps.{wait-Keeps}
use manta.Process.Keeps.{kill-Keeps}
use manta.Sandbox.Keeps.{rootfs-Keeps, renamed-Keeps}
use manta.Sandbox.Restore.Keeps.{restore-Keeps}
use manta.Snapshot.{
  SnapshotPaths, also, decoded, check_meta, validate_snapshot_meta, write_snapshot_meta,
  reset_snapshot_dir, file_exists, artifacts_exist, kill_and_wait, take_snapshot, boot_golden,
  remove_golden_netns, build_snapshot, rebuilt, ensure_snapshot, create_from_snapshot,
}

module _ (env : Env) where
  decoded-Keeps : (cfg : Config) (meta : Option SnapshotMeta) → Keeps (decoded env cfg meta)
  unfolding check_meta
  decoded-Keeps cfg none = search keeps_rules
  decoded-Keeps cfg (some meta) = search keeps_rules depth 10

  validate-Keeps : (sp : SnapshotPaths) (cfg : Config) → Keeps (validate_snapshot_meta env sp cfg)
  unfolding validate_snapshot_meta
  validate-Keeps sp cfg = search (keeps_rules, decoded-Keeps) depth 10

  also-Keeps : (b : Bool) (m : M Bool) → Keeps m → Keeps (also env b m)
  also-Keeps true m h = h
  also-Keeps false m h = search keeps_rules

  artifacts-Keeps : (sp : SnapshotPaths) → Keeps (artifacts_exist env sp)
  unfolding artifacts_exist file_exists
  artifacts-Keeps sp = search (keeps_rules, also-Keeps) depth 10

  kill_and_wait-Keeps : (pid : ℕ) → Keeps (kill_and_wait env pid)
  unfolding kill_and_wait
  kill_and_wait-Keeps pid = search (keeps_rules, kill-Keeps env) depth 10

  take-Keeps : (cfg : Config) (sp : SnapshotPaths) (pid : ℕ) → Keeps (take_snapshot env cfg sp pid)
  unfolding take_snapshot write_snapshot_meta
  take-Keeps cfg sp pid =
      search (keeps_rules, renamed-Keeps env, wait-Keeps env, kill_and_wait-Keeps) depth 25

  boot-Keeps :
      (cfg : Config) (sp : SnapshotPaths) (nc : NetnsConfig) → Keeps (boot_golden env cfg sp nc)
  unfolding boot_golden
  boot-Keeps cfg sp nc = search (keeps_rules, kill_and_wait-Keeps, take-Keeps) depth 20

  remove-Keeps : (nc : NetnsConfig) → Keeps (remove_golden_netns env nc)
  unfolding remove_golden_netns
  remove-Keeps nc = search (keeps_rules, cleanup-Keeps env) depth 10

  build-Keeps : (cfg : Config) (sp : SnapshotPaths) → Keeps (build_snapshot env cfg sp)
  unfolding build_snapshot
  build-Keeps cfg sp =
      search
        (
          keeps_rules,
          renamed-Keeps env,
          rootfs-Keeps env,
          setup-Keeps env,
          remove-Keeps,
          boot-Keeps,
        )
        depth 15

  rebuilt-Keeps :
      (cfg : Config) (sp : SnapshotPaths) (r : Result (Unit {0})) → Keeps (rebuilt env cfg sp r)
  unfolding reset_snapshot_dir
  rebuilt-Keeps cfg sp (ok u) = search keeps_rules
  rebuilt-Keeps cfg sp (err e) = search (keeps_rules, build-Keeps) depth 12

  ensure-Keeps : (cfg : Config) → Keeps (ensure_snapshot env cfg)
  unfolding ensure_snapshot
  ensure-Keeps cfg =
      search (keeps_rules, artifacts-Keeps, validate-Keeps, rebuilt-Keeps, build-Keeps) depth 12

  pub from_snapshot-Keeps : (cfg : Config) (id : Str) → Keeps (create_from_snapshot env cfg id)
  unfolding create_from_snapshot
  from_snapshot-Keeps cfg id = search (keeps_rules, ensure-Keeps, restore-Keeps env) depth 10
