-- ===== src/Snapshot/Silence.antt =====
-- The parts of cmd/server/snapshot.go that start and kill no process.
use manta.Prelude.{Bool, true, false, Option, none, some}
use manta.Text.{Str}
use manta.Types.{Config, NetnsConfig, SnapshotMeta}
use manta.Machine.{Op, Env, M}
use manta.Machine.Counts.{Silent}
use manta.Machine.Silence.{IsOnProcesses, silent_rules}
use manta.Netns.Silence.{cleanup-Silent}
use manta.Snapshot.{
  SnapshotPaths, decoded, check_meta, file_exists, validate_snapshot_meta, write_snapshot_meta,
  reset_snapshot_dir, artifacts_exist, also, remove_golden_netns,
}

module _ (env : Env) {p : Op → Bool → Bool} (on : IsOnProcesses p) where
  also-Silent : (b : Bool) (m : M Bool) → Silent p m → Silent p (also env b m)
  also-Silent true m h = h
  also-Silent false m h = search silent_rules

  exists-Silent : (path : Str) → Silent p (file_exists env path)
  unfolding file_exists
  exists-Silent path = search (silent_rules, on)

  pub artifacts-Silent : (sp : SnapshotPaths) → Silent p (artifacts_exist env sp)
  unfolding artifacts_exist
  artifacts-Silent sp = search (silent_rules, exists-Silent, also-Silent) depth 10

  check_meta-Silent : (cfg : Config) (meta : SnapshotMeta) → Silent p (check_meta cfg meta)
  unfolding check_meta
  check_meta-Silent cfg meta = search silent_rules depth 12

  decoded-Silent : (cfg : Config) (o : Option SnapshotMeta) → Silent p (decoded env cfg o)
  decoded-Silent cfg none = search silent_rules
  decoded-Silent cfg (some meta) = check_meta-Silent cfg meta

  pub validate-Silent :
      (sp : SnapshotPaths) (cfg : Config) → Silent p (validate_snapshot_meta env sp cfg)
  unfolding validate_snapshot_meta
  validate-Silent sp cfg = search (silent_rules, on, decoded-Silent) depth 10

  pub reset-Silent : (sp : SnapshotPaths) → Silent p (reset_snapshot_dir env sp)
  unfolding reset_snapshot_dir
  reset-Silent sp = search (silent_rules, on) depth 10

  pub write_meta-Silent : (sp : SnapshotPaths) → Silent p (write_snapshot_meta env sp)
  unfolding write_snapshot_meta
  write_meta-Silent sp = search (silent_rules, on) depth 10

  pub remove_netns-Silent : (nc : NetnsConfig) → Silent p (remove_golden_netns env nc)
  unfolding remove_golden_netns
  remove_netns-Silent nc = search (silent_rules, cleanup-Silent env on) depth 8
