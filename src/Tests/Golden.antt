-- ===== src/Tests/Golden.antt =====
-- Runs of the theorems on the golden snapshot.
use manta.Prelude.{◌≡◌, ◌↔◌, refl, inr, Bool, true, false, some}
use manta.Prelude.Int.{pos}
use manta.Text.{lit}
use manta.Types.{SnapshotMeta}
use manta.Machine.{World, Env, Trace, Op, ok, create_snapshot}
use manta.Machine.Trace.{count}
use manta.Sandbox.Processes.{is_started}
use manta.Snapshot.{snapshot_layout, ensure_snapshot}
use manta.Snapshot.Current.{IsCurrent}
use manta.Snapshot.Reuse.{ensure_snapshot-IsCurrent}
use manta.Server.{handle_create}
use manta.Server.Creation.{Leaves, kept, handle_create-Leaves}
use manta.Tests.Fixtures.{host, always, cfg, empty}

abbrev golden_meta : SnapshotMeta
golden_meta = record {
  version = pos 1;
  lineage_id = lit "l1";
  base_rootfs_path = lit "/r";
  created_at = lit "2026-01-01T00:00:05Z";
}

-- A host with a snapshot of the lineage that is configured.
abbrev golden_host : Env
golden_host = record (host always) { snapshot_meta = λ tr. some golden_meta }

golden-IsCurrent : IsCurrent golden_host (snapshot_layout cfg.work_dir) cfg empty.trace
golden-IsCurrent = ((refl, refl, refl), (refl, (refl, inr refl)))

-- A host on which the golden machine cannot be snapshotted.
abbrev no_snapshot : Trace → Op → Bool
no_snapshot tr (create_snapshot socket state mem) = false
no_snapshot tr _ = true

ensure_snapshot-IsCurrent_example :
    (((ensure_snapshot golden_host cfg empty).0 ≡ ok (snapshot_layout cfg.work_dir))
      × (count is_started (ensure_snapshot golden_host cfg empty).1.trace
          ≡ count is_started empty.trace))
    ↔ IsCurrent golden_host (snapshot_layout cfg.work_dir) cfg empty.trace
ensure_snapshot-IsCurrent_example = ensure_snapshot-IsCurrent golden_host cfg empty

-- A server that restores its sandboxes from the golden snapshot.
abbrev restoring : World
restoring = record empty {
  server = record empty.server { cfg = record cfg { enable_snapshots = true } };
}

handle_create-Leaves_example :
    Leaves
      (kept (handle_create (host no_snapshot) restoring).0)
      restoring
      (handle_create (host no_snapshot) restoring).1
handle_create-Leaves_example = handle_create-Leaves (host no_snapshot) restoring
