-- ===== src/Tests/Listing.antt =====
-- Runs of the theorems on user snapshots on a disk.
use mathlib.Core.List.{Perm}
use manta.Prelude.{◌≡◌, refl, arith, true, false, List, [], ◌∷◌, Option, none, some, if◌then◌else◌}
use manta.Prelude.Sort.{IsSorted, sort}
use manta.Text.{Str, lit, str_eq, join}
use manta.Text.Trim.{trim_space}
use manta.Text.Order.{str_lt}
use manta.Types.{UserSnapshotMeta}
use manta.Machine.{Env, Trace, Op, ok, read_dir, read_file}
use manta.Server.{listed}
use manta.Server.UserSnapshot.Ids.{normalize_snapshot_id, matches_id, all_id_bytes}
use manta.Server.UserSnapshot.Listing.{
  IsDisk, newer, user_snapshots_dir, snapshots_on, load_entries, list_user_snapshots,
  handle_snapshot_list, handle_snapshot_list-IsSorted,
}
use manta.Server.UserSnapshot.{load_user_snapshot_meta, handle_snapshot_restore}
use manta.Server.UserSnapshot.Outcome.{RestoreOutcome, handle_snapshot_restore-Outcome}
use manta.Tests.Fixtures.{host, always, empty}

abbrev meta : Str → Str → UserSnapshotMeta
meta id created = record {
  snapshot_id = id;
  name = [];
  created_at = created;
  state_file = [];
  mem_file = [];
  disk_file = [];
  lineage_id = lit "l1";
  source_sandbox_id = lit "sb-1";
  source_rootfs_path = [];
}

-- The first lacks its id, and the second is not there.
abbrev disk : Str → Option UserSnapshotMeta
disk path =
    if str_eq path (lit "/w/user-snapshots/us-1/meta.json")
    then some (meta [] (lit "2026-01-01T00:00:05.5Z"))
    else if str_eq path (lit "/w/user-snapshots/us-3/meta.json")
    then some (meta (lit "us-3") (lit "2026-01-01T00:00:05Z"))
    else none

abbrev read_back : Op → Option UserSnapshotMeta
read_back (read_file path) = disk path
read_back _ = none

abbrev last_read : Trace → Option UserSnapshotMeta
last_read [] = none
last_read (e ∷ tr) = read_back e.op

abbrev disk_host : Env
disk_host = record (host always) {
  user_snapshot_meta = last_read;
  entries = λ tr.
      (lit "us-1", true)
      ∷ (lit "us-2", true)
      ∷ (lit "us-3", true)
      ∷ (lit "notes", false)
      ∷ (lit ".hidden", true)
      ∷ [];
}

disk_stays : IsDisk disk_host disk
disk_stays = record { reads = λ tr path. refl }

abbrev after : Trace
after = record { op = read_dir (user_snapshots_dir (lit "/w")); done = true } ∷ []

handle_snapshot_list-IsSorted_example :
    (items : List UserSnapshotMeta) × ((handle_snapshot_list disk_host empty).0 ≡ ok (listed items))
    × Perm items (snapshots_on empty.server.cfg disk (disk_host.entries after))
    × IsSorted newer items
handle_snapshot_list-IsSorted_example =
    handle_snapshot_list-IsSorted disk_host disk empty disk_stays refl

handle_snapshot_restore-Outcome_example :
    RestoreOutcome []
      (handle_snapshot_restore disk_host (some (lit "us-3")) empty).1.server
      (handle_snapshot_restore disk_host (some (lit "us-3")) empty).0
handle_snapshot_restore-Outcome_example =
    handle_snapshot_restore-Outcome disk_host (some (lit "us-3")) empty
      (record { entries = tt; distinct = tt }) (omega arith)

-- The order is that of the texts, which is not that of the times: here the older snapshot is first.
list_runs :
    (list_user_snapshots disk_host empty.server.cfg empty).0
    ≡ ok (
        meta (lit "us-3") (lit "2026-01-01T00:00:05Z")
        ∷ meta (lit "us-1") (lit "2026-01-01T00:00:05.5Z")
        ∷ [])
unfolding list_user_snapshots load_entries load_user_snapshot_meta normalize_snapshot_id matches_id
    all_id_bytes trim_space sort str_lt str_eq join
list_runs = refl
