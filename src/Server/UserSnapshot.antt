-- ===== src/Server/UserSnapshot.antt =====
-- cmd/server/user_snapshot.go, with `createSandboxFromUserSnapshot` of restore.go: snapshots that a
-- client takes of a sandbox, restores and deletes. Their list is in Listing.
pub mod Ids
pub mod Resume
pub mod Keeps
pub mod Outcome
pub mod Listing
use manta.Prelude.{
  ℕ, ◌+◌, ◌%◌, ◌^◌, ◌⊎◌, inl, inr, Bool, true, false, List, ◌++◌, Option, none, some, String, not,
  if◌then◌else◌,
}
use manta.Text.{Str, lit, is_empty, join, str_eq}
use manta.Text.Trim.{trim_space}
use manta.Text.Decimal.{dec}
use manta.Types.{Config, Sandbox, Server, UserSnapshotMeta}
use manta.Machine.{
  Env, Error, Result, ok, err, World, M, pure, raise, modify, gets, catch, need, ignore, observe,
  on_error, ◌>>=◌, ◌>>◌, mkdir_all, remove, remove_all, rename, write_file, read_file, stat,
  close_conn, pause_vm, resume_vm, create_snapshot,
}
use manta.Sandbox.{wrapped, materialize_sandbox_rootfs}
use manta.Sandbox.Restore.{restore_sandbox}
use manta.Server.{
  Reply, snapshotted, snapshot_deleted, bad_request, not_found, conflict, failed, modify_sandbox,
  sandbox_id, create_reply,
}
use manta.Server.Registry.{lookup}
use manta.Server.Exec.{set_agent}
use Ids.{normalize_snapshot_id}

-- filepath.Join of a clean path and two names; the id has no slash and is not `..`.
abbrev pub user_snapshot_root_dir : Str → Str → Str
user_snapshot_root_dir work_dir id = join work_dir "user-snapshots" ++ (lit "/" ++ id)

abbrev pub user_snapshot_meta_path : Str → Str → Str
user_snapshot_meta_path work_dir id = join (user_snapshot_root_dir work_dir id) "meta.json"

module _ (env : Env) where
  abbrev pub close_agent : Option ℕ → M (Unit {0})
  close_agent none = pure tt
  close_agent (some c) = ignore env (close_conn c)

  unfoldable pub write_user_snapshot_meta : Config → Str → M (Unit {0})
  write_user_snapshot_meta cfg id =
      let path = user_snapshot_meta_path cfg.work_dir id in
      do
        need env (write_file (path ++ lit ".tmp")) Error.write_user_meta
        need env (rename (path ++ lit ".tmp") path) Error.persist_user_meta

  unfoldable pub persist_disk : Config → Str → Str → M (Unit {0})
  persist_disk cfg src dst =
      wrapped Error.persist_snapshot_disk (materialize_sandbox_rootfs env cfg src dst)

  unfoldable pub resume_with : Sandbox → UserSnapshotMeta → M UserSnapshotMeta
  resume_with sb meta = do need env (resume_vm sb.socket_path) Error.resume_vm_failed; pure meta

  -- With the machine paused: the snapshot, the disk, the metadata, and the machine's resumption.
  unfoldable pub capture : Config → Sandbox → Str → Str → M UserSnapshotMeta
  capture cfg sb id name =
      let dir = user_snapshot_root_dir cfg.work_dir id in
      do
        ignore env (remove (join dir "state.snap"))
        ignore env (remove (join dir "mem.snap"))
        ignore env (remove (join dir "disk.ext4"))
        need env (create_snapshot sb.socket_path (join dir "state.snap") (join dir "mem.snap"))
            Error.create_user_snapshot_failed
        persist_disk cfg sb.rootfs_path (join dir "disk.ext4")
        created ← observe env.timestamp
        write_user_snapshot_meta cfg id
        resume_with sb (record {
          snapshot_id = id;
          name = trim_space name;
          created_at = created;
          state_file = join dir "state.snap";
          mem_file = join dir "mem.snap";
          disk_file = join dir "disk.ext4";
          lineage_id = cfg.base_rootfs_lineage_id;
          source_sandbox_id = sb.id;
          source_rootfs_path = sb.rootfs_path;
        })

  -- The connection to the agent is closed first, so that the snapshot does not capture it.
  unfoldable pub create_user_snapshot : Config → Str → Sandbox → Str → Str → M UserSnapshotMeta
  create_user_snapshot cfg key sb id name = do
    close_agent sb.agent
    modify_sandbox key (set_agent none)
    need env (mkdir_all (user_snapshot_root_dir cfg.work_dir id)) Error.create_user_snapshot_dir
    need env (pause_vm sb.socket_path) Error.pause_vm_failed
    on_error (ignore env (resume_vm sb.socket_path)) (capture cfg sb id name)

  abbrev pub snapshot_reply : Result UserSnapshotMeta → M Reply
  snapshot_reply (ok meta) = pure (snapshotted meta.snapshot_id)
  snapshot_reply (err e) = pure (failed e)

  abbrev pub snapshot_found : Str → Str → Option Sandbox → M Reply
  snapshot_found key name none = pure (not_found "sandbox not found")
  snapshot_found key name (some sb) = do
    n ← gets (λ s. (s.next_snapshot_id + 1) % 2 ^ 64)
    modify (λ s. record s { next_snapshot_id = n })
    cfg ← gets (λ s. s.cfg)
    made ← catch (create_user_snapshot cfg key sb (lit "us-" ++ dec n) name)
    snapshot_reply made

  abbrev pub snapshot_named : Str → Str → M Reply
  snapshot_named key name = do
    found ← gets (λ s. lookup key s.sandboxes)
    snapshot_found key name found

  -- The request is the sandbox's id and the name.
  unfoldable pub handle_snapshot_create : Option (Str × Str) → M Reply
  handle_snapshot_create none = pure (bad_request "invalid request body")
  handle_snapshot_create (some (key, name)) =
      if is_empty (trim_space key)
      then pure (bad_request "sandbox_id is required")
      else snapshot_named key name

  -- The metadata file; an id that it lacks is filled in.
  abbrev pub with_id : Str → Option UserSnapshotMeta → M UserSnapshotMeta
  with_id id none = raise Error.decode_user_meta
  with_id id (some meta) =
      pure
        (if is_empty (trim_space meta.snapshot_id) then record meta { snapshot_id = id } else meta)

  -- The id is normalized already.
  unfoldable pub load_user_snapshot_meta : Config → Str → M UserSnapshotMeta
  load_user_snapshot_meta cfg id = do
    need env (read_file (user_snapshot_meta_path cfg.work_dir id)) Error.read_user_meta
    meta ← observe env.user_snapshot_meta
    with_id id meta

  unfoldable pub create_from_user_snapshot : Config → Str → UserSnapshotMeta → M Sandbox
  create_from_user_snapshot cfg id meta = do
    need env (stat meta.state_file) Error.user_artifact_missing
    need env (stat meta.mem_file) Error.user_artifact_missing
    need env (stat meta.disk_file) Error.user_artifact_missing
    restore_sandbox env cfg id meta.disk_file meta.state_file meta.mem_file false

  unfoldable pub restore_user : Config → UserSnapshotMeta → M Reply
  restore_user cfg meta = do
    n ← gets (λ s. (s.next_sandbox_id + 1) % 2 ^ 64)
    modify (λ s. record s { next_sandbox_id = n })
    made ← catch (create_from_user_snapshot cfg (sandbox_id n) meta)
    create_reply env made

  -- Whether the snapshot belongs to the base file system that the server is configured with.
  abbrev pub same_lineage : Config → UserSnapshotMeta → M Reply
  same_lineage cfg meta =
      let current = trim_space cfg.base_rootfs_lineage_id in
      let lineage = trim_space meta.lineage_id in
      if is_empty current
      then restore_user cfg meta
      else if is_empty lineage
      then pure (conflict "snapshot meta missing lineage id")
      else if not (str_eq lineage current)
      then pure (conflict "snapshot lineage mismatch")
      else restore_user cfg meta

  abbrev pub meta_loaded : Config → Result UserSnapshotMeta → M Reply
  meta_loaded cfg (err e) = pure (not_found "read snapshot metadata")
  meta_loaded cfg (ok meta) = same_lineage cfg meta

  abbrev pub restore_normalized : String ⊎ Str → M Reply
  restore_normalized (inl text) = pure (bad_request text)
  restore_normalized (inr id) = do
    cfg ← gets (λ s. s.cfg)
    loaded ← catch (load_user_snapshot_meta cfg id)
    meta_loaded cfg loaded

  unfoldable pub handle_snapshot_restore : Option Str → M Reply
  handle_snapshot_restore none = pure (bad_request "invalid request body")
  handle_snapshot_restore (some raw) = restore_normalized (normalize_snapshot_id raw)

  abbrev pub delete_reply : Result (Unit {0}) → M Reply
  delete_reply (ok _) = pure snapshot_deleted
  delete_reply (err e) = pure (failed e)

  abbrev pub delete_normalized : String ⊎ Str → M Reply
  delete_normalized (inl text) = pure (bad_request text)
  delete_normalized (inr id) = do
    cfg ← gets (λ s. s.cfg)
    removed ←
        catch (
          need env (remove_all (user_snapshot_root_dir cfg.work_dir id)) Error.remove_user_snapshot)
    delete_reply removed

  unfoldable pub handle_snapshot_delete : Option Str → M Reply
  handle_snapshot_delete none = pure (bad_request "invalid request body")
  handle_snapshot_delete (some raw) = delete_normalized (normalize_snapshot_id raw)
