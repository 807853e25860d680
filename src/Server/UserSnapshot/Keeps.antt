-- ===== src/Server/UserSnapshot/Keeps.antt =====
-- What the handlers of user snapshots do to the map of sandboxes.
use manta.Prelude.{
  ℕ, ◌+◌, ◌%◌, ◌^◌, ◌≤◌, ◌<◌, ◌≡◌, refl, ap, ◌⊎◌, inl, inr, Bool, true, false, Option, none, some,
  String, not, arith, if◌then◌else◌,
}
use manta.Text.{Str, is_empty, str_eq}
use manta.Text.Trim.{trim_space}
use manta.Types.{Config, Sandbox, Server, UserSnapshotMeta}
use manta.Machine.{Env, Result, ok, err, World, M}
use manta.Machine.Keeps.{Keeps, keeps_rules}
use manta.Machine.Yields.{Yields, yields_rules}
use manta.Sandbox.Keeps.{rootfs-Keeps, renamed-Keeps}
use manta.Sandbox.Restore.Keeps.{restore-Keeps}
use manta.Server.{Reply, sandbox_id}
use manta.Server.Keeps.{Preserves, preserves_rules, set_agent-Preserves}
use manta.Server.Invariant.{
  IsNew, IsWellFormed, restore-Yields, create_reply-Outcome, Outcome-IsWellFormed,
  sandbox_id_absent,
}
use manta.Server.Invariant.Removal.{registry-IsWellFormed}
use manta.Server.UserSnapshot.{
  close_agent, write_user_snapshot_meta, persist_disk, resume_with, capture, create_user_snapshot,
  snapshot_reply, snapshot_found, snapshot_named, handle_snapshot_create, with_id,
  load_user_snapshot_meta, create_from_user_snapshot, restore_user, same_lineage, meta_loaded,
  restore_normalized, handle_snapshot_restore, delete_reply, delete_normalized,
  handle_snapshot_delete,
}
use manta.Server.UserSnapshot.Ids.{normalize_snapshot_id}

module _ (env : Env) where
  close-Keeps : (c : Option ℕ) → Keeps (close_agent env c)
  close-Keeps none = search keeps_rules
  close-Keeps (some c) = search keeps_rules depth 8

  write-Keeps : (cfg : Config) (id : Str) → Keeps (write_user_snapshot_meta env cfg id)
  unfolding write_user_snapshot_meta
  write-Keeps cfg id = search keeps_rules depth 10

  persist-Keeps : (cfg : Config) (src dst : Str) → Keeps (persist_disk env cfg src dst)
  unfolding persist_disk
  persist-Keeps cfg src dst = search (keeps_rules, rootfs-Keeps env, renamed-Keeps env) depth 10

  resume-Keeps : (sb : Sandbox) (meta : UserSnapshotMeta) → Keeps (resume_with env sb meta)
  unfolding resume_with
  resume-Keeps sb meta = search keeps_rules depth 10

  capture-Keeps : (cfg : Config) (sb : Sandbox) (id name : Str) → Keeps (capture env cfg sb id name)
  unfolding capture
  capture-Keeps cfg sb id name =
      search (keeps_rules, write-Keeps, persist-Keeps, resume-Keeps) depth 20

  create-Preserves :
      (cfg : Config) (key : Str) (sb : Sandbox) (id name : Str)
      → Preserves (create_user_snapshot env cfg key sb id name)
  unfolding create_user_snapshot
  create-Preserves cfg key sb id name =
      search (preserves_rules, keeps_rules, close-Keeps, set_agent-Preserves, capture-Keeps) depth
        14

  reply-Keeps : (r : Result UserSnapshotMeta) → Keeps (snapshot_reply env r)
  reply-Keeps (ok meta) = search keeps_rules
  reply-Keeps (err e) = search keeps_rules

  found-Preserves :
      (key name : Str) (o : Option Sandbox) → Preserves (snapshot_found env key name o)
  found-Preserves key name none = search (preserves_rules, keeps_rules)
  found-Preserves key name (some sb) =
      search (preserves_rules, keeps_rules, create-Preserves, reply-Keeps) depth 12

  named-Preserves : (key name : Str) → Preserves (snapshot_named env key name)
  named-Preserves key name = search (preserves_rules, keeps_rules, found-Preserves) depth 8

  pub snapshot_create-Preserves :
      (req : Option (Str × Str)) → Preserves (handle_snapshot_create env req)
  unfolding handle_snapshot_create
  snapshot_create-Preserves none = search (preserves_rules, keeps_rules)
  snapshot_create-Preserves (some (key, name)) =
      search (preserves_rules, keeps_rules, named-Preserves) depth 8

  delete_reply-Keeps : (r : Result (Unit {0})) → Keeps (delete_reply env r)
  delete_reply-Keeps (ok u) = search keeps_rules
  delete_reply-Keeps (err e) = search keeps_rules

  delete-Keeps : (o : String ⊎ Str) → Keeps (delete_normalized env o)
  delete-Keeps (inl text) = search keeps_rules
  delete-Keeps (inr id) = search (keeps_rules, delete_reply-Keeps) depth 10

  pub snapshot_delete-Keeps : (raw : Option Str) → Keeps (handle_snapshot_delete env raw)
  unfolding handle_snapshot_delete
  snapshot_delete-Keeps none = search keeps_rules
  snapshot_delete-Keeps (some raw) = delete-Keeps (normalize_snapshot_id raw)

  with_id-Keeps : (id : Str) (o : Option UserSnapshotMeta) → Keeps (with_id env id o)
  with_id-Keeps id none = search keeps_rules
  with_id-Keeps id (some meta) = search keeps_rules

  pub load-Keeps : (cfg : Config) (id : Str) → Keeps (load_user_snapshot_meta env cfg id)
  unfolding load_user_snapshot_meta
  load-Keeps cfg id = search (keeps_rules, with_id-Keeps) depth 10

  pub from_user-Keeps :
      (cfg : Config) (id : Str) (meta : UserSnapshotMeta)
      → Keeps (create_from_user_snapshot env cfg id meta)
  unfolding create_from_user_snapshot
  from_user-Keeps cfg id meta = search (keeps_rules, restore-Keeps env) depth 14

  pub from_user-Yields :
      (cfg : Config) (id : Str) (meta : UserSnapshotMeta)
      → Yields (IsNew id) (create_from_user_snapshot env cfg id meta)
  unfolding create_from_user_snapshot
  from_user-Yields cfg id meta = search (yields_rules, restore-Yields env) depth 14

  -- Well formed, and at most one id further.
  abbrev Grown : Server → Server → Type 0
  Grown s s' = IsWellFormed s' × (s'.next_sandbox_id ≤ s.next_sandbox_id + 1)

  restore_user-Grown :
      (cfg : Config) (meta : UserSnapshotMeta) (w : World)
      → IsWellFormed w.server
      → w.server.next_sandbox_id + 1 < 2 ^ 64
      → Grown w.server (restore_user env cfg meta w).1.server
  unfolding restore_user
  restore_user-Grown cfg meta w wf room =
      let n = w.server.next_sandbox_id + 1 in
      let exact : n % 2 ^ 64 ≡ n = omega (arith, room) in
      let w1 = record w { server = record w.server { next_sandbox_id = n } } in
      let made = create_from_user_snapshot env cfg (sandbox_id n) meta in
      let kept = (from_user-Keeps cfg (sandbox_id n) meta).at w1 in
      let (outcome, next) =
        create_reply-Outcome env w.server (sandbox_id n) n (made w1).0 (made w1).1
          ((from_user-Yields cfg (sandbox_id n) meta).at w1) (sandbox_id_absent w.server wf) refl
          (ap (λ r. r.0) kept) (ap (λ r. r.1) kept) in
      rw exact (Outcome-IsWellFormed w.server _ _ wf next outcome, omega (arith, next))

  same-Grown : (s : Server) → IsWellFormed s → Grown s s
  same-Grown s wf = (wf, omega arith)

  if-Grown :
      (b : Bool) (m k : M Reply) (w : World)
      → Grown w.server (m w).1.server
      → Grown w.server (k w).1.server
      → Grown w.server ((if b then m else k) w).1.server
  if-Grown true m k w h i = h
  if-Grown false m k w h i = i

  lineage-Grown :
      (cfg : Config) (meta : UserSnapshotMeta) (w : World)
      → IsWellFormed w.server
      → w.server.next_sandbox_id + 1 < 2 ^ 64
      → Grown w.server (same_lineage env cfg meta w).1.server
  lineage-Grown cfg meta w wf room =
      let same = same-Grown w.server wf in
      let restored = restore_user-Grown cfg meta w wf room in
      if-Grown (is_empty (trim_space cfg.base_rootfs_lineage_id)) _ _ w restored (
        if-Grown (is_empty (trim_space meta.lineage_id)) _ _ w same (
          if-Grown
            (not (str_eq (trim_space meta.lineage_id) (trim_space cfg.base_rootfs_lineage_id))) _ _
            w same restored))

  loaded-Grown :
      (cfg : Config) (r : Result UserSnapshotMeta) (w : World)
      → IsWellFormed w.server
      → w.server.next_sandbox_id + 1 < 2 ^ 64
      → Grown w.server (meta_loaded env cfg r w).1.server
  loaded-Grown cfg (ok meta) w wf room = lineage-Grown cfg meta w wf room
  loaded-Grown cfg (err e) w wf room = same-Grown w.server wf

  normalized-Grown :
      (o : String ⊎ Str) (w : World)
      → IsWellFormed w.server
      → w.server.next_sandbox_id + 1 < 2 ^ 64
      → Grown w.server (restore_normalized env o w).1.server
  normalized-Grown (inl text) w wf room = same-Grown w.server wf
  normalized-Grown (inr id) w wf room =
      let load = load_user_snapshot_meta env w.server.cfg id in
      let kept = (load-Keeps w.server.cfg id).at w in
      let next = ap (λ r. r.1) kept in
      let (good, small) =
        loaded-Grown w.server.cfg (load w).0 (load w).1
          (registry-IsWellFormed w.server (load w).1.server kept wf) (omega (arith, next, room)) in
      (good, omega (arith, small, next))

  -- The restoration of a user snapshot keeps the map well formed.
  pub snapshot_restore-Grown :
      (raw : Option Str) (w : World)
      → IsWellFormed w.server
      → w.server.next_sandbox_id + 1 < 2 ^ 64
      → IsWellFormed (handle_snapshot_restore env raw w).1.server
        × ((handle_snapshot_restore env raw w).1.server.next_sandbox_id
            ≤ w.server.next_sandbox_id + 1)
  unfolding handle_snapshot_restore
  snapshot_restore-Grown none w wf room = same-Grown w.server wf
  snapshot_restore-Grown (some raw) w wf room =
      normalized-Grown (normalize_snapshot_id raw) w wf room
