-- ===== src/Server/UserSnapshot/Outcome.antt =====
-- What handleSnapshotRestore of cmd/server/user_snapshot.go replies, and what it does to the map.
use manta.Prelude.{
  ◌+◌, ◌%◌, ◌^◌, ◌<◌, ◌≡◌, refl, ap, subst, ◌⊎◌, inl, inr, Bool, true, false, Option, none, some,
  ◌∷◌, String, not, arith, if◌then◌else◌,
}
use manta.Text.{Str, is_empty, str_eq}
use manta.Text.Trim.{trim_space}
use manta.Types.{Config, Sandbox, Server, UserSnapshotMeta}
use manta.Machine.{Env, Result, ok, err, World, M}
use manta.Server.{Reply, sandbox_id, create_reply}
use manta.Server.Registry.{Table, lookup}
use manta.Server.Invariant.{
  IsNew, IsWellFormed, CreateOutcome, create_reply-Outcome, sandbox_id_absent,
}
use manta.Server.Invariant.Removal.{registry-IsWellFormed}
use manta.Server.UserSnapshot.{
  load_user_snapshot_meta, create_from_user_snapshot, restore_user, same_lineage, meta_loaded,
  restore_normalized, handle_snapshot_restore,
}
use manta.Server.UserSnapshot.Keeps.{load-Keeps, from_user-Keeps, from_user-Yields}
use manta.Server.UserSnapshot.Ids.{normalize_snapshot_id}

-- A fresh id, the counter's, of a sandbox that is added to the map, running and idle; with a
-- reply that it failed the map is as it was. There is no other reply.
abbrev pub RestoreOutcome : Table Sandbox → Server → Result Reply → Type 0
RestoreOutcome t s (ok (Reply.created id)) =
    (id ≡ sandbox_id s.next_sandbox_id)
    × (lookup id t ≡ none)
    × ((sb : Sandbox) × (IsNew id sb) × (s.sandboxes ≡ (id, sb) ∷ t))
RestoreOutcome t s (ok (Reply.failed e)) = s.sandboxes ≡ t
RestoreOutcome t s (ok (Reply.bad_request text)) = s.sandboxes ≡ t
RestoreOutcome t s (ok (Reply.not_found text)) = s.sandboxes ≡ t
RestoreOutcome t s (ok (Reply.conflict text)) = s.sandboxes ≡ t
RestoreOutcome t s _ = ⊥

pub Create-RestoreOutcome :
    (s s' : Server) (r : Result Reply) → CreateOutcome s s' r → RestoreOutcome s.sandboxes s' r
Create-RestoreOutcome s s' (ok (Reply.created id)) h = h
Create-RestoreOutcome s s' (ok (Reply.failed e)) h = h
Create-RestoreOutcome s s' (ok (Reply.executed _ _ _)) h = elim h [ ]
Create-RestoreOutcome s s' (ok Reply.destroyed) h = elim h [ ]
Create-RestoreOutcome s s' (ok (Reply.snapshotted _)) h = elim h [ ]
Create-RestoreOutcome s s' (ok Reply.snapshot_deleted) h = elim h [ ]
Create-RestoreOutcome s s' (ok (Reply.listed _)) h = elim h [ ]
Create-RestoreOutcome s s' (ok (Reply.bad_request _)) h = elim h [ ]
Create-RestoreOutcome s s' (ok (Reply.not_found _)) h = elim h [ ]
Create-RestoreOutcome s s' (ok (Reply.conflict _)) h = elim h [ ]
Create-RestoreOutcome s s' (ok (Reply.cleanup_failed _)) h = elim h [ ]
Create-RestoreOutcome s s' (ok Reply.panicked) h = elim h [ ]
Create-RestoreOutcome s s' (err _) h = elim h [ ]

module _ (env : Env) where
  -- From a well-formed server whose counter has room.
  record Restores (m : M Reply) : Type 0 where
    at :
        (w : World)
        → IsWellFormed w.server
        → w.server.next_sandbox_id + 1 < 2 ^ 64
        → RestoreOutcome w.server.sandboxes (m w).1.server (m w).0

  user-Restores : (cfg : Config) (meta : UserSnapshotMeta) → Restores (restore_user env cfg meta)
  unfolding restore_user
  user-Restores cfg meta = record {
    at = λ w wf room.
        let n = w.server.next_sandbox_id + 1 in
        let exact : n % 2 ^ 64 ≡ n = omega (arith, room) in
        let w1 = record w { server = record w.server { next_sandbox_id = n } } in
        let made = create_from_user_snapshot env cfg (sandbox_id n) meta in
        let kept = (from_user-Keeps env cfg (sandbox_id n) meta).at w1 in
        let (outcome, next) =
          create_reply-Outcome env w.server (sandbox_id n) n (made w1).0 (made w1).1
            ((from_user-Yields env cfg (sandbox_id n) meta).at w1) (sandbox_id_absent w.server wf)
            refl (ap (λ r. r.0) kept) (ap (λ r. r.1) kept) in
        rw exact (
          Create-RestoreOutcome w.server (create_reply env (made w1).0 (made w1).1).1.server _
            outcome);
  }

  Restores-if : (b : Bool) (m k : M Reply) → Restores m → Restores k → Restores (if b then m else k)
  Restores-if true m k h i = h
  Restores-if false m k h i = i

  lineage-Restores : (cfg : Config) (meta : UserSnapshotMeta) → Restores (same_lineage env cfg meta)
  lineage-Restores cfg meta =
      Restores-if (is_empty (trim_space cfg.base_rootfs_lineage_id)) _ _ (user-Restores cfg meta) (
        Restores-if (is_empty (trim_space meta.lineage_id)) _ _ (record { at = λ w wf room. refl })
          (Restores-if
            (not (str_eq (trim_space meta.lineage_id) (trim_space cfg.base_rootfs_lineage_id))) _ _
            (record { at = λ w wf room. refl }) (user-Restores cfg meta)))

  loaded-Restores : (cfg : Config) (r : Result UserSnapshotMeta) → Restores (meta_loaded env cfg r)
  loaded-Restores cfg (ok meta) = lineage-Restores cfg meta
  loaded-Restores cfg (err e) = record { at = λ w wf room. refl }

  normalized-Restores : (o : String ⊎ Str) → Restores (restore_normalized env o)
  normalized-Restores (inl text) = record { at = λ w wf room. refl }
  normalized-Restores (inr id) = record {
    at = λ w wf room.
        let load = load_user_snapshot_meta env w.server.cfg id in
        let kept = (load-Keeps env w.server.cfg id).at w in
        let next = ap (λ r. r.1) kept in
        let rest = meta_loaded env w.server.cfg (load w).0 (load w).1 in
        subst (λ t. RestoreOutcome t rest.1.server rest.0) (ap (λ r. r.0) kept)
          ((loaded-Restores w.server.cfg (load w).0).at (load w).1
            (registry-IsWellFormed w.server (load w).1.server kept wf) (omega (arith, next, room)));
  }

  -- In a well-formed server whose counter has not reached its end, the restoration of a user
  -- snapshot answers with an id that was not in the map and adds exactly that sandbox, running and
  -- idle, or it answers with an error and leaves the map as it was.
  pub handle_snapshot_restore-Outcome :
      (raw : Option Str) (w : World)
      → IsWellFormed w.server
      → w.server.next_sandbox_id + 1 < 2 ^ 64
      → RestoreOutcome w.server.sandboxes
          (handle_snapshot_restore env raw w).1.server
          (handle_snapshot_restore env raw w).0
  unfolding handle_snapshot_restore
  handle_snapshot_restore-Outcome none w wf room = refl
  handle_snapshot_restore-Outcome (some raw) w wf room =
      (normalized-Restores (normalize_snapshot_id raw)).at w wf room
