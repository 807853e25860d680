-- ===== src/Server/Creation.antt =====
-- The processes that handleCreate of cmd/server/handlers.go leaves, over createSandbox,
-- createSandboxFromSnapshot and createSandboxFresh.
use manta.Prelude.{ℕ, ◌+◌, ◌≤◌, ◌%◌, ◌^◌, Bool, true, false, arith, if◌then◌else◌}
use manta.Text.{Str}
use manta.Types.{Config, Sandbox}
use manta.Machine.{Env, Result, ok, err, World, M, continue}
use manta.Machine.Trace.{count}
use manta.Machine.Debt.{left}
use manta.Sandbox.Processes.{is_started, is_killed}
use manta.Sandbox.Create.{create_fresh}
use manta.Sandbox.Create.Failure.{create_fresh_leaves_no_process}
use manta.Sandbox.Restore.{restore_sandbox}
use manta.Sandbox.Restore.Failure.{restore_leaves_no_process}
use manta.Snapshot.{SnapshotPaths, ensure_snapshot, create_from_snapshot}
use manta.Snapshot.Golden.{ensure_snapshot_leaves_no_process}
use manta.Server.{Reply, sandbox_id, create_sandbox, create_reply, handle_create}

-- Between two worlds, the starts are at most `n` more than the calls for a kill.
abbrev pub Leaves : ℕ → World → World → Type 0
Leaves n w w' =
    count is_started w'.trace + count is_killed w.trace
    ≤ count is_killed w'.trace + count is_started w.trace + n

-- One for a sandbox that is created, and none for any other reply.
abbrev pub kept : Result Reply → ℕ
kept (ok (Reply.created id)) = 1
kept _ = 0

module _ (env : Env) (cfg : Config) (id : Str) where
  from_snapshot-Leaves :
      (w : World)
      → Leaves
          (left 1 (create_from_snapshot env cfg id w).0)
          w
          (create_from_snapshot env cfg id w).1
  unfolding create_from_snapshot
  from_snapshot-Leaves w =
      restored (ensure_snapshot env cfg w).0 (ensure_snapshot env cfg w).1
        (ensure_snapshot_leaves_no_process env cfg w)
    where
      restore : SnapshotPaths → M Sandbox
      restore sp =
          restore_sandbox env cfg id sp.base_disk sp.state_file sp.mem_file
            cfg.keep_failed_sandboxes

      restored :
          (r : Result SnapshotPaths) (w' : World)
          → count is_started w'.trace + count is_killed w.trace
            ≤ count is_killed w'.trace + count is_started w.trace
          → Leaves (left 1 (continue r restore w').0) w (continue r restore w').1
      restored (ok sp) w' h = omega (
        arith,
        h,
        restore_leaves_no_process env cfg id sp.base_disk sp.state_file sp.mem_file
            cfg.keep_failed_sandboxes w',
      )
      restored (err e) w' h = omega arith

  create-Leaves :
      (w : World)
      → Leaves (left 1 (create_sandbox env cfg id w).0) w (create_sandbox env cfg id w).1
  unfolding create_sandbox
  create-Leaves w = by_mode cfg.enable_snapshots
    where
      by_mode :
          (b : Bool)
          → let m = if b then create_from_snapshot env cfg id else create_fresh env cfg id in
            Leaves (left 1 (m w).0) w (m w).1
      by_mode true = from_snapshot-Leaves w
      by_mode false = omega (arith, create_fresh_leaves_no_process env cfg id w)

-- handleCreate starts at most one Firecracker more than it calls for the kill of a process group
-- when it replies with a sandbox, and no more than that when it replies anything else.
pub handle_create-Leaves :
    (env : Env) (w : World) → Leaves (kept (handle_create env w).0) w (handle_create env w).1
unfolding handle_create
handle_create-Leaves env w =
    replied (create_sandbox env w.server.cfg id counted).0
      (create_sandbox env w.server.cfg id counted).1 (create-Leaves env w.server.cfg id counted)
  where
    n : ℕ
    n = (w.server.next_sandbox_id + 1) % 2 ^ 64

    id : Str
    id = sandbox_id n

    counted : World
    counted = record w { server = record w.server { next_sandbox_id = n } }

    replied :
        (r : Result Sandbox) (w' : World)
        → Leaves (left 1 r) w w'
        → Leaves (kept (create_reply env r w').0) w (create_reply env r w').1
    replied (ok sb) w' h = h
    replied (err e) w' h = h
