-- ===== src/Server.antt =====
-- cmd/server/handlers.go, with `createSandbox` and `destroyAll` of sandbox.go and the shutdown of
-- main.go. A handler runs here from its request to its reply without another one between; what the
-- other handlers do to one sandbox meanwhile is in Lifecycle/Interleaving. A request is what
-- `decodeJSON` delivers, none where that fails.
pub mod Registry
pub mod Exec
pub mod Keeps
pub mod Invariant
pub mod Creation
pub mod Destroy
pub mod Waits
pub mod UserSnapshot
use manta.Prelude.{
  ℕ, ◌+◌, ◌%◌, ◌^◌, Bool, true, false, List, [], ◌∷◌, ◌++◌, Option, none, some, String,
  if◌then◌else◌,
}
use manta.Prelude.Int.{ℤ}
use manta.Text.{Str, lit, is_empty}
use manta.Text.Trim.{trim_space}
use manta.Text.Decimal.{dec}
use manta.Types.{Config, Sandbox, Server, UserSnapshotMeta}
use manta.Machine.{
  Env, Error, Result, ok, err, World, M, pure, raise, modify, gets, catch, ◌>>=◌, ◌>>◌,
}
use manta.Lifecycle.{begin_destroy, finish_destroy}
use manta.Lifecycle.Drain.{Rounds, wait_for_exec_drain, drain_timeout}
use manta.Netns.Pool.{destroy_pool}
use manta.Sandbox.Create.{create_fresh}
use manta.Sandbox.Cleanup.{cleanup_sandbox}
use manta.Snapshot.{create_from_snapshot}
use Registry.{Table, lookup, delete, insert, update}

-- The status with the text of the error, or the payload of a 200.
pub data Reply : Type 0 where
  created : Str → Reply
  executed : Str → Str → ℤ → Reply
  destroyed : Reply
  snapshotted : Str → Reply
  snapshot_deleted : Reply
  listed : List UserSnapshotMeta → Reply
  bad_request not_found conflict : String → Reply
  failed : Error → Reply
  cleanup_failed : List Error → Reply
  -- the handler panics, and net/http closes the connection without a reply
  panicked : Reply

abbrev pub status : Reply → ℕ
status (created id) = 200
status (executed out errors code) = 200
status destroyed = 200
status (snapshotted id) = 200
status snapshot_deleted = 200
status (listed items) = 200
status (bad_request text) = 400
status (not_found text) = 404
status (conflict text) = 409
status (failed e) = 500
status (cleanup_failed errors) = 500
status panicked = 0

abbrev pub set_sandboxes : (Table Sandbox → Table Sandbox) → Server → Server
set_sandboxes f s = record s { sandboxes = f s.sandboxes }

-- The sandbox that the map points to.
unfoldable pub modify_sandbox : Str → (Sandbox → Sandbox) → M (Unit {0})
modify_sandbox id f = modify (set_sandboxes (update id f))

unfoldable pub sandbox_id : ℕ → Str
sandbox_id n = lit "sb-" ++ dec n

abbrev pub drained : Option Bool → M (Unit {0})
drained none = raise Error.out_of_fuel
drained (some _) = pure tt

-- The drain of a handler, with what it reads of the counter in each round.
unfoldable pub drain : Rounds → M (Unit {0})
drain r = drained (wait_for_exec_drain r drain_timeout)

module _ (env : Env) where
  unfoldable pub create_sandbox : Config → Str → M Sandbox
  create_sandbox cfg id =
      if cfg.enable_snapshots then create_from_snapshot env cfg id else create_fresh env cfg id

  abbrev pub create_reply : Result Sandbox → M Reply
  create_reply (err e) = pure (failed e)
  create_reply (ok sb) = do modify (set_sandboxes (insert sb.id sb)); pure (created sb.id)

  -- The counter is a uint64.
  unfoldable pub handle_create : M Reply
  handle_create = do
    n ← gets (λ s. (s.next_sandbox_id + 1) % 2 ^ 64)
    modify (λ s. record s { next_sandbox_id = n })
    cfg ← gets (λ s. s.cfg)
    made ← catch (create_sandbox cfg (sandbox_id n))
    create_reply made

  abbrev pub cleanup_reply : List Error → Reply
  cleanup_reply [] = destroyed
  cleanup_reply (e ∷ es) = cleanup_failed (e ∷ es)

  -- The reply, and the sandbox as it is left.
  abbrev pub destroy_begun : Rounds → Sandbox × Bool → M (Reply × Sandbox)
  destroy_begun r (sb, false) = pure (conflict "sandbox is closing", sb)
  destroy_begun r (sb, true) = do
    drain r
    (cleaned, errors) ← cleanup_sandbox env sb
    pure (cleanup_reply errors, finish_destroy cleaned)

  abbrev pub destroy_found : Rounds → Option Sandbox → M Reply
  destroy_found r none = pure (not_found "sandbox not found")
  destroy_found r (some sb) = do (reply, left) ← destroy_begun r (begin_destroy sb); pure reply

  abbrev pub destroy_named : Rounds → Str → M Reply
  destroy_named r id = do
    found ← gets (λ s. lookup id s.sandboxes)
    modify (set_sandboxes (delete id))
    destroy_found r found

  unfoldable pub handle_destroy : Rounds → Option Str → M Reply
  handle_destroy r none = pure (bad_request "invalid request body")
  handle_destroy r (some id) =
      if is_empty (trim_space id)
      then pure (bad_request "sandbox_id is required")
      else destroy_named r id

  abbrev pub drain_if : Rounds → Bool → M (Unit {0})
  drain_if r true = drain r
  drain_if r false = pure tt

  -- One sandbox of `destroyAll`: it is cleaned up also where another call destroys it already.
  unfoldable pub shut_sandbox : Rounds → Sandbox → M Sandbox
  shut_sandbox r sb =
      let (sb', first) = begin_destroy sb in
      do
        drain_if r first
        (cleaned, errors) ← cleanup_sandbox env sb'
        pure (finish_destroy cleaned)

  unfoldable pub shut_each : (Str → Rounds) → Table Sandbox → M (Unit {0})
  shut_each r [] = pure tt
  shut_each r ((k, sb) ∷ l) = do _ ← shut_sandbox (r k) sb; shut_each r l

  -- The order in which Go visits a map is arbitrary; here it is the list's.
  unfoldable pub destroy_all : (Str → Rounds) → M (Unit {0})
  destroy_all r = do
    all ← gets (λ s. s.sandboxes)
    modify (set_sandboxes (λ _. []))
    shut_each r all

  -- What `main` does after the signal, once the HTTP server has shut down.
  unfoldable pub shut_down : (Str → Rounds) → M (Unit {0})
  shut_down r = do destroy_pool env; destroy_all r
