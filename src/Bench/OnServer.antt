-- ===== src/Bench/OnServer.antt =====
-- cmd/bench and cmd/bench_restore against the server: their client answered by its handlers.
pub mod Restoring
pub mod Opening
pub mod Restores
pub mod Whole
pub mod Bracket
use manta.Prelude.{
  ℕ, zero, suc, ◌+◌, ◌-◌, ◌^◌, ◌⊎◌, inl, inr, ◌<◌, ◌≤◌, ◌≡◌, ◌≢◌, refl, ◌∙◌, ap, sym, Bool, true,
  false, List, [], ◌∷◌, ◌++◌, Option, none, some, arith, ltb, ◌||◌, not, if◌then◌else◌,
}
use manta.Prelude.Int.{pos}
use manta.Text.{Str, lit, is_empty, str_eq_iff}
use manta.Text.Trim.{trim_space, trim_space-IsVisible}
use manta.Text.Decimal.{dec, dec-last}
use manta.Types.{Sandbox, Server}
use manta.Machine.{Env, Result, ok, err, World}
use manta.Lifecycle.Drain.{Rounds}
use manta.Server.{Reply, created, panicked, status, sandbox_id, handle_create, handle_destroy}
use manta.Server.Registry.{
  Table, lookup, delete, map_values, map_values-delete, delete_absent, lookup-map_values_absent,
}
use manta.Server.Exec.{handle_exec}
use manta.Server.Keeps.{view, views, handle_exec_restores}
use manta.Server.Invariant.{IsWellFormed, CreateOutcome, handle_create-Outcome}
use manta.Server.Invariant.Removal.{removed}
use manta.Server.UserSnapshot.{handle_snapshot_create, handle_snapshot_restore}
use manta.Bench.{
  HttpRequest, create, exec, destroy, snapshot_create, snapshot_restore, IdResponse, ExecResponse,
  DestroyResponse, Http, Failure, Outcome, Session, continue, do_json, ok_status, decoded, ◌>>=◌,
}
use manta.Bench.Calls.{
  Moves, Moves-pure, Moves-then, Moves-after, Moves-json, Moves-catch_bind, moves_rules,
}
use manta.Bench.Exec.{
  create_sandbox, exec_sandbox, destroy_sandbox, id_in, finish, run_in, run_once,
}

-- encoding/json between the two programs: how a reply is written, and how the client reads a body.
-- What the client reads of the reply to a creation is its id, and no error.
pub record Json : Type 0 where
  pub encode : Reply → Str
  pub created_of : Str → Option IdResponse
  pub executed_of : Str → Option ExecResponse
  pub destroyed_of : Str → Option DestroyResponse
  pub id_of : Str → Option IdResponse
  pub created_back :
      (n : ℕ)
      → created_of (encode (created (sandbox_id n)))
        ≡ some (record { id = sandbox_id n; error = [] })

-- How the exchange of a request goes: client.Do fails before the server has the request, or with or
-- after it, so that the handler runs and the client has an error (its timeout, or a body that breaks
-- off), or the client has the reply.
pub data Delivery : Type 0 where
  unsent lost answered : Delivery

-- How each exchange goes, which may depend on everything before.
abbrev pub Network : Type 0
Network = HttpRequest → World → Delivery

-- The replies that tell the client of a new sandbox are not lost, and the requests to destroy one
-- reach the server. Everything else may fail.
pub record IsFair (net : Network) : Type 0 where
  pub created_told : (w : World) → net create w ≢ lost
  pub restored_told : (snapshot : Str) (w : World) → net (snapshot_restore snapshot) w ≢ lost
  pub destroys_sent : (id : Str) (w : World) → net (destroy id) w ≢ unsent

abbrev pub carried : Delivery → World → Option (ℕ × Str) × World → Option (ℕ × Str) × World
carried unsent w (a, w') = (none, w)
carried lost w (a, w') = (none, w')
carried answered w (a, w') = (a, w')

pub sandbox_id_visible : (n : ℕ) → is_empty (trim_space (sandbox_id n)) ≡ false
unfolding sandbox_id
sandbox_id_visible n =
    let (front, d, small, e) = dec-last n in
    rw e (
      rw
        (trim_space-IsVisible 115 (98 ∷ 45 ∷ front) (48 + d) (omega arith, omega arith)
          (omega arith, omega arith))
        refl)

pub sandbox_id_there : (n : ℕ) → is_empty (sandbox_id n) ≡ false
unfolding sandbox_id
sandbox_id_there n = refl

module _ (json : Json) (env : Env) (r : Rounds) (net : Network) where
  -- The client sees a status and a body, or a connection that is closed without a reply.
  abbrev pub answer : Result Reply → Option (ℕ × Str)
  answer (ok panicked) = none
  answer (ok reply) = some (status reply, json.encode reply)
  answer (err e) = none

  abbrev pub replied : Result Reply × World → Option (ℕ × Str) × World
  replied (reply, w) = (answer reply, w)

  -- The routes of main.go, with the bodies that the client sends.
  abbrev pub serve_route : HttpRequest → World → Option (ℕ × Str) × World
  serve_route create w = replied (handle_create env w)
  serve_route (exec id cmd) w = replied (
      handle_exec env
        (some
          (record { sandbox_id = id; cmd = cmd; argv = []; use_shell = none; timeout_ms = pos 0 }))
        w)
  serve_route (destroy id) w = replied (handle_destroy env r (some id) w)
  serve_route (snapshot_create id name) w = replied (handle_snapshot_create env (some (id, name)) w)
  serve_route (snapshot_restore id) w = replied (handle_snapshot_restore env (some id) w)

  -- A handler whose reply is lost ends before the next request.
  abbrev pub send : HttpRequest → World → Option (ℕ × Str) × World
  send c w = carried (net c w) w (serve_route c w)

  abbrev pub server_http : Http World
  server_http = record {
    send = send;
    now = λ w. env.now w.trace;
    created = json.created_of;
    executed = json.executed_of;
    destroyed = json.destroyed_of;
    snapshotted = json.id_of;
    restored = json.created_of;
  }

  -- The map of sandboxes but for their connections to the agent.
  abbrev pub boxes : World → Table Sandbox
  boxes w = map_values view w.server.sandboxes

  pub created_and_gone :
      (id : Str) (sb : Sandbox) (w w' : World)
      → w'.server.sandboxes ≡ (id, sb) ∷ w.server.sandboxes
      → lookup id w.server.sandboxes ≡ none
      → delete id (boxes w') ≡ boxes w
  unfolding map_values delete
  created_and_gone id sb w w' grown fresh =
      let itself = (str_eq_iff id id).1 refl in
      ap (λ l. delete id (map_values view l)) grown
      ∙ rw itself
          (delete_absent id (boxes w) (lookup-map_values_absent view id w.server.sandboxes fresh))
