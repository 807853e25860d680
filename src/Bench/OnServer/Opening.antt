-- ===== src/Bench/OnServer/Opening.antt =====
-- The benchmarks against the server: the calls that open a sandbox.
use manta.Prelude.{
  ℕ, List, sym, subst, ◌≢◌, ◌+◌, ◌^◌, ◌<◌, ◌≤◌, ◌≡◌, refl, false, none, some, arith, ◌∷◌,
}
use manta.Text.{Str, is_empty}
use manta.Text.Trim.{trim_space}
use manta.Types.{Sandbox}
use manta.Machine.{Env, World, Result, ok, err}
use manta.Lifecycle.Drain.{Rounds}
use manta.Server.Registry.{lookup}
use manta.Server.{Reply, handle_create, sandbox_id}
use manta.Server.Invariant.{IsWellFormed, handle_create-Outcome, handle_create-IsWellFormed}
use manta.Server.UserSnapshot.{handle_snapshot_restore}
use manta.Server.UserSnapshot.Keeps.{snapshot_restore-Grown}
use manta.Server.UserSnapshot.Outcome.{
  RestoreOutcome, handle_snapshot_restore-Outcome, Create-RestoreOutcome,
}
use manta.Bench.{
  HttpRequest, create, snapshot_restore, Http, Outcome, Session, M, continue, do_json, decoded,
  ok_status, ◌>>=◌,
}
use manta.Bench.Calls.{Moves, Moves-json, moves_rules}
use manta.Bench.Exec as Exec
use manta.Bench.Restore.{create_sandbox, restore_sandbox, id_of}
use manta.Bench.OnServer.{
  Json, Network, Delivery, IsFair, unsent, lost, answered, carried, send, server_http,
  sandbox_id_visible, sandbox_id_there, answer,
}

-- What the client has after a call that opens a sandbox: the id of one that is new in the map, or a
-- failure that left the map.
abbrev pub Opened : World → Outcome Str → World → Type 0
Opened w (Outcome.done id) w' =
    ((sb : Sandbox) × (w'.server.sandboxes ≡ (id, sb) ∷ w.server.sandboxes))
    × (lookup id w.server.sandboxes ≡ none)
    × (is_empty (trim_space id) ≡ false)
Opened w (Outcome.failed e) w' = w'.server.sandboxes ≡ w.server.sandboxes

module _ (json : Json) (env : Env) (r : Rounds) (net : Network) where
  abbrev pub http : Http World
  http = server_http json env r net

  -- How the client goes on from the body of a reply that tells of a sandbox.
  abbrev Reads : (Str → M World Str) → Type 0
  Reads k =
      (n : ℕ) (s : Session World)
      → (k (json.encode (Reply.created (sandbox_id n))) s).0 ≡ Outcome.done (sandbox_id n)

  -- How the client reads the reply to a request that opens a sandbox.
  reply-Opened :
      (k : Str → M World Str) (w w' : World) (reply : Result Reply) (s : Session World)
      → Reads k
      → RestoreOutcome w.server.sandboxes w'.server reply
      → Opened w (continue (ok_status (answer json env r net reply)) k s).0 w'
  reply-Opened k w w' (ok (Reply.created id)) s reads (named, fresh, (sb, new, grown)) =
      let visible : is_empty (trim_space id) ≡ false = rw named (sandbox_id_visible _) in
      let read : (k (json.encode (Reply.created id)) s).0 ≡ Outcome.done id =
        subst (λ i. (k (json.encode (Reply.created i)) s).0 ≡ Outcome.done i) (sym named)
          (reads _ s) in
      rw read ((sb, grown), fresh, visible)
  reply-Opened k w w' (ok (Reply.failed e)) s reads h = h
  reply-Opened k w w' (ok (Reply.bad_request t)) s reads h = h
  reply-Opened k w w' (ok (Reply.not_found t)) s reads h = h
  reply-Opened k w w' (ok (Reply.conflict t)) s reads h = h
  reply-Opened k w w' (ok (Reply.executed _ _ _)) s reads h = elim h [ ]
  reply-Opened k w w' (ok (Reply.snapshotted _)) s reads h = elim h [ ]
  reply-Opened k w w' (ok (Reply.listed _)) s reads h = elim h [ ]
  reply-Opened k w w' (ok (Reply.cleanup_failed _)) s reads h = elim h [ ]
  reply-Opened k w w' (ok Reply.destroyed) s reads h = elim h [ ]
  reply-Opened k w w' (ok Reply.snapshot_deleted) s reads h = elim h [ ]
  reply-Opened k w w' (ok Reply.panicked) s reads h = elim h [ ]
  reply-Opened k w w' (err _) s reads h = elim h [ ]

  -- What an exchange that opens a sandbox leaves.
  abbrev Left : World → Outcome Str → World → Type 0
  Left w o w' =
      Opened w o w'
      × IsWellFormed w'.server
      × (w'.server.next_sandbox_id ≤ w.server.next_sandbox_id + 1)

  carried-Left :
      (k : Str → M World Str) (d : Delivery) (w w' : World) (reply : Result Reply) (c : HttpRequest)
      (calls : List HttpRequest)
      → d ≢ lost
      → Reads k
      → IsWellFormed w.server
      → IsWellFormed w'.server
      → (w'.server.next_sandbox_id ≤ w.server.next_sandbox_id + 1)
      → RestoreOutcome w.server.sandboxes w'.server reply
      → let (a, p) = carried d w (answer json env r net reply, w') in
        Left w (continue (ok_status a) k (record { calls = calls; peer = p })).0 p
  carried-Left k unsent w w' reply c calls told reads wf wf' small h = (refl, wf, omega arith)
  carried-Left k lost w w' reply c calls told reads wf wf' small h = absurd (told refl)
  carried-Left k answered w w' reply c calls told reads wf wf' small h =
      (reply-Opened k w w' reply (record { calls = calls; peer = w' }) reads h, wf', small)

  pub record Opens (m : M World Str) : Type 0 where
    pub at :
        (s : Session World)
        → IsWellFormed s.peer.server
        → s.peer.server.next_sandbox_id + 1 < 2 ^ 64
        → Left s.peer (m s).0 (m s).1.peer

  -- The client's call of /create, whatever it does to read the reply.
  created-Left :
      (fair : IsFair net) (k : Str → M World Str) (s : Session World)
      → Reads k
      → IsWellFormed s.peer.server
      → s.peer.server.next_sandbox_id + 1 < 2 ^ 64
      → let (a, p) = send json env r net create s.peer in
        Left s.peer (continue (ok_status a) k (record { calls = create ∷ s.calls; peer = p })).0 p
  created-Left fair k s reads wf room =
      let (reply, w') = handle_create env s.peer in
      let (outcome, next) = handle_create-Outcome env s.peer wf room in
      carried-Left k (net create s.peer) s.peer w' reply create (create ∷ s.calls)
        (fair.created_told s.peer) reads wf (handle_create-IsWellFormed env s.peer wf room)
        (omega (arith, next)) (Create-RestoreOutcome s.peer.server w'.server reply outcome)

  restored-Left :
      (fair : IsFair net) (snapshot : Str) (k : Str → M World Str) (s : Session World)
      → Reads k
      → IsWellFormed s.peer.server
      → s.peer.server.next_sandbox_id + 1 < 2 ^ 64
      → let c = snapshot_restore snapshot in
        let (a, p) = send json env r net c s.peer in
        Left s.peer (continue (ok_status a) k (record { calls = c ∷ s.calls; peer = p })).0 p
  restored-Left fair snapshot k s reads wf room =
      let c = snapshot_restore snapshot in
      let (reply, w') = handle_snapshot_restore env (some snapshot) s.peer in
      let (good, small) = snapshot_restore-Grown env (some snapshot) s.peer wf room in
      carried-Left k (net c s.peer) s.peer w' reply c (c ∷ s.calls)
        (fair.restored_told snapshot s.peer) reads wf good small
        (handle_snapshot_restore-Outcome env (some snapshot) s.peer wf room)

  Reads-id : Reads (λ raw. decoded (json.created_of raw) >>= id_of http)
  Reads-id n s = rw (json.created_back n, sandbox_id_visible n) refl

  Reads-first_id : Reads (Exec.id_in http)
  Reads-first_id n s = rw (json.created_back n, sandbox_id_there n) refl

  restore-Moves :
      (snapshot : Str)
      → Moves
          (λ w. (send json env r net (snapshot_restore snapshot) w).1)
          (restore_sandbox http snapshot)
  unfolding restore_sandbox
  restore-Moves snapshot = search (moves_rules, Moves-json http) depth 10

  fixture-Moves : Moves (λ w. (send json env r net create w).1) (create_sandbox http)
  unfolding create_sandbox
  fixture-Moves = search (moves_rules, Moves-json http) depth 10

  create-Moves : Moves (λ w. (send json env r net create w).1) (Exec.create_sandbox http)
  unfolding Exec.create_sandbox
  create-Moves = search (moves_rules, Moves-json http) depth 10

  -- The three calls that open a sandbox: of the benchmark, of the fixture and of a restoring run.
  pub create-Opens : (fair : IsFair net) → Opens (Exec.create_sandbox http)
  unfolding Exec.create_sandbox do_json
  create-Opens fair = record {
    at = λ s wf room. rw (create-Moves.at s) (created-Left fair _ s Reads-first_id wf room);
  }

  pub fixture-Opens : (fair : IsFair net) → Opens (create_sandbox http)
  unfolding create_sandbox do_json
  fixture-Opens fair = record {
    at = λ s wf room. rw (fixture-Moves.at s) (created-Left fair _ s Reads-id wf room);
  }

  pub restore-Opens : (fair : IsFair net) (snapshot : Str) → Opens (restore_sandbox http snapshot)
  unfolding restore_sandbox do_json
  restore-Opens fair snapshot = record {
    at = λ s wf room.
        rw ((restore-Moves snapshot).at s) (restored-Left fair snapshot _ s Reads-id wf room);
  }
