-- ===== src/Bench/OnServer/Restoring.antt =====
-- cmd/bench_restore against the server: what its calls do to the map of sandboxes.
use manta.Prelude.{ℕ, ◌≡◌, ◌≢◌, refl, ◌∙◌, ap, Bool, true, false, Option, none, some}
use manta.Text.{Str, is_empty}
use manta.Text.Trim.{trim_space}
use manta.Machine.{Env, World}
use manta.Lifecycle.Drain.{Rounds}
use manta.Server.Registry.{delete, map_values, map_values-delete}
use manta.Server.{handle_destroy}
use manta.Server.Keeps.{view, views, handle_exec_restores}
use manta.Server.Invariant.{IsWellFormed}
use manta.Server.Invariant.Command.{views-IsWellFormed}
use manta.Server.Invariant.Removal.{removed, handle_destroy-IsWellFormed}
use manta.Server.UserSnapshot.Keeps.{snapshot_create-Preserves}
use manta.Bench.{
  exec, destroy, snapshot_create, Failure, Outcome, Session, M, pure, continue, catch, finally,
  check, decoded, do_json, clock, ◌>>=◌,
}
use manta.Bench.Calls.{Moves, Moves-json, moves_rules}
use manta.Bench.Restore.{
  exec_in_sandbox, destroy_sandbox, sanity, with_fixture, create_user_snapshot,
}
use manta.Bench.OnServer.{
  Json, Network, Delivery, IsFair, unsent, lost, answered, carried, serve_route, send, server_http,
  boxes,
}

-- The code leaves the map, connections to the agent aside, and the counter.
pub record Stays {A : Type 0} (m : M World A) : Type 0 where
  pub at : (s : Session World) → views (m s).1.peer.server ≡ views s.peer.server

pub Stays-pure : {A : Type 0} (a : A) → Stays (pure {S = World} a)
Stays-pure a = record { at = λ s. refl }

pub Stays-check : (b : Bool) (e : Failure) → Stays (check {S = World} b e)
Stays-check true e = record { at = λ s. refl }
Stays-check false e = record { at = λ s. refl }

pub Stays-decoded : {A : Type 0} (o : Option A) → Stays (decoded {S = World} o)
Stays-decoded none = record { at = λ s. refl }
Stays-decoded (some a) = record { at = λ s. refl }

pub Stays-bind :
    {A B : Type 0} (m : M World A) (k : A → M World B)
    → Stays m
    → ((a : A) → Stays (k a))
    → Stays (m >>= k)
Stays-bind {A} {B} m k hm hk = record { at = λ s. next (m s).0 (m s).1 s (hm.at s) }
  where
    next :
        (o : Outcome A) (s' s : Session World)
        → views s'.peer.server ≡ views s.peer.server
        → views (continue o k s').1.peer.server ≡ views s.peer.server
    next (Outcome.done a) s' s h = (hk a).at s' ∙ h
    next (Outcome.failed e) s' s h = h

pub ruleset stays_rules = (Stays-pure, Stays-check, Stays-decoded, Stays-bind)

module _ (json : Json) (env : Env) (r : Rounds) (net : Network) where
  carried-views :
      (d : Delivery) (w : World) (o : Option (ℕ × Str) × World)
      → views o.1.server ≡ views w.server
      → views (carried d w o).1.server ≡ views w.server
  carried-views unsent w o h = refl
  carried-views lost w o h = h
  carried-views answered w o h = h

  pub exec-Stays : (id cmd : Str) → Stays (do_json (server_http json env r net) (exec id cmd))
  unfolding do_json
  exec-Stays id cmd = record {
    at = λ s.
        carried-views (net (exec id cmd) s.peer) s.peer
          (serve_route json env r net (exec id cmd) s.peer) (handle_exec_restores env _ s.peer);
  }

  snapshot-Stays :
      (id name : Str) → Stays (do_json (server_http json env r net) (snapshot_create id name))
  unfolding do_json
  snapshot-Stays id name = record {
    at = λ s.
        carried-views (net (snapshot_create id name) s.peer) s.peer
          (serve_route json env r net (snapshot_create id name) s.peer)
          ((snapshot_create-Preserves env (some (id, name))).at s.peer);
  }

  exec_in-Stays : (id cmd : Str) → Stays (exec_in_sandbox (server_http json env r net) id cmd)
  unfolding exec_in_sandbox
  exec_in-Stays id cmd = search (stays_rules, exec-Stays) depth 12

  pub sanity-Stays :
      (id cmd expect : Str) → Stays (sanity (server_http json env r net) id cmd expect)
  sanity-Stays id cmd expect = search (stays_rules, exec_in-Stays) depth 10

  user_snapshot-Stays : (id : Str) → Stays (create_user_snapshot (server_http json env r net) id)
  unfolding create_user_snapshot
  user_snapshot-Stays id = search (stays_rules, snapshot-Stays) depth 12

  pub fixture-Stays :
      (mutation cmd expect id : Str)
      → Stays (with_fixture (server_http json env r net) mutation cmd expect id)
  fixture-Stays mutation cmd expect id =
      search (stays_rules, exec_in-Stays, sanity-Stays, user_snapshot-Stays) depth 12

  -- From a well-formed server, the code takes an id out of the map and does nothing else to it.
  pub record Removes {A : Type 0} (id : Str) (m : M World A) : Type 0 where
    pub at :
        (s : Session World)
        → IsWellFormed s.peer.server
        → (views (m s).1.peer.server
            ≡ (delete id (boxes json env r net s.peer), s.peer.server.next_sandbox_id))
          × IsWellFormed (m s).1.peer.server

  carried_in :
      (P : World → Type 0) (d : Delivery) (w : World) (o : Option (ℕ × Str) × World)
      → d ≢ unsent
      → P o.1
      → P (carried d w o).1
  carried_in P unsent w o sent h = absurd (sent refl)
  carried_in P lost w o sent h = h
  carried_in P answered w o sent h = h

  destroyed :
      (id : Str) (w : World)
      → is_empty (trim_space id) ≡ false
      → IsWellFormed w.server
      → let w' = (handle_destroy env r (some id) w).1 in
        (views w'.server ≡ (delete id (boxes json env r net w), w.server.next_sandbox_id))
        × IsWellFormed w'.server
  destroyed id w visible wf = (
    ap (λ g. (map_values view g.0, g.1)) (removed env r id w visible)
        ∙ ap (λ t. (t, w.server.next_sandbox_id)) (map_values-delete view id w.server.sandboxes),
    handle_destroy-IsWellFormed env r (some id) w wf,
  )

  -- The request itself, and what the client makes of its reply.
  pub call-Removes :
      {A : Type 0} (fair : IsFair net) (id : Str) (m : M World A)
      → is_empty (trim_space id) ≡ false
      → Moves (λ w. (send json env r net (destroy id) w).1) m
      → Removes id m
  call-Removes fair id m visible moves = record {
    at = λ s wf. rw (moves.at s) (
        carried_in
          (λ w'.
            (views w'.server
              ≡ (delete id (boxes json env r net s.peer), s.peer.server.next_sandbox_id))
            × IsWellFormed w'.server)
          (net (destroy id) s.peer) s.peer (serve_route json env r net (destroy id) s.peer)
          (fair.destroys_sent id s.peer) (destroyed id s.peer visible wf));
  }

  destroy-Moves :
      (id : Str)
      → Moves
          (λ w. (send json env r net (destroy id) w).1)
          (destroy_sandbox (server_http json env r net) id)
  unfolding destroy_sandbox
  destroy-Moves id = search (moves_rules, Moves-json (server_http json env r net)) depth 10

  pub destroy-Removes :
      (fair : IsFair net) (id : Str)
      → is_empty (trim_space id) ≡ false
      → Removes id (destroy_sandbox (server_http json env r net) id)
  destroy-Removes fair id visible = call-Removes fair id _ visible (destroy-Moves id)

  -- What leaves the map, and then the destruction.
  pub Removes-after :
      {A B : Type 0} (id : Str) (m : M World A) (k : Outcome A → M World B)
      → Stays m
      → ((o : Outcome A) → Removes id (k o))
      → Removes id (catch m >>= k)
  Removes-after id m k hm hk = record {
    at = λ s wf.
        let same = hm.at s in
        let (gone, good) =
          (hk (m s).0).at (m s).1 (views-IsWellFormed s.peer.server (m s).1.peer.server same wf) in
        (gone ∙ ap (λ v. (delete id v.0, v.1)) same, good);
  }

  pub Removes-then :
      {A B : Type 0} (id : Str) (m : M World A) (k : Outcome A → M World B)
      → Removes id m
      → ((o : Outcome A) → Stays (k o))
      → Removes id (catch m >>= k)
  Removes-then id m k hm hk = record {
    at = λ s wf.
        let (gone, good) = hm.at s wf in
        let same = (hk (m s).0).at (m s).1 in
        (same ∙ gone, views-IsWellFormed (m s).1.peer.server _ same good);
  }

  pub Removes-clock :
      {B : Type 0} (id : Str) (k : ℕ → M World B)
      → ((now : ℕ) → Removes id (k now))
      → Removes id (clock (server_http json env r net) >>= k)
  Removes-clock id k h = record { at = λ s wf. (h (env.now s.peer.trace)).at s wf }

  pub Removes-finally :
      {A : Type 0} (id : Str) (c : M World (Unit {0})) (m : M World A)
      → Stays m
      → Removes id c
      → Removes id (finally c m)
  Removes-finally id c m hm hc = record {
    at = λ s wf.
        let same = hm.at s in
        let (gone, good) =
          hc.at (m s).1 (views-IsWellFormed s.peer.server (m s).1.peer.server same wf) in
        (gone ∙ ap (λ v. (delete id v.0, v.1)) same, good);
  }
