-- ===== src/Bench/OnServer/Whole.antt =====
-- cmd/bench against the server, as a whole.
use manta.Prelude.{ℕ, zero, suc, ◌+◌, ◌-◌, ◌^◌, ◌<◌, ◌≡◌, refl, false, [], arith}
use manta.Text.{Str, is_empty}
use manta.Text.Trim.{trim_space}
use manta.Machine.{Env, World}
use manta.Lifecycle.Drain.{Rounds}
use manta.Server.Invariant.{IsWellFormed}
use manta.Bench.{destroy, Outcome, Session, catch, raise}
use manta.Bench.Calls.{Moves, Moves-then, Moves-pure, Moves-json, moves_rules}
use manta.Bench.Exec.{
  create_sandbox, exec_sandbox, destroy_sandbox, finish, run_in, run_once, warm_up, measure,
  with_result, reported, main,
}
use manta.Bench.OnServer.{Json, Network, IsFair, send, server_http, boxes}
use manta.Bench.OnServer.Restoring.{
  Stays, stays_rules, exec-Stays, Removes, call-Removes, Removes-after, Removes-then, Removes-clock,
}
use manta.Bench.OnServer.Opening.{create-Opens}
use manta.Bench.OnServer.Restores.{Restores, Restores-none, Restores-catch, Restores-bind, bracket}

module _ (json : Json) (env : Env) (r : Rounds) (net : Network) (fair : IsFair net) where
  exec_in-Stays : (id cmd : Str) → Stays (exec_sandbox (server_http json env r net) id cmd)
  unfolding exec_sandbox
  exec_in-Stays id cmd = search (stays_rules, exec-Stays json env r net) depth 12

  destroy-Moves :
      (id : Str)
      → Moves
          (λ w. (send json env r net (destroy id) w).1)
          (destroy_sandbox (server_http json env r net) id)
  unfolding destroy_sandbox
  destroy-Moves id = search (moves_rules, Moves-json (server_http json env r net)) depth 10

  finish-Removes :
      (id : Str) (start : ℕ) (o : Outcome (Unit {0}))
      → is_empty (trim_space id) ≡ false
      → Removes json env r net id (finish (server_http json env r net) id start o)
  finish-Removes id start (Outcome.failed e) visible =
      Removes-then json env r net id (destroy_sandbox (server_http json env r net) id)
        (λ o. raise e) (call-Removes json env r net fair id _ visible (destroy-Moves id))
        (λ o. record { at = λ s. refl })
  finish-Removes id start (Outcome.done u) visible = Removes-clock json env r net id _ (λ now.
      call-Removes json env r net fair id _ visible
        (Moves-then _ _ (destroy-Moves id) (λ u'. Moves-pure (now - start))))

  run_once-Restores :
      (cmd : Str) → Restores json env r net 1 (run_once (server_http json env r net) cmd)
  unfolding run_once
  run_once-Restores cmd = record {
    at = λ s wf room.
        (bracket json env r net (create_sandbox (server_http json env r net))
            (run_in (server_http json env r net) cmd (env.now s.peer.trace))
            (create-Opens json env r net fair)
            (λ id visible.
              Removes-after json env r net id _ _ (exec_in-Stays id cmd)
                (λ o. finish-Removes id (env.now s.peer.trace) o visible))).at
          s wf room;
  }

  run-Restores :
      (cmd : Str) → Restores json env r net 1 (catch (run_once (server_http json env r net) cmd))
  run-Restores cmd = Restores-catch json env r net 1 _ (run_once-Restores cmd)

  warm_up-Restores :
      (n : ℕ) (cmd : Str) → Restores json env r net n (warm_up (server_http json env r net) n cmd)
  unfolding warm_up
  warm_up-Restores zero cmd = Restores-none json env r net tt
  warm_up-Restores (suc n) cmd =
      Restores-bind json env r net 1 n (suc n) _ _ (omega arith) (run-Restores cmd)
        (λ o. warm_up-Restores n cmd)

  measure-Restores :
      (n : ℕ) (cmd : Str) → Restores json env r net n (measure (server_http json env r net) n cmd)
  unfolding measure
  measure-Restores zero cmd = Restores-none json env r net []
  measure-Restores (suc n) cmd =
      Restores-bind json env r net 1 n (suc n) _ _ (omega arith) (run-Restores cmd) λ o.
        Restores-bind json env r net n 0 n _ _ (omega arith) (measure-Restores n cmd)
          (λ rest. Restores-none json env r net (with_result (server_http json env r net) o rest))

  -- The benchmark as a whole, its warm-up and its measured runs, against a well-formed server whose
  -- counter has room for its creations, on a network that loses no reply to a creation and brings
  -- the requests for a destruction to the server: whatever else fails, the map of sandboxes is at
  -- the end as it was, their connections to the agent aside, and the server is well formed.
  pub benchmark_restores :
      (warmup iterations : ℕ) (cmd : Str) (s : Session World)
      → IsWellFormed s.peer.server
      → s.peer.server.next_sandbox_id + (warmup + iterations) < 2 ^ 64
      → let s' = (main (server_http json env r net) warmup iterations cmd s).1 in
        (boxes json env r net s'.peer ≡ boxes json env r net s.peer) × IsWellFormed s'.peer.server
  unfolding main
  benchmark_restores warmup iterations cmd s wf room =
      let (same, good, small) =
        (Restores-bind json env r net warmup iterations (warmup + iterations) _ _ refl
            (warm_up-Restores warmup cmd)
            (λ u.
              Restores-bind json env r net iterations 0 iterations _ _ (omega arith)
                (measure-Restores iterations cmd)
                (λ results.
                  Restores-none json env r net (reported (server_http json env r net) results)))).at
          s wf room in
      (same, good)
