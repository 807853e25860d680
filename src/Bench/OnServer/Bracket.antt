-- ===== src/Bench/OnServer/Bracket.antt =====
-- cmd/bench_restore against the server, as a whole.
use manta.Prelude.{ℕ, zero, suc, ◌+◌, ◌^◌, ◌<◌, ◌≡◌, refl, false, arith, [], inr, ◌-◌}
use manta.Text.{Str, is_empty}
use manta.Text.Trim.{trim_space}
use manta.Machine.{Env, World}
use manta.Lifecycle.Drain.{Rounds}
use manta.Server.Invariant.{IsWellFormed}
use manta.Bench.{Outcome, Session}
use manta.Bench.Restore.{
  RunResult, Class, restore_sandbox, destroy_sandbox, sanity, prepare_fixture, destroyed_with,
  checked, restored, run_once, warm_up, measure, with_snapshot, main, reported, tally, no_failures,
}
use manta.Bench.OnServer.{Json, Network, IsFair, server_http, boxes}
use manta.Bench.OnServer.Restoring.{
  Stays, Stays-pure, Removes, sanity-Stays, fixture-Stays, destroy-Removes, Removes-after,
  Removes-then, Removes-clock, Removes-finally,
}
use manta.Bench.OnServer.Opening.{fixture-Opens, restore-Opens}
use manta.Bench.OnServer.Restores.{
  Restores, Restores-none, Restores-catch, Restores-bind, bracket, bracket_caught,
}

module _ (json : Json) (env : Env) (r : Rounds) (net : Network) (fair : IsFair net) where
  fixture-Restores :
      (mutation cmd expect : Str)
      → Restores json env r net 1 (prepare_fixture (server_http json env r net) mutation cmd expect)
  unfolding prepare_fixture
  fixture-Restores mutation cmd expect =
      bracket json env r net _ _ (fixture-Opens json env r net fair) (λ id visible.
        Removes-finally json env r net id _ _ (fixture-Stays json env r net mutation cmd expect id)
          (destroy-Removes json env r net fair id visible))

  destroyed-Stays :
      (x : RunResult) (o : Outcome (Unit {0}))
      → Stays (destroyed_with (server_http json env r net) x o)
  destroyed-Stays x (Outcome.done u) = record { at = λ s. refl }
  destroyed-Stays x (Outcome.failed e) = record { at = λ s. refl }

  checked-Removes :
      (id : Str) (start now : ℕ) (o : Outcome (Unit {0}))
      → is_empty (trim_space id) ≡ false
      → Removes json env r net id (checked (server_http json env r net) id start now o)
  checked-Removes id start now (Outcome.failed e) visible =
      Removes-then json env r net id (destroy_sandbox (server_http json env r net) id) _
        (destroy-Removes json env r net fair id visible) (λ o. Stays-pure (inr Class.sanity_exec))
  checked-Removes id start now (Outcome.done u) visible = Removes-clock json env r net id _ (λ end.
      Removes-then json env r net id (destroy_sandbox (server_http json env r net) id) _
        (destroy-Removes json env r net fair id visible)
        (destroyed-Stays (record { restore_only = now - start; restore_tti = end - start })))

  restored-Removes :
      (cmd expect : Str) (start : ℕ) (id : Str)
      → is_empty (trim_space id) ≡ false
      → Removes json env r net id
          (restored (server_http json env r net) cmd expect start (Outcome.done id))
  restored-Removes cmd expect start id visible = Removes-clock json env r net id _ (λ now.
      Removes-after json env r net id (sanity (server_http json env r net) id cmd expect) _
        (sanity-Stays json env r net id cmd expect) (λ o. checked-Removes id start now o visible))

  run-Restores :
      (snapshot cmd expect : Str)
      → Restores json env r net 1 (run_once (server_http json env r net) snapshot cmd expect)
  unfolding run_once
  run-Restores snapshot cmd expect = record {
    at = λ s wf room.
        (bracket_caught json env r net (restore_sandbox (server_http json env r net) snapshot)
            (restored (server_http json env r net) cmd expect (env.now s.peer.trace))
            (restore-Opens json env r net fair snapshot)
            (restored-Removes cmd expect (env.now s.peer.trace))
            (λ e. Stays-pure (inr Class.restore_api))).at
          s wf room;
  }

  warm_up-Restores :
      (n : ℕ) (snapshot cmd expect : Str)
      → Restores json env r net n (warm_up (server_http json env r net) n snapshot cmd expect)
  unfolding warm_up
  warm_up-Restores zero snapshot cmd expect = Restores-none json env r net tt
  warm_up-Restores (suc n) snapshot cmd expect =
      Restores-bind json env r net 1 n (suc n) _ _ (omega arith) (run-Restores snapshot cmd expect)
        (λ o. warm_up-Restores n snapshot cmd expect)

  measure-Restores :
      (n : ℕ) (snapshot cmd expect : Str)
      → Restores json env r net n (measure (server_http json env r net) n snapshot cmd expect)
  unfolding measure
  measure-Restores zero snapshot cmd expect = Restores-none json env r net ([], no_failures)
  measure-Restores (suc n) snapshot cmd expect =
      Restores-bind json env r net 1 n (suc n) _ _ (omega arith) (run-Restores snapshot cmd expect)
        (λ o.
          Restores-bind json env r net n 0 n _ _ (omega arith)
            (measure-Restores n snapshot cmd expect)
            (λ rest. Restores-none json env r net (tally (server_http json env r net) o rest)))

  snapshot-Restores :
      (warmup iterations : ℕ) (cmd expect : Str) (o : Outcome Str)
      → Restores json env r net
          (warmup + iterations)
          (with_snapshot (server_http json env r net) warmup iterations cmd expect o)
  snapshot-Restores warmup iterations cmd expect (Outcome.failed e) = record {
    at = λ s wf room. (refl, wf, omega arith);
  }
  snapshot-Restores warmup iterations cmd expect (Outcome.done snapshot) =
      Restores-bind json env r net warmup iterations (warmup + iterations) _ _ refl
        (warm_up-Restores warmup snapshot cmd expect)
        (λ u.
          Restores-bind json env r net iterations 0 iterations _ _ (omega arith)
            (measure-Restores iterations snapshot cmd expect)
            (λ measured.
              Restores-none json env r net
                (reported (server_http json env r net) snapshot measured)))

  -- The restore benchmark as a whole, its fixture, its warm-up and its measured runs, against a
  -- well-formed server whose counter has room for its sandboxes, on a network that loses no reply to
  -- a creation or restoration and brings the requests for a destruction to the server: whatever else
  -- fails, the map of sandboxes is at the end as it was, their connections to the agent aside, and
  -- the server is well formed.
  pub restore_benchmark_restores :
      (warmup iterations : ℕ) (mutation cmd expect : Str) (s : Session World)
      → IsWellFormed s.peer.server
      → s.peer.server.next_sandbox_id + (1 + (warmup + iterations)) < 2 ^ 64
      → let s' = (main (server_http json env r net) warmup iterations mutation cmd expect s).1 in
        (boxes json env r net s'.peer ≡ boxes json env r net s.peer) × IsWellFormed s'.peer.server
  unfolding main
  restore_benchmark_restores warmup iterations mutation cmd expect s wf room =
      let (same, good, small) =
        (Restores-bind json env r net 1 (warmup + iterations) (1 + (warmup + iterations)) _ _ refl
            (Restores-catch json env r net 1 _ (fixture-Restores mutation cmd expect))
            (snapshot-Restores warmup iterations cmd expect)).at
          s wf room in
      (same, good)
