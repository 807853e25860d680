-- ===== src/Tests/Benchmarks.antt =====
-- Runs of the theorems on the benchmarks.
use manta.Prelude.{◌≡◌, refl, [], ◌∷◌, Option, none, some, arith}
use manta.Prelude.Int.{pos}
use manta.Text.{Str, lit}
use manta.Machine.{World}
use manta.Server.{Reply, created}
use manta.Server.Invariant.{IsWellFormed}
use manta.Bench.{IdResponse, Http, Session, exec, destroy}
use manta.Bench.Percentile.{Describes, summarize, percentile, index, summarize-Describes}
use manta.Bench.Exec.{main}
use manta.Bench.Restore as Restore
use manta.Bench.Restore.{RunResult, Failures}
use manta.Bench.OnServer.Bracket.{restore_benchmark_restores}
use manta.Bench.OnServer.{Json, Network, IsFair, unsent, lost, answered, server_http, boxes}
use manta.Bench.OnServer.Whole.{benchmark_restores}
use manta.Prelude.Sort.{sort}
use manta.Tests.Fixtures.{host, always, empty, two_rounds}

abbrev id_text : Reply → Str
id_text (created id) = 34 ∷ id
id_text _ = []

abbrev text_id : Str → Option IdResponse
text_id [] = none
text_id (q ∷ s) = some (record { id = s; error = [] })

abbrev json : Json
json = record {
  encode = id_text;
  created_of = text_id;
  executed_of =
      λ s. some (record { stdout = lit "hi"; stderr = []; exit_code = pos 0; error = [] });
  destroyed_of = λ s. some (record { status = lit "ok"; error = [] });
  id_of = text_id;
  created_back = λ n. refl;
}

-- Commands and the replies to destructions get lost, and nothing else.
abbrev flaky : Network
flaky (exec id cmd) w = unsent
flaky (destroy id) w = lost
flaky _ w = answered

flaky-IsFair : IsFair flaky
flaky-IsFair = record {
  created_told = λ w e. cc;
  restored_told = λ id w e. cc;
  destroys_sent = λ id w e. cc;
}

abbrev http : Http World
http = server_http json (host always) two_rounds flaky

abbrev fresh : Session World
fresh = record { calls = []; peer = empty }

empty-IsWellFormed : IsWellFormed empty.server
empty-IsWellFormed = record { entries = tt; distinct = tt }

benchmark_restores_example :
    let s' = (main http 2 3 (lit "ls") fresh).1 in
    (boxes json (host always) two_rounds flaky s'.peer
      ≡ boxes json (host always) two_rounds flaky fresh.peer)
    × IsWellFormed s'.peer.server
benchmark_restores_example =
    benchmark_restores json (host always) two_rounds flaky flaky-IsFair 2 3 (lit "ls") fresh
      empty-IsWellFormed (omega arith)

restore_benchmark_restores_example :
    let s' = (Restore.main http 1 2 (lit "touch a") (lit "ls") (lit "hi") fresh).1 in
    (boxes json (host always) two_rounds flaky s'.peer
      ≡ boxes json (host always) two_rounds flaky fresh.peer)
    × IsWellFormed s'.peer.server
restore_benchmark_restores_example =
    restore_benchmark_restores json (host always) two_rounds flaky flaky-IsFair 1 2 (lit "touch a")
      (lit "ls") (lit "hi") fresh empty-IsWellFormed (omega arith)

summarize-Describes_example : Describes (30 ∷ 10 ∷ 20 ∷ []) (summarize (30 ∷ 10 ∷ 20 ∷ []))
summarize-Describes_example = summarize-Describes (30 ∷ 10 ∷ 20 ∷ []) (omega arith)

summarize_runs : summarize (30 ∷ 10 ∷ 20 ∷ []) ≡ record {
  iterations_success = 3;
  min = some 10;
  p50 = some 20;
  p95 = some 20;
  p99 = some 20;
  max = some 30;
}
unfolding summarize percentile index sort
summarize_runs = refl
