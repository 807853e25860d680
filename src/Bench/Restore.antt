-- ===== src/Bench/Restore.antt =====
-- cmd/bench_restore/main.go: a fixture that is snapshotted once, and runs that restore it, look at
-- what it holds and destroy the restored sandbox.
pub mod Calls
use manta.Prelude.{
  ℕ, zero, suc, ◌+◌, ◌-◌, ◌⊎◌, inl, inr, Bool, false, List, [], ◌∷◌, map, ◌&&◌, ◌==◌, not,
}
use manta.Prelude.Int.{ℤ, pos, negsuc}
use manta.Text.{Str, lit, is_empty, str_eq}
use manta.Text.Trim.{trim_space}
use manta.Bench.{
  HttpRequest, create, exec, destroy, snapshot_create, snapshot_restore, IdResponse, ExecResponse,
  DestroyResponse, Http, Failure, Outcome, Session, M, pure, raise, continue, ◌>>=◌, ◌>>◌, catch,
  finally, check, decoded, ok_status, do_json, clock,
}
use manta.Bench.Percentile.{Summary, summarize}

abbrev pub is_zero : ℤ → Bool
is_zero (pos n) = n == 0
is_zero (negsuc n) = false

pub record RunResult : Type 0 where
  pub restore_only : ℕ
  pub restore_tti : ℕ

-- The classes of the failures of a run; the program counts one more, "other", which no run reports.
pub data Class : Type 0 where
  restore_api sanity_exec destroy_failed : Class

pub record Failures : Type 0 where
  pub restore_api : ℕ
  pub sanity_exec : ℕ
  pub destroy : ℕ

abbrev pub no_failures : Failures
no_failures = record { restore_api = 0; sanity_exec = 0; destroy = 0 }

-- failures[class]++
abbrev pub count_failure : Class → Failures → Failures
count_failure Class.restore_api f = record f { restore_api = f.restore_api + 1 }
count_failure Class.sanity_exec f = record f { sanity_exec = f.sanity_exec + 1 }
count_failure Class.destroy_failed f = record f { destroy = f.destroy + 1 }

pub record Report : Type 0 where
  pub snapshot_id : Str
  pub failures : Failures
  pub restore_only : Summary
  pub restore_tti : Summary

-- The two exits with status 1, and the summary that is printed.
pub data Exit : Type 0 where
  fixture_failed no_successful_runs : Exit
  summarized : Report → Exit

module _ {S : Type 0} (http : Http S) where
  abbrev pub id_of : IdResponse → M S Str
  id_of resp = do
    check (is_empty resp.error && not (is_empty (trim_space resp.id))) Failure.refused
    pure resp.id

  unfoldable pub create_sandbox : M S Str
  create_sandbox = do raw ← do_json http create; resp ← decoded (http.created raw); id_of resp

  unfoldable pub create_user_snapshot : Str → M S Str
  create_user_snapshot id = do
    raw ← do_json http (snapshot_create id (lit "bench-restore-fixture"))
    resp ← decoded (http.snapshotted raw)
    id_of resp

  unfoldable pub restore_sandbox : Str → M S Str
  restore_sandbox snapshot = do
    raw ← do_json http (snapshot_restore snapshot)
    resp ← decoded (http.restored raw)
    id_of resp

  unfoldable pub exec_in_sandbox : Str → Str → M S Str
  exec_in_sandbox id cmd = do
    raw ← do_json http (exec id cmd)
    resp ← decoded (http.executed raw)
    check (is_empty resp.error) Failure.refused
    check (is_zero resp.exit_code) Failure.exit_code_not_zero
    pure resp.stdout

  unfoldable pub destroy_sandbox : Str → M S (Unit {0})
  destroy_sandbox id = do
    raw ← do_json http (destroy id)
    resp ← decoded (http.destroyed raw)
    check (is_empty resp.error) Failure.refused

  -- The command's output, which has to be the expected one.
  abbrev pub sanity : Str → Str → Str → M S (Unit {0})
  sanity id cmd expect = do
    out ← exec_in_sandbox id cmd
    check (str_eq out expect) Failure.stdout_mismatch

  abbrev pub with_fixture : Str → Str → Str → Str → M S Str
  with_fixture mutation cmd expect id = do
    _ ← exec_in_sandbox id mutation
    sanity id cmd expect
    create_user_snapshot id

  -- The id of the snapshot. The fixture's sandbox is destroyed by a deferred call.
  unfoldable pub prepare_fixture : Str → Str → Str → M S Str
  prepare_fixture mutation cmd expect = do
    id ← create_sandbox
    finally (destroy_sandbox id) (with_fixture mutation cmd expect id)

  -- The result of a run, or the class of its failure.
  abbrev pub destroyed_with : RunResult → Outcome (Unit {0}) → M S (RunResult ⊎ Class)
  destroyed_with r (Outcome.done _) = pure (inl r)
  destroyed_with r (Outcome.failed e) = pure (inr Class.destroy_failed)

  abbrev pub checked : Str → ℕ → ℕ → Outcome (Unit {0}) → M S (RunResult ⊎ Class)
  checked id start restored (Outcome.failed e) = do
    _ ← catch (destroy_sandbox id)
    pure (inr Class.sanity_exec)
  checked id start restored (Outcome.done _) = do
    now ← clock http
    gone ← catch (destroy_sandbox id)
    destroyed_with (record { restore_only = restored - start; restore_tti = now - start }) gone

  abbrev pub restored : Str → Str → ℕ → Outcome Str → M S (RunResult ⊎ Class)
  restored cmd expect start (Outcome.failed e) = pure (inr Class.restore_api)
  restored cmd expect start (Outcome.done id) = do
    now ← clock http
    sane ← catch (sanity id cmd expect)
    checked id start now sane

  unfoldable pub run_once : Str → Str → Str → M S (RunResult ⊎ Class)
  run_once snapshot cmd expect = do
    start ← clock http
    id ← catch (restore_sandbox snapshot)
    restored cmd expect start id

  unfoldable pub warm_up : ℕ → Str → Str → Str → M S (Unit {0})
  warm_up zero snapshot cmd expect = pure tt
  warm_up (suc n) snapshot cmd expect = do
    _ ← run_once snapshot cmd expect
    warm_up n snapshot cmd expect

  abbrev pub tally : RunResult ⊎ Class → List RunResult × Failures → List RunResult × Failures
  tally (inl r) (results, failures) = (r ∷ results, failures)
  tally (inr class) (results, failures) = (results, count_failure class failures)

  -- The results in order, and the failures by their classes.
  unfoldable pub measure : ℕ → Str → Str → Str → M S (List RunResult × Failures)
  measure zero snapshot cmd expect = pure ([], no_failures)
  measure (suc n) snapshot cmd expect = do
    r ← run_once snapshot cmd expect
    rest ← measure n snapshot cmd expect
    pure (tally r rest)

  abbrev pub reported : Str → List RunResult × Failures → Exit
  reported snapshot ([], failures) = no_successful_runs
  reported snapshot (r ∷ rs, failures) = summarized (record {
    snapshot_id = snapshot;
    failures = failures;
    restore_only = summarize (map (λ x. x.restore_only) (r ∷ rs));
    restore_tti = summarize (map (λ x. x.restore_tti) (r ∷ rs));
  })

  abbrev pub with_snapshot : ℕ → ℕ → Str → Str → Outcome Str → M S Exit
  with_snapshot warmup iterations cmd expect (Outcome.failed e) = pure fixture_failed
  with_snapshot warmup iterations cmd expect (Outcome.done snapshot) = do
    warm_up warmup snapshot cmd expect
    measured ← measure iterations snapshot cmd expect
    pure (reported snapshot measured)

  unfoldable pub main : ℕ → ℕ → Str → Str → Str → M S Exit
  main warmup iterations mutation cmd expect = do
    snapshot ← catch (prepare_fixture mutation cmd expect)
    with_snapshot warmup iterations cmd expect snapshot
