-- ===== src/Bench/Restore/Calls.antt =====
-- The calls of cmd/bench_restore, and what its measurement counts.
use manta.Prelude.{
  ℕ, zero, suc, ◌+◌, ◌-◌, ◌≡◌, refl, ◌∙◌, ap, ◌⊎◌, inl, inr, List, [], ◌∷◌, ◌++◌, arith, length,
}
use manta.Text.{Str, lit}
use manta.Bench.{
  HttpRequest, create, exec, destroy, snapshot_create, snapshot_restore, Http, Failure, Outcome,
  Session, continue, finally, ◌>>◌,
}
use manta.Bench.Calls.{Makes, Makes-json, Makes-after, Makes-pure, Makes-catch_bind, makes_rules}
use manta.Bench.Restore.{
  RunResult, Class, Failures, no_failures, create_sandbox, create_user_snapshot, restore_sandbox,
  exec_in_sandbox, destroy_sandbox, sanity, with_fixture, prepare_fixture, destroyed_with, checked,
  restored, run_once, tally, measure,
}

module _ {S : Type 0} (http : Http S) where
  create-Makes : Makes (create ∷ []) (create_sandbox http)
  unfolding create_sandbox
  create-Makes = search (makes_rules, Makes-json http) depth 10

  snapshot-Makes :
      (id : Str)
      → Makes (snapshot_create id (lit "bench-restore-fixture") ∷ []) (create_user_snapshot http id)
  unfolding create_user_snapshot
  snapshot-Makes id = search (makes_rules, Makes-json http) depth 10

  restore-Makes :
      (snapshot : Str) → Makes (snapshot_restore snapshot ∷ []) (restore_sandbox http snapshot)
  unfolding restore_sandbox
  restore-Makes snapshot = search (makes_rules, Makes-json http) depth 10

  exec-Makes : (id cmd : Str) → Makes (exec id cmd ∷ []) (exec_in_sandbox http id cmd)
  unfolding exec_in_sandbox
  exec-Makes id cmd = search (makes_rules, Makes-json http) depth 12

  destroy-Makes : (id : Str) → Makes (destroy id ∷ []) (destroy_sandbox http id)
  unfolding destroy_sandbox
  destroy-Makes id = search (makes_rules, Makes-json http) depth 10

  sanity-Makes : (id cmd expect : Str) → Makes (exec id cmd ∷ []) (sanity http id cmd expect)
  sanity-Makes id cmd expect = search (makes_rules, exec-Makes) depth 10

  destroyed-Makes : (r : RunResult) (o : Outcome (Unit {0})) → Makes [] (destroyed_with http r o)
  destroyed-Makes r (Outcome.done u) = Makes-pure (inl r)
  destroyed-Makes r (Outcome.failed e) = Makes-pure (inr Class.destroy_failed)

  checked-Makes :
      (id : Str) (start time : ℕ) (o : Outcome (Unit {0}))
      → Makes (destroy id ∷ []) (checked http id start time o)
  checked-Makes id start time (Outcome.failed e) = search (makes_rules, destroy-Makes) depth 8
  checked-Makes id start time (Outcome.done u) = Makes-after http _ λ now.
      Makes-catch_bind _ _ (destroy-Makes id)
        (destroyed-Makes (record { restore_only = time - start; restore_tti = now - start }))

  -- A run of the restore benchmark makes one call alone, the restoration, and counts as a failure of
  -- it, or it makes three: the restoration, the command in the sandbox of the answer, and last the
  -- destruction of that sandbox.
  pub restore_run-RunCalls :
      (snapshot cmd expect : Str) (s : Session S)
      → let end = run_once http snapshot cmd expect s in
        ((end.1.calls ≡ snapshot_restore snapshot ∷ s.calls)
          × (end.0 ≡ Outcome.done (inr Class.restore_api)))
        ⊎ ((id : Str) × (end.1.calls
              ≡ destroy id ∷ exec id cmd ∷ snapshot_restore snapshot ∷ s.calls))
  unfolding run_once
  restore_run-RunCalls snapshot cmd expect s =
      ran (restore_sandbox http snapshot s).0 (restore_sandbox http snapshot s).1
        ((restore-Makes snapshot).at s)
    where
      ran :
          (r : Outcome Str) (s' : Session S)
          → s'.calls ≡ snapshot_restore snapshot ∷ s.calls
          → let end = restored http cmd expect (http.now s.peer) r s' in
            ((end.1.calls ≡ snapshot_restore snapshot ∷ s.calls)
              × (end.0 ≡ Outcome.done (inr Class.restore_api)))
            ⊎ ((id : Str) × (end.1.calls
                  ≡ destroy id ∷ exec id cmd ∷ snapshot_restore snapshot ∷ s.calls))
      ran (Outcome.failed e) s' h = inl (h, refl)
      ran (Outcome.done id) s' h = inr (
        id,
        (Makes-after http _ λ now.
                Makes-catch_bind _ _ (sanity-Makes id cmd expect)
                  (checked-Makes id (http.now s.peer) now)).at
              s'
            ∙ ap (λ l. destroy id ∷ exec id cmd ∷ l) h,
      )

  -- The calls on the fixture's sandbox, the newest first: as far as they succeed.
  abbrev FixtureCalls : Str → Str → Str → List HttpRequest → Type 0
  FixtureCalls id mutation cmd cs =
      (cs ≡ exec id mutation ∷ [])
      ⊎ (cs ≡ exec id cmd ∷ exec id mutation ∷ [])
      ⊎ (cs
          ≡ snapshot_create id (lit "bench-restore-fixture") ∷ exec id cmd ∷ exec id mutation ∷ [])

  -- What code on the fixture's sandbox adds to the calls.
  abbrev Adds : (List HttpRequest → Type 0) → List HttpRequest → List HttpRequest → Type 0
  Adds P before cs = (mid : List HttpRequest) × (P mid) × (cs ≡ mid ++ before)

  fixture-Calls :
      (id mutation cmd expect : Str) (s : Session S)
      → Adds
          (FixtureCalls id mutation cmd)
          s.calls
          (with_fixture http mutation cmd expect id s).1.calls
  fixture-Calls id mutation cmd expect s =
      mutated (exec_in_sandbox http id mutation s).0 (exec_in_sandbox http id mutation s).1
        ((exec-Makes id mutation).at s)
    where
      looked :
          (r : Outcome (Unit {0})) (s' : Session S)
          → s'.calls ≡ exec id cmd ∷ exec id mutation ∷ s.calls
          → Adds
              (FixtureCalls id mutation cmd)
              s.calls
              (continue r (λ u. create_user_snapshot http id) s').1.calls
      looked (Outcome.failed e) s' h = (exec id cmd ∷ exec id mutation ∷ [], inr (inl refl), h)
      looked (Outcome.done u) s' h = (
        snapshot_create id (lit "bench-restore-fixture") ∷ exec id cmd ∷ exec id mutation ∷ [],
        inr (inr refl),
        (snapshot-Makes id).at s'
            ∙ ap (λ l. snapshot_create id (lit "bench-restore-fixture") ∷ l) h,
      )

      mutated :
          (r : Outcome Str) (s' : Session S)
          → s'.calls ≡ exec id mutation ∷ s.calls
          → Adds
              (FixtureCalls id mutation cmd)
              s.calls
              (continue r
                (λ out. sanity http id cmd expect >> create_user_snapshot http id)
                s').1.calls
      mutated (Outcome.failed e) s' h = (exec id mutation ∷ [], inl refl, h)
      mutated (Outcome.done out) s' h =
          looked (sanity http id cmd expect s').0 (sanity http id cmd expect s').1
            ((sanity-Makes id cmd expect).at s' ∙ ap (λ l. exec id cmd ∷ l) h)

  -- The fixture: a creation alone that fails, or a creation, the calls on its sandbox as far as they
  -- succeed, and last the destruction of that sandbox, whatever failed.
  prepare_fixture-FixtureCalls :
      (mutation cmd expect : Str) (s : Session S)
      → let end = prepare_fixture http mutation cmd expect s in
        ((end.1.calls ≡ create ∷ s.calls) × ((e : Failure) × (end.0 ≡ Outcome.failed e)))
        ⊎ ((id : Str) × (mid : List HttpRequest) × (FixtureCalls id mutation cmd mid)
            × (end.1.calls ≡ destroy id ∷ (mid ++ (create ∷ s.calls))))
  unfolding prepare_fixture
  prepare_fixture-FixtureCalls mutation cmd expect s =
      made (create_sandbox http s).0 (create_sandbox http s).1 (create-Makes.at s)
    where
      made :
          (r : Outcome Str) (s' : Session S)
          → s'.calls ≡ create ∷ s.calls
          → let end =
              continue r
                (λ id. finally (destroy_sandbox http id) (with_fixture http mutation cmd expect id))
                s' in
            ((end.1.calls ≡ create ∷ s.calls) × ((e : Failure) × (end.0 ≡ Outcome.failed e)))
            ⊎ ((id : Str) × (mid : List HttpRequest) × (FixtureCalls id mutation cmd mid)
                × (end.1.calls ≡ destroy id ∷ (mid ++ (create ∷ s.calls))))
      made (Outcome.failed e) s' h = inl (h, (e, refl))
      made (Outcome.done id) s' h =
          let (mid, p, e) = fixture-Calls id mutation cmd expect s' in
          inr (
            id,
            mid,
            p,
            (destroy-Makes id).at (with_fixture http mutation cmd expect id s').1
                ∙ ap (λ l. destroy id ∷ l) (e ∙ ap (λ l. mid ++ l) h),
          )

  abbrev failed_runs : Failures → ℕ
  failed_runs f = f.restore_api + f.sanity_exec + f.destroy

  abbrev IsDone : {A : Type 0} → Outcome A → Type 0
  IsDone {A} o = (a : A) × (o ≡ Outcome.done a)

  checked-IsDone :
      (id : Str) (start time : ℕ) (o : Outcome (Unit {0})) (s : Session S)
      → IsDone (checked http id start time o s).0
  checked-IsDone id start time (Outcome.failed e) s = (_, refl)
  checked-IsDone id start time (Outcome.done u) s = gone (destroy_sandbox http id s).0
    where
      gone :
          (r : Outcome (Unit {0}))
          → IsDone
              (destroyed_with http
                (record { restore_only = time - start; restore_tti = http.now s.peer - start })
                r
                (destroy_sandbox http id s).1).0
      gone (Outcome.done u) = (_, refl)
      gone (Outcome.failed e) = (_, refl)

  run-IsDone :
      (snapshot cmd expect : Str) (s : Session S) → IsDone (run_once http snapshot cmd expect s).0
  unfolding run_once
  run-IsDone snapshot cmd expect s = ran (restore_sandbox http snapshot s).0 _
    where
      ran :
          (r : Outcome Str) (s' : Session S)
          → IsDone (restored http cmd expect (http.now s.peer) r s').0
      ran (Outcome.failed e) s' = (_, refl)
      ran (Outcome.done id) s' =
          checked-IsDone id (http.now s.peer) (http.now s'.peer) (sanity http id cmd expect s').0 _

  tally_lem :
      (r : RunResult ⊎ Class) (results : List RunResult) (f : Failures)
      → let (rs, g) = tally http r (results, f) in
        length rs + failed_runs g ≡ suc (length results + failed_runs f)
  tally_lem (inl r) results f = omega arith
  tally_lem (inr Class.restore_api) results f = omega arith
  tally_lem (inr Class.sanity_exec) results f = omega arith
  tally_lem (inr Class.destroy_failed) results f = omega arith

  -- The measurement never fails, and each of its runs counts either as a result or in one of the
  -- three classes of failures that a run reports: "other" stays at zero.
  measure_accounts :
      (n : ℕ) (snapshot cmd expect : Str) (s : Session S)
      → (rs : List RunResult) × (f : Failures) × ((measure http n snapshot cmd expect s).0
          ≡ Outcome.done (rs, f))
        × (length rs + (f.restore_api + f.sanity_exec + f.destroy) ≡ n)
  unfolding measure
  measure_accounts zero snapshot cmd expect s = ([], no_failures, refl, refl)
  measure_accounts (suc n) snapshot cmd expect s =
      let (r, e) = run-IsDone snapshot cmd expect s in
      let (rs, f, e', size) =
        measure_accounts n snapshot cmd expect (run_once http snapshot cmd expect s).1 in
      let (rs', f') = tally http r (rs, f) in
      (rs', f', rw (e, e') refl, omega (arith, tally_lem r rs f, size))
