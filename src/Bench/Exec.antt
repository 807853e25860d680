-- ===== src/Bench/Exec.antt =====
-- cmd/bench/main.go: a run creates a sandbox, runs a command in it and destroys it.
use manta.Prelude.{
  ℕ, zero, suc, ◌-◌, ◌≡◌, refl, ◌∙◌, ap, ◌⊎◌, inl, inr, List, [], ◌∷◌, Option, none, some, ◌&&◌,
  not,
}
use manta.Text.{Str, is_empty}
use manta.Bench.{
  create, exec, destroy, IdResponse, Http, Failure, Outcome, Session, M, pure, raise, continue,
  ◌>>=◌, ◌>>◌, catch, check, decoded, do_json, clock,
}
use manta.Bench.Calls.{
  Makes, Makes-json, Makes-after, Makes-then, Makes-pure, Makes-catch_bind, makes_rules,
}
use manta.Bench.Percentile.{Summary, summarize}

module _ {S : Type 0} (http : Http S) where
  -- The response to a creation, with an id and without an error.
  abbrev pub id_of : IdResponse → M S Str
  id_of resp = do
    check (is_empty resp.error && not (is_empty resp.id)) Failure.refused
    pure resp.id

  abbrev pub id_in : Str → M S Str
  id_in raw = do resp ← decoded (http.created raw); id_of resp

  unfoldable pub create_sandbox : M S Str
  create_sandbox = do raw ← do_json http create; id_in raw

  unfoldable pub destroy_sandbox : Str → M S (Unit {0})
  destroy_sandbox id = do
    raw ← do_json http (destroy id)
    resp ← decoded (http.destroyed raw)
    check (is_empty resp.error) Failure.refused

  -- The exit code of the command is not looked at.
  unfoldable pub exec_sandbox : Str → Str → M S (Unit {0})
  exec_sandbox id cmd = do
    raw ← do_json http (exec id cmd)
    resp ← decoded (http.executed raw)
    check (is_empty resp.error) Failure.refused

  -- What follows the command: the destruction, whose error counts only where the command has none.
  abbrev pub finish : Str → ℕ → Outcome (Unit {0}) → M S ℕ
  finish id start (Outcome.failed e) = do _ ← catch (destroy_sandbox id); raise e
  finish id start (Outcome.done _) = do now ← clock http; destroy_sandbox id; pure (now - start)

  abbrev pub run_in : Str → ℕ → Str → M S ℕ
  run_in cmd start id = do ran ← catch (exec_sandbox id cmd); finish id start ran

  -- The time from the request for the sandbox to the end of the command.
  unfoldable pub run_once : Str → M S ℕ
  run_once cmd = do start ← clock http; id ← create_sandbox; run_in cmd start id

  unfoldable pub warm_up : ℕ → Str → M S (Unit {0})
  warm_up zero cmd = pure tt
  warm_up (suc n) cmd = do _ ← catch (run_once cmd); warm_up n cmd

  abbrev pub with_result : Outcome ℕ → List ℕ → List ℕ
  with_result (Outcome.done d) rest = d ∷ rest
  with_result (Outcome.failed e) rest = rest

  -- The durations of the runs that succeed, in order.
  unfoldable pub measure : ℕ → Str → M S (List ℕ)
  measure zero cmd = pure []
  measure (suc n) cmd = do
    result ← catch (run_once cmd)
    rest ← measure n cmd
    pure (with_result result rest)

  -- none is the exit with "no successful runs".
  abbrev pub reported : List ℕ → Option Summary
  reported [] = none
  reported (d ∷ ds) = some (summarize (d ∷ ds))

  unfoldable pub main : ℕ → ℕ → Str → M S (Option Summary)
  main warmup iterations cmd = do
    warm_up warmup cmd
    results ← measure iterations cmd
    pure (reported results)

  create-Makes : Makes (create ∷ []) create_sandbox
  unfolding create_sandbox
  create-Makes = search (makes_rules, Makes-json http) depth 10

  destroy-Makes : (id : Str) → Makes (destroy id ∷ []) (destroy_sandbox id)
  unfolding destroy_sandbox
  destroy-Makes id = search (makes_rules, Makes-json http) depth 10

  exec-Makes : (id cmd : Str) → Makes (exec id cmd ∷ []) (exec_sandbox id cmd)
  unfolding exec_sandbox
  exec-Makes id cmd = search (makes_rules, Makes-json http) depth 10

  finish-Makes :
      (id : Str) (start : ℕ) (r : Outcome (Unit {0})) → Makes (destroy id ∷ []) (finish id start r)
  finish-Makes id start (Outcome.failed e) = search (makes_rules, destroy-Makes) depth 10
  finish-Makes id start (Outcome.done u) =
      Makes-after http _ λ now. Makes-then _ _ (destroy-Makes id) (λ u'. Makes-pure (now - start))

  run_in-Makes :
      (cmd : Str) (start : ℕ) (id : Str)
      → Makes (destroy id ∷ exec id cmd ∷ []) (run_in cmd start id)
  run_in-Makes cmd start id = Makes-catch_bind _ _ (exec-Makes id cmd) (finish-Makes id start)

  -- A run makes one call alone, the creation, and fails, or it makes three: the creation, the command
  -- in the sandbox of the answer, and last the destruction of that sandbox.
  pub run_once-RunCalls :
      (cmd : Str) (s : Session S)
      → (((run_once cmd s).1.calls ≡ create ∷ s.calls)
          × ((e : Failure) × ((run_once cmd s).0 ≡ Outcome.failed e)))
        ⊎ ((id : Str) × ((run_once cmd s).1.calls ≡ destroy id ∷ exec id cmd ∷ create ∷ s.calls))
  unfolding run_once
  run_once-RunCalls cmd s = ran (create_sandbox s).0 (create_sandbox s).1 (create-Makes.at s)
    where
      ran :
          (r : Outcome Str) (s' : Session S)
          → s'.calls ≡ create ∷ s.calls
          → let end = continue r (run_in cmd (http.now s.peer)) s' in
            ((end.1.calls ≡ create ∷ s.calls) × ((e : Failure) × (end.0 ≡ Outcome.failed e)))
            ⊎ ((id : Str) × (end.1.calls ≡ destroy id ∷ exec id cmd ∷ create ∷ s.calls))
      ran (Outcome.failed e) s' h = inl (h, (e, refl))
      ran (Outcome.done id) s' h =
          inr (id, (run_in-Makes cmd _ id).at s' ∙ ap (λ l. destroy id ∷ exec id cmd ∷ l) h)
