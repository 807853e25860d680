-- ===== src/Sandbox/Restore/Ends.antt =====
-- The two waits of a restoration end: for Firecracker's socket, and for the snapshot to be loaded.
use manta.Prelude.{
  ℕ, zero, suc, ◌+◌, ◌*◌, ◌<◌, ◌≤◌, ◌≡◌, refl, inl, inr, Bool, true, false, not, ◌||◌, ◌∷◌, arith,
  ltb, if◌then◌else◌, Bool-cases,
}
use manta.Text.{Str, is_empty}
use manta.Text.Trim.{trim_space}
use manta.Machine.{
  Env, Error, Result, ok, err, World, M, raise, pure, ignore, continue, ◌>>◌, sleep, load_snapshot,
  stat, try, dial_unix, ◌>>=◌,
}
use manta.Agent.Clock.{IsClock, Passes, passes_rules}
use manta.Agent.Ready.{Returns}
use manta.Sandbox.Restore.{
  socket_retry, load_retry, socket_answers, close_probe, socket_round, socket_loop,
  wait_for_unix_socket, load_round, load_loop, load_snapshot_with_retry,
}

module _ {env : Env} (clock : IsClock env) where
  answers-Passes : (path : Str) → Passes env (socket_answers env path)
  answers-Passes path = search (passes_rules, clock) depth 10

  answers_total : (path : Str) (w : World) → (b : Bool) × ((socket_answers env path w).0 ≡ ok b)
  answers_total path w = elim (Bool-cases (env.succeeds w.trace (stat path))) [
    | inl e ↦ rw e (dialled path _)
    | inr e ↦ rw e (_, refl)
  ]
    where
      dialled :
          (path : Str) (w : World)
          → (b : Bool) × (((try env (dial_unix path) >>= λ answers.
                  if answers then close_probe env else pure false)
                w).0
              ≡ ok b)
      dialled path w = elim (Bool-cases (env.succeeds w.trace (dial_unix path))) [
        | inl e ↦ rw e (_, refl)
        | inr e ↦ rw e (_, refl)
      ]

  -- A round goes on only before the deadline.
  socket_round-Returns :
      (path : Str) (until : ℕ) (again : M (Unit {0})) (w : World)
      → ((v : World)
          → env.now w.trace ≤ env.now v.trace
          → env.now w.trace < until
          → Returns (again v).0)
      → Returns (socket_round env path until again w).0
  socket_round-Returns path until again w go = elim (Bool-cases (ltb (env.now w.trace) until)) [
    | inr late ↦ rw late tt
    | inl early ↦ rw early (
        probed (ground arith) (socket_answers env path w).0 (socket_answers env path w).1
          (answers_total path w) ((answers-Passes path).at w))
  ]
    where
      probed :
          env.now w.trace < until
          → (r : Result Bool) (v : World) → (b : Bool) × (r ≡ ok b)
          → env.now w.trace ≤ env.now v.trace
          → Returns (continue r (λ answers. if answers then pure tt else again) v).0
      probed early (ok true) v total later = tt
      probed early (ok false) v total later = go v later early
      probed early (err e) v (b, same) later = cc

  socket_loop-Returns :
      (path : Str) (until fuel : ℕ) (w : World)
      → until ≤ env.now w.trace + fuel * socket_retry
      → Returns (socket_loop env path until fuel w).0
  unfolding socket_loop
  socket_loop-Returns path until zero w enough =
      socket_round-Returns path until _ w (λ v later early. absurd (omega arith))
  socket_loop-Returns path until (suc fuel) w enough =
      socket_round-Returns path until
        (ignore env (sleep socket_retry) >> socket_loop env path until fuel) w
        λ v later early. socket_loop-Returns path until fuel _ (
          omega (
            arith,
            later,
            clock.sleeps v.trace socket_retry (env.succeeds v.trace (sleep socket_retry)),
          ))

  -- On a clock that goes on as `time.Now` and `time.Sleep` promise, the wait for the socket of a new
  -- Firecracker ends.
  pub wait_for_unix_socket-Returns :
      (path : Str) (w : World) → Returns (wait_for_unix_socket env path w).0
  unfolding wait_for_unix_socket
  wait_for_unix_socket-Returns path w = elim (Bool-cases (is_empty (trim_space path))) [
    | inl e ↦ rw e tt
    | inr e ↦ rw e (socket_loop-Returns path _ _ w (omega arith))
  ]

  -- A load goes on only where the deadline has not passed.
  load_round-Returns :
      (socket state mem : Str) (until : ℕ) (again : M (Unit {0})) (w : World)
      → ((v : World)
          → env.now w.trace ≤ env.now v.trace
          → env.now v.trace ≤ until
          → Returns (again v).0)
      → Returns (load_round env socket state mem until again w).0
  load_round-Returns socket state mem until again w go =
      tried (env.succeeds w.trace (load_snapshot socket state mem)) (clock.forward w.trace _)
    where
      tried :
          (done : Bool)
          → let v = record w {
            trace = record { op = load_snapshot socket state mem; done = done } ∷ w.trace;
          } in
            env.now w.trace ≤ env.now v.trace
            → Returns
                ((if done
                    then pure tt
                    else if not (env.busy v.trace) || ltb until (env.now v.trace)
                    then raise Error.load_snapshot_failed
                    else again)
                  v).0
      tried true later = tt
      tried false later =
          let v = record w {
            trace = record { op = load_snapshot socket state mem; done = false } ∷ w.trace;
          } in
          elim (Bool-cases (not (env.busy v.trace) || ltb until (env.now v.trace))) [
            | inl over ↦ rw over tt
            | inr on ↦ rw on (go v later (ground arith))
          ]

  load_loop-Returns :
      (socket state mem : Str) (until fuel : ℕ) (w : World)
      → until < env.now w.trace + fuel * load_retry
      → Returns (load_loop env socket state mem until fuel w).0
  unfolding load_loop
  load_loop-Returns socket state mem until zero w enough =
      load_round-Returns socket state mem until _ w (λ v later early. absurd (omega arith))
  load_loop-Returns socket state mem until (suc fuel) w enough =
      load_round-Returns socket state mem until
        (ignore env (sleep load_retry) >> load_loop env socket state mem until fuel) w
        λ v later early. load_loop-Returns socket state mem until fuel _ (
          omega (
            arith,
            later,
            clock.sleeps v.trace load_retry (env.succeeds v.trace (sleep load_retry)),
          ))

  -- So does the loading of a snapshot with its retries.
  pub load_snapshot_with_retry-Returns :
      (socket state mem : Str) (w : World)
      → Returns (load_snapshot_with_retry env socket state mem w).0
  unfolding load_snapshot_with_retry
  load_snapshot_with_retry-Returns socket state mem w =
      load_loop-Returns socket state mem _ _ w (omega arith)
