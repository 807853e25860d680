-- ===== src/Server/Exec/Ends.antt =====
-- The wait for ssh of a command ends.
use manta.Prelude.{
  ℕ, zero, suc, ◌+◌, ◌*◌, ◌<◌, ◌≤◌, inl, inr, Bool, true, false, ◌∷◌, arith, ltb, if◌then◌else◌,
  Bool-cases,
}
use manta.Prelude.Int.{ℤ, pos, negsuc}
use manta.Text.{Str}
use manta.Machine.{Env, World, M, pure, ignore, ◌>>◌, sleep, ssh_dial}
use manta.Agent.{deadline}
use manta.Agent.Clock.{IsClock}
use manta.Agent.Ready.{Returns}
use manta.Server.Exec.{ssh_retry, ssh_rounds, ssh_round, ssh_loop, wait_for_exec_ssh}

module _ {env : Env} (clock : IsClock env) where
  round-Returns :
      (ip : Str) (until : ℕ) (again : M (Unit {0})) (w : World)
      → ((v : World)
          → env.now w.trace ≤ env.now v.trace
          → env.now w.trace < until
          → Returns (again v).0)
      → Returns (ssh_round env ip until again w).0
  round-Returns ip until again w go = elim (Bool-cases (ltb (env.now w.trace) until)) [
    | inr late ↦ rw late tt
    | inl early ↦
        rw early
          (dialled (ground arith) (env.succeeds w.trace (ssh_dial ip)) (clock.forward w.trace _))
  ]
    where
      dialled :
          env.now w.trace < until
          → (done : Bool)
          → let v = record w { trace = record { op = ssh_dial ip; done = done } ∷ w.trace } in
            env.now w.trace ≤ env.now v.trace → Returns ((if done then pure tt else again) v).0
      dialled early true later = tt
      dialled early false later = go _ later early

  loop-Returns :
      (ip : Str) (until fuel : ℕ) (w : World)
      → until ≤ env.now w.trace + fuel * ssh_retry
      → Returns (ssh_loop env ip until fuel w).0
  unfolding ssh_loop
  loop-Returns ip until zero w enough =
      round-Returns ip until _ w (λ v later early. absurd (omega arith))
  loop-Returns ip until (suc fuel) w enough =
      round-Returns ip until (ignore env (sleep ssh_retry) >> ssh_loop env ip until fuel) w
        λ v later early. loop-Returns ip until fuel _ (
          omega
            (arith, later, clock.sleeps v.trace ssh_retry (env.succeeds v.trace (sleep ssh_retry))))

  deadline-le :
      (now : ℕ) (timeout : ℤ) → deadline now timeout ≤ now + ssh_rounds timeout * ssh_retry
  deadline-le now (pos n) = omega arith
  deadline-le now (negsuc n) = omega arith

  -- On a clock that goes on as `time.Now` and `time.Sleep` promise, the wait for ssh of a command ends,
  -- for every timeout.
  pub wait_for_exec_ssh-Returns :
      (ip : Str) (timeout : ℤ) (w : World) → Returns (wait_for_exec_ssh env ip timeout w).0
  unfolding wait_for_exec_ssh
  wait_for_exec_ssh-Returns ip timeout w = loop-Returns ip _ _ w (deadline-le _ timeout)
