-- ===== src/Process/Ends.antt =====
-- The removal of a cgroup ends.
use manta.Prelude.{
  ℕ, zero, suc, ◌+◌, ◌*◌, ◌<◌, ◌≤◌, ◌≡◌, refl, inl, inr, Bool, true, false, ◌&&◌, ◌∷◌, arith, leb,
  if◌then◌else◌, Bool-cases,
}
use manta.Text.{Str, is_empty}
use manta.Text.Trim.{trim_space}
use manta.Machine.{Env, Error, Result, err, World, M, raise, pure, ignore, ◌>>◌, sleep, remove}
use manta.Agent.Clock.{IsClock}
use manta.Agent.Ready.{Returns}
use manta.Process.{cgroup_retry, remove_round, remove_loop, remove_cgroup_dir}

abbrev pub Failed : Error → Type 0
Failed e = let r : Result (Unit {0}) = err e in Returns r

-- An attempt that has failed goes on only under a condition.
pub retry-Returns :
    (b : Bool) (again : M (Unit {0})) (e : Error) (w : World)
    → Failed e
    → (b ≡ true → Returns (again w).0)
    → Returns ((if b then again else raise e) w).0
retry-Returns true again e w h go = go refl
retry-Returns false again e w h go = h

module _ {env : Env} (clock : IsClock env) where
  round-Returns :
      (path : Str) (until : ℕ) (again : M (Unit {0})) (w : World)
      → ((v : World)
          → env.now w.trace ≤ env.now v.trace
          → env.now v.trace ≤ until
          → Returns (again v).0)
      → Returns (remove_round env path until again w).0
  round-Returns path until again w go =
      tried (env.succeeds w.trace (remove path)) (clock.forward w.trace _)
    where
      tried :
          (done : Bool)
          → let v = record w { trace = record { op = remove path; done = done } ∷ w.trace } in
            env.now w.trace ≤ env.now v.trace
            → Returns
                ((if done
                    then pure tt
                    else if env.busy v.trace && leb (env.now v.trace) until
                    then again
                    else raise Error.remove_cgroup)
                  v).0
      tried true later = tt
      tried false later =
          let v = record w { trace = record { op = remove path; done = false } ∷ w.trace } in
          retry-Returns (env.busy v.trace && leb (env.now v.trace) until) again Error.remove_cgroup
            v tt (λ e. go v later (ground arith))

  -- Fuel for more rounds than fit before the deadline.
  loop-Returns :
      (path : Str) (until fuel : ℕ) (w : World)
      → until < env.now w.trace + fuel * cgroup_retry
      → Returns (remove_loop env path until fuel w).0
  unfolding remove_loop
  loop-Returns path until zero w enough =
      round-Returns path until _ w (λ v later early. absurd (omega arith))
  loop-Returns path until (suc fuel) w enough =
      round-Returns path until (ignore env (sleep cgroup_retry) >> remove_loop env path until fuel)
        w
        λ v later early. loop-Returns path until fuel _ (
          omega (
            arith,
            later,
            clock.sleeps v.trace cgroup_retry (env.succeeds v.trace (sleep cgroup_retry)),
          ))

  -- On a clock that goes on as `time.Now` and `time.Sleep` promise, the removal of a cgroup ends.
  pub remove_cgroup_dir-Returns :
      (path : Str) (timeout : ℕ) (w : World) → Returns (remove_cgroup_dir env path timeout w).0
  unfolding remove_cgroup_dir
  remove_cgroup_dir-Returns path timeout w = elim (Bool-cases (is_empty (trim_space path))) [
    | inl e ↦ rw e tt
    | inr e ↦ rw e (loop-Returns path _ _ w (omega arith))
  ]
