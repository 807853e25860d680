-- ===== src/Sandbox/Cleanup/Kills.antt =====
-- The removal of a sandbox kills its process group, whatever else fails in it.
use manta.Prelude.{ℕ, ◌≡◌, refl, List, ◌++◌, Option, none, some, arith}
use manta.Text.{Str}
use manta.Types.{Sandbox}
use manta.Machine.{Env, Error, Result, ok, err, World, M, try, continue, ◌>>=◌, wait_exit}
use manta.Machine.Trace.{count}
use manta.Machine.Counts.{Silent}
use manta.Machine.Silence.{silent_rules, Silent-bind}
use manta.Machine.Debt.{Kind, Owes, Settles, Neutral}
use manta.Netns.Silence.{release-Silent}
use manta.Process.{kill_process_group}
use manta.Process.Silence.{kill_cgroup-Silent, remove_cgroup-Silent}
use manta.Sandbox.Processes.{process, Silent-process-Neutral, kill_process-Settles, is_started}
use manta.Sandbox.Cleanup.{close_agent, kill_cgroup_errors, stop_process, clear_up, cleanup_sandbox}

-- Code that does not fail.
pub record Total {A : Type 0} (m : M A) : Type 0 where
  pub at : (w : World) → (a : A) × ((m w).0 ≡ ok a)

pub Settles-late :
    {κ : Kind} {A B : Type 0} (m : M A) (k : A → M B)
    → Total m
    → Neutral κ m
    → ((a : A) → Settles κ (k a))
    → Settles κ (m >>= k)
Settles-late {κ} {A} {B} m k total n s = record {
  at = λ w.
      let (a, e) = total.at w in next (m w).0 a w (m w).1 e (n.no_takes.at w) (n.no_gives.at w);
}
  where
    next :
        (r : Result A) (a : A) (w w' : World)
        → r ≡ ok a
        → count κ.takes w'.trace ≡ count κ.takes w.trace
        → count κ.gives w'.trace ≡ count κ.gives w.trace
        → Owes κ 1 0 w.trace (continue r k w').1.trace
    next (ok b) a w w' e t g = omega (arith, (s b).at w', t, g)
    next (err d) a w w' e t g = cc

pub Settles-early :
    {κ : Kind} {A B : Type 0} (m : M A) (k : A → M B)
    → Settles κ m
    → ((a : A) → Neutral κ (k a))
    → Settles κ (m >>= k)
Settles-early {κ} {A} {B} m k s n = record { at = λ w. next (m w).0 w (m w).1 (s.at w) }
  where
    next :
        (r : Result A) (w w' : World)
        → Owes κ 1 0 w.trace w'.trace
        → Owes κ 1 0 w.trace (continue r k w').1.trace
    next (ok a) w w' h = omega (arith, (n a).no_takes.at w', (n a).no_gives.at w', h)
    next (err e) w w' h = h

module _ (env : Env) (n : ℕ) where
  close-Total : (c : Option ℕ) → Total (close_agent env c)
  close-Total none = record { at = λ w. (tt, refl) }
  close-Total (some c) = record { at = λ w. (tt, refl) }

  close-Neutral : (c : Option ℕ) → Neutral (process n) (close_agent env c)
  close-Neutral none = Silent-process-Neutral n _ (λ p on. search (silent_rules, on) depth 8)
  close-Neutral (some c) = Silent-process-Neutral n _ (λ p on. search (silent_rules, on) depth 8)

  errors-Total : (path : Str) → Total (kill_cgroup_errors env path)
  errors-Total path = record { at = λ w. (_, refl) }

  errors-Neutral : (path : Str) → Neutral (process n) (kill_cgroup_errors env path)
  errors-Neutral path =
      Silent-process-Neutral n _ (λ p on. search (silent_rules, kill_cgroup-Silent env on) depth 8)

  wait-Neutral : (pid : ℕ) → Neutral (process n) (try env (wait_exit pid))
  unfolding count
  wait-Neutral pid = record {
    no_takes = record { at = λ w. ground arith };
    no_gives = record { at = λ w. ground arith };
  }

  stop-Settles : Settles (process n) (stop_process env (some n))
  stop-Settles =
      Settles-early (kill_process_group env (some n)) _ (kill_process-Settles env n) (λ _. record {
        no_takes = search (silent_rules, (wait-Neutral n).no_takes) depth 8;
        no_gives = search (silent_rules, (wait-Neutral n).no_gives) depth 8;
      })

  clear_up-Neutral :
      (sb : Sandbox) (errors : List Error) → Neutral (process n) (clear_up env sb errors)
  clear_up-Neutral sb errors = Silent-process-Neutral n _ (λ p on.
      search (silent_rules, remove_cgroup-Silent env on, release-Silent env on, on) depth 12)

  pub cleanup-Settles :
      (sb : Sandbox) → sb.process ≡ some n → Settles (process n) (cleanup_sandbox env sb)
  unfolding cleanup_sandbox
  cleanup-Settles sb e =
      Settles-late (close_agent env sb.agent) _ (close-Total sb.agent) (close-Neutral sb.agent)
        (λ _.
          Settles-late (kill_cgroup_errors env sb.cgroup_path) _ (errors-Total sb.cgroup_path)
            (errors-Neutral sb.cgroup_path)
            (λ cgroup_errors.
              Settles-early (stop_process env sb.process) _ (rw e stop-Settles)
                (λ process_errors. clear_up-Neutral sb (cgroup_errors ++ process_errors))))

  kill-Silent : (pid : Option ℕ) → Silent is_started (kill_process_group env pid)
  unfolding kill_process_group count
  kill-Silent none = record { at = λ w. refl }
  kill-Silent (some pid) = record { at = λ w. ground arith }

  stop-Silent : (pid : Option ℕ) → Silent is_started (stop_process env pid)
  stop-Silent none = search silent_rules
  stop-Silent (some pid) =
      let waits : Silent is_started (try env (wait_exit pid)) = (wait-Neutral pid).no_takes in
      Silent-bind (kill_process_group env (some pid)) _ (kill-Silent (some pid))
        (λ _. search (silent_rules, waits) depth 8)

  -- The removal starts no Firecracker.
  pub cleanup-Silent : (sb : Sandbox) → Silent is_started (cleanup_sandbox env sb)
  unfolding cleanup_sandbox
  cleanup-Silent sb =
      Silent-bind (close_agent env sb.agent) _ (close-Neutral sb.agent).no_takes (λ _.
        Silent-bind (kill_cgroup_errors env sb.cgroup_path) _
          (errors-Neutral sb.cgroup_path).no_takes
          (λ cgroup_errors.
            Silent-bind (stop_process env sb.process) _ (stop-Silent sb.process)
              (λ process_errors. (clear_up-Neutral sb (cgroup_errors ++ process_errors)).no_takes)))
