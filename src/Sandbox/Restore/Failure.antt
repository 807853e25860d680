-- ===== src/Sandbox/Restore/Failure.antt =====
-- What a restoration from a snapshot does to processes.
use manta.Prelude.{ℕ, Bool, some, if◌then◌else◌}
use manta.Text.{Str}
use manta.Types.{Config, NetnsConfig}
use manta.Machine.{Env, World, ignore, remove_all, pure}
use manta.Machine.Silence.{silent_rules}
use manta.Machine.Debt.{Owes, left, Debt, Settles, Neutral, debt_rules}
use manta.Process.{kill_process_group}
use manta.Process.Silence.{kill_cgroup-Silent}
use manta.Sandbox.Silence.{socket-Silent, resume-Silent}
use manta.Sandbox.Processes.{
  processes, Silent-Neutral, start-Debt, kill-Settles, Settles-then, Settles-ignore,
}
use manta.Sandbox.Create.Failure.{
  need-Debt, runtime-Debt, prepare-Debt, parts-Debt, network-Neutral, attach-Debt, release-Neutral,
}
use manta.Sandbox.Restore.{
  wait_for_unix_socket, launch_empty, kill_all, resume, bring_up, run_restored, assemble,
  restore_sandbox,
}

module _ (env : Env) where
  launch-Debt :
      (cfg : Config) (id dir : Str) (nc : NetnsConfig)
      → Debt processes 0 1 (launch_empty env cfg id dir nc)
  unfolding launch_empty
  launch-Debt cfg id dir nc =
      search (debt_rules, runtime-Debt env, prepare-Debt env, start-Debt env) depth 12

  kill_all-Settles : (pid : ℕ) (cgroup : Str) → Settles processes (kill_all env pid cgroup)
  unfolding kill_all
  kill_all-Settles pid cgroup =
      Settles-then env (kill_process_group env (some pid)) _ (kill-Settles env pid)
        (Silent-Neutral _ (λ p on. search (silent_rules, kill_cgroup-Silent env on) depth 10))

  socket-Neutral : (path : Str) → Neutral processes (wait_for_unix_socket env path)
  socket-Neutral path = Silent-Neutral _ (λ p on. socket-Silent env on path)

  resume-Neutral :
      (cfg : Config) (dir state mem : Str) (nc : NetnsConfig)
      → Neutral processes (resume env cfg dir state mem nc)
  resume-Neutral cfg dir state mem nc =
      Silent-Neutral _ (λ p on. resume-Silent env on cfg dir state mem nc)

  bring_up-Debt :
      (cfg : Config) (dir state mem : Str) (nc : NetnsConfig) (pp : ℕ × Str)
      → Debt processes 1 1 (bring_up env cfg dir state mem nc pp)
  unfolding bring_up
  bring_up-Debt cfg dir state mem nc (pid, prepared) =
      search
        (
          debt_rules,
          kill_all-Settles,
          Settles-ignore env,
          socket-Neutral,
          resume-Neutral,
          network-Neutral env,
          attach-Debt env,
        )
        depth 12

  run-Debt :
      (cfg : Config) (id dir state mem : Str) (nc : NetnsConfig)
      → Debt processes 0 1 (run_restored env cfg id dir state mem nc)
  unfolding run_restored
  run-Debt cfg id dir state mem nc = search (debt_rules, launch-Debt, bring_up-Debt) depth 8

  assemble-Debt :
      (cfg : Config) (id dir disk state mem : Str)
      → Debt processes 0 1 (assemble env cfg id dir disk state mem)
  unfolding assemble
  assemble-Debt cfg id dir disk state mem =
      search (debt_rules, parts-Debt env, release-Neutral env, run-Debt) depth 8

  cleanup-Neutral :
      (keep : Bool) (dir : Str)
      → Neutral processes (if keep then pure tt else ignore env (remove_all dir))
  cleanup-Neutral keep dir = Silent-Neutral _ (λ p on. search (silent_rules, on) depth 8)

  restore-Debt :
      (cfg : Config) (id disk state mem : Str) (keep : Bool)
      → Debt processes 0 1 (restore_sandbox env cfg id disk state mem keep)
  unfolding restore_sandbox
  restore-Debt cfg id disk state mem keep =
      search (debt_rules, need-Debt env, cleanup-Neutral, assemble-Debt) depth 8

-- A restoration that fails has called for the kill of as many process groups as it has started
-- Firecrackers, and one that succeeds has started one more.
pub restore_leaves_no_process :
    (env : Env) (cfg : Config) (id disk state mem : Str) (keep : Bool) (w : World)
    → Owes processes 0
        (left 1 (restore_sandbox env cfg id disk state mem keep w).0)
        w.trace
        (restore_sandbox env cfg id disk state mem keep w).1.trace
restore_leaves_no_process env cfg id disk state mem keep w =
    (restore-Debt env cfg id disk state mem keep).at w
