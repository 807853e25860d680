-- ===== src/Sandbox/Restore/Keeps.antt =====
-- A restoration from a snapshot leaves the map of sandboxes alone.
use manta.Prelude.{ℕ, Bool}
use manta.Text.{Str}
use manta.Types.{Config, NetnsConfig}
use manta.Machine.{Env}
use manta.Machine.Keeps.{Keeps, keeps_rules}
use manta.Netns.Keeps.{release-Keeps}
use manta.Process.Keeps.{kill-Keeps, kill_cgroup-Keeps, prepare-Keeps, attach-Keeps}
use manta.Sandbox.Keeps.{network-Keeps, runtime-Keeps, parts-Keeps, socket-Keeps, resume-Keeps}
use manta.Sandbox.Restore.{
  launch_empty, kill_all, bring_up, run_restored, assemble, restore_sandbox,
}

module _ (env : Env) where
  launch-Keeps :
      (cfg : Config) (id dir : Str) (nc : NetnsConfig) → Keeps (launch_empty env cfg id dir nc)
  unfolding launch_empty
  launch-Keeps cfg id dir nc = search (keeps_rules, runtime-Keeps env, prepare-Keeps env) depth 12

  kill_all-Keeps : (pid : ℕ) (cgroup : Str) → Keeps (kill_all env pid cgroup)
  unfolding kill_all
  kill_all-Keeps pid cgroup = search (keeps_rules, kill-Keeps env, kill_cgroup-Keeps env) depth 10

  bring_up-Keeps :
      (cfg : Config) (dir state mem : Str) (nc : NetnsConfig) (pp : ℕ × Str)
      → Keeps (bring_up env cfg dir state mem nc pp)
  unfolding bring_up
  bring_up-Keeps cfg dir state mem nc (pid, prepared) =
      search
        (
          keeps_rules,
          kill_all-Keeps,
          socket-Keeps env,
          resume-Keeps env,
          network-Keeps env,
          attach-Keeps env,
        )
        depth 12

  run-Keeps :
      (cfg : Config) (id dir state mem : Str) (nc : NetnsConfig)
      → Keeps (run_restored env cfg id dir state mem nc)
  unfolding run_restored
  run-Keeps cfg id dir state mem nc = search (keeps_rules, launch-Keeps, bring_up-Keeps) depth 10

  assemble-Keeps :
      (cfg : Config) (id dir disk state mem : Str) → Keeps (assemble env cfg id dir disk state mem)
  unfolding assemble
  assemble-Keeps cfg id dir disk state mem =
      search (keeps_rules, parts-Keeps env, release-Keeps env, run-Keeps) depth 10

  pub restore-Keeps :
      (cfg : Config) (id disk state mem : Str) (keep : Bool)
      → Keeps (restore_sandbox env cfg id disk state mem keep)
  unfolding restore_sandbox
  restore-Keeps cfg id disk state mem keep = search (keeps_rules, assemble-Keeps) depth 12
