-- ===== src/Sandbox/Cleanup/Keeps.antt =====
-- The removal of a sandbox leaves the map of sandboxes alone.
use manta.Prelude.{ℕ, Option, none, some}
use manta.Text.{Str}
use manta.Types.{Sandbox}
use manta.Machine.{Env}
use manta.Machine.Keeps.{Keeps, keeps_rules}
use manta.Netns.Keeps.{release-Keeps}
use manta.Process.Keeps.{kill-Keeps, kill_cgroup-Keeps, remove_cgroup-Keeps}
use manta.Sandbox.Cleanup.{close_agent, kill_cgroup_errors, stop_process, cleanup_sandbox}

module _ (env : Env) where
  close-Keeps : (c : Option ℕ) → Keeps (close_agent env c)
  close-Keeps none = search keeps_rules
  close-Keeps (some c) = search keeps_rules depth 8

  errors-Keeps : (path : Str) → Keeps (kill_cgroup_errors env path)
  errors-Keeps path = search (keeps_rules, kill_cgroup-Keeps env) depth 8

  stop-Keeps : (pid : Option ℕ) → Keeps (stop_process env pid)
  stop-Keeps none = search keeps_rules
  stop-Keeps (some pid) = search (keeps_rules, kill-Keeps env) depth 8

  pub cleanup-Keeps : (sb : Sandbox) → Keeps (cleanup_sandbox env sb)
  unfolding cleanup_sandbox
  cleanup-Keeps sb =
      search
        (
          keeps_rules,
          close-Keeps,
          errors-Keeps,
          stop-Keeps,
          remove_cgroup-Keeps env,
          release-Keeps env,
        )
        depth 12
