-- ===== src/Sandbox/Create/Keeps.antt =====
-- A creation of a fresh sandbox leaves the map of sandboxes alone.
use manta.Prelude.{ℕ}
use manta.Text.{Str}
use manta.Types.{Config, NetnsConfig}
use manta.Machine.{Env}
use manta.Machine.Keeps.{Keeps, keeps_rules}
use manta.Netns.Keeps.{cleanup-Keeps, release-Keeps}
use manta.Agent.Keeps.{wait-Keeps}
use manta.Process.Keeps.{kill-Keeps, kill_cgroup-Keeps, prepare-Keeps, attach-Keeps}
use manta.Sandbox.Keeps.{network-Keeps, runtime-Keeps, parts-Keeps}
use manta.Sandbox.Create.{launch, take_down, connect, build, create_fresh}

module _ (env : Env) where
  launch-Keeps : (cfg : Config) (id dir : Str) (nc : NetnsConfig) → Keeps (launch env cfg id dir nc)
  unfolding launch
  launch-Keeps cfg id dir nc = search (keeps_rules, runtime-Keeps env, prepare-Keeps env) depth 12

  take_down-Keeps :
      (nc : NetnsConfig) (pid : ℕ) (cgroup : Str) → Keeps (take_down env nc pid cgroup)
  unfolding take_down
  take_down-Keeps nc pid cgroup =
      search (keeps_rules, kill-Keeps env, kill_cgroup-Keeps env, cleanup-Keeps env) depth 12

  connect-Keeps :
      (cfg : Config) (dir : Str) (nc : NetnsConfig) (pid : ℕ) (cgroup : Str)
      → Keeps (connect env cfg dir nc pid cgroup)
  unfolding connect
  connect-Keeps cfg dir nc pid cgroup =
      search (keeps_rules, take_down-Keeps, wait-Keeps env, network-Keeps env) depth 12

  build-Keeps : (cfg : Config) (id dir : Str) → Keeps (build env cfg id dir)
  unfolding build
  build-Keeps cfg id dir =
      search
        (
          keeps_rules,
          parts-Keeps env,
          release-Keeps env,
          launch-Keeps,
          attach-Keeps env,
          connect-Keeps,
        )
        depth 12

  pub create-Keeps : (cfg : Config) (id : Str) → Keeps (create_fresh env cfg id)
  unfolding create_fresh
  create-Keeps cfg id = search (keeps_rules, build-Keeps) depth 12
