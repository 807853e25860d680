-- ===== src/Sandbox/Create/Failure.antt =====
-- What a creation of a fresh sandbox does to processes.
use manta.Prelude.{ℕ, ◌≡◌, Bool, false, Option, some}
use manta.Text.{Str}
use manta.Types.{Config, NetnsConfig}
use manta.Machine.{Op, Env, World, M, Error, need, ignore, remove_all}
use manta.Machine.Counts.{Silent}
use manta.Machine.Silence.{IsOnProcesses, is_process, silent_rules}
use manta.Machine.Debt.{Owes, left, Debt, Settles, Neutral, Debt-Neutral, Debt-total, debt_rules}
use manta.Netns.Silence.{cleanup-Silent, release-Silent}
use manta.Agent.Silence.{wait-Silent}
use manta.Netns.Pool.{release_netns}
use manta.Process.{kill_process_group, prepare_sandbox_cgroup, attach_process_to_cgroup}
use manta.Agent.{wait_for_agent_ready}
use manta.Sandbox.{prepare_runtime, configure_guest_network}
use manta.Prelude.Int.{ℤ}
use manta.Process.Silence.{kill_cgroup-Silent, prepare-Silent, attach-Silent, attach_total}
use manta.Sandbox.Silence.{network-Silent, runtime-Silent, parts-Silent}
use manta.Sandbox.Processes.{
  processes, Silent-Neutral, start-Debt, kill-Settles, Settles-then, Settles-ignore,
}
use manta.Sandbox.Create.{launch, take_down, connect, build, create_fresh, acquire_parts}

module _ (env : Env) where
  neutral :
      {A : Type 0} (m : M A)
      → ((p : Op → Bool → Bool) → IsOnProcesses p → Silent p m)
      → Debt processes 0 0 m
  neutral m h = Debt-Neutral m (Silent-Neutral m h)

  pub need-Debt : (op : Op) (e : Error) → is_process op ≡ false → Debt processes 0 0 (need env op e)
  need-Debt op e h = neutral (need env op e) (λ p on. search (silent_rules, on) depth 8)

  pub runtime-Debt : (dir : Str) → Debt processes 0 0 (prepare_runtime env dir)
  runtime-Debt dir = neutral (prepare_runtime env dir) (λ p on. runtime-Silent env on dir)

  pub prepare-Debt :
      (cfg : Config) (path : Str) → Debt processes 0 0 (prepare_sandbox_cgroup env cfg path)
  prepare-Debt cfg path =
      neutral (prepare_sandbox_cgroup env cfg path) (λ p on. prepare-Silent env on cfg path)

  pub parts-Debt :
      (cfg : Config) (id src dir : Str) → Debt processes 0 0 (acquire_parts env cfg id src dir)
  parts-Debt cfg id src dir =
      neutral (acquire_parts env cfg id src dir) (λ p on. parts-Silent env on cfg id src dir)

  wait-Neutral :
      (uds : Str) (port timeout dial : ℤ)
      → Neutral processes (wait_for_agent_ready env uds port timeout dial)
  wait-Neutral uds port timeout dial =
      Silent-Neutral _ (λ p on. wait-Silent env on uds port timeout dial)

  pub network-Neutral :
      (c : ℕ) (nc : NetnsConfig) → Neutral processes (configure_guest_network env c nc)
  network-Neutral c nc = Silent-Neutral _ (λ p on. network-Silent env on c nc)

  launch-Debt :
      (cfg : Config) (id dir : Str) (nc : NetnsConfig)
      → Debt processes 0 1 (launch env cfg id dir nc)
  unfolding launch
  launch-Debt cfg id dir nc =
      search (debt_rules, need-Debt, runtime-Debt, prepare-Debt, start-Debt env) depth 12

  take_down-Settles :
      (nc : NetnsConfig) (pid : ℕ) (cgroup : Str) → Settles processes (take_down env nc pid cgroup)
  unfolding take_down
  take_down-Settles nc pid cgroup =
      Settles-then env (kill_process_group env (some pid)) _ (kill-Settles env pid) (
        Silent-Neutral _ (λ p on.
          search (silent_rules, kill_cgroup-Silent env on, cleanup-Silent env on) depth 10))

  connect-Debt :
      (cfg : Config) (dir : Str) (nc : NetnsConfig) (pid : ℕ) (cgroup : Str)
      → Debt processes 1 1 (connect env cfg dir nc pid cgroup)
  unfolding connect
  connect-Debt cfg dir nc pid cgroup =
      search (debt_rules, take_down-Settles, Settles-ignore env, wait-Neutral, network-Neutral)
        depth 12

  pub attach-Debt :
      (path : Str) (pid : ℕ) → Debt processes 1 1 (attach_process_to_cgroup env path pid)
  attach-Debt path pid =
      Debt-total 1 _ (Silent-Neutral _ (λ p on. attach-Silent env on path pid))
        (attach_total env path pid)

  pub release-Neutral : (nc : Option NetnsConfig) → Neutral processes (release_netns env nc)
  release-Neutral nc = Silent-Neutral _ (λ p on. release-Silent env on nc)

  build-Debt : (cfg : Config) (id dir : Str) → Debt processes 0 1 (build env cfg id dir)
  unfolding build
  build-Debt cfg id dir =
      search (debt_rules, parts-Debt, release-Neutral, launch-Debt, attach-Debt, connect-Debt) depth
        12

  pub remove-Neutral : (dir : Str) → Neutral processes (ignore env (remove_all dir))
  remove-Neutral dir = Silent-Neutral _ (λ p on. search (silent_rules, on) depth 8)

  create-Debt : (cfg : Config) (id : Str) → Debt processes 0 1 (create_fresh env cfg id)
  unfolding create_fresh
  create-Debt cfg id = search (debt_rules, need-Debt, remove-Neutral, build-Debt) depth 12

-- A creation that fails has called for the kill of as many process groups as it has started
-- Firecrackers, and one that succeeds has started one more.
pub create_fresh_leaves_no_process :
    (env : Env) (cfg : Config) (id : Str) (w : World)
    → Owes processes 0
        (left 1 (create_fresh env cfg id w).0)
        w.trace
        (create_fresh env cfg id w).1.trace
create_fresh_leaves_no_process env cfg id w = (create-Debt env cfg id).at w
