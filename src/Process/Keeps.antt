-- ===== src/Process/Keeps.antt =====
-- The code on processes and cgroups changes nothing of the server.
use manta.Prelude.{ℕ, zero, suc, Option, none, some}
use manta.Text.{Str}
use manta.Types.{Config}
use manta.Machine.{Env, Result, ok, err, M, ignore, ◌>>◌, sleep}
use manta.Machine.Keeps.{Keeps}
use manta.Machine.Keeps.{Keeps-raise, keeps_rules}
use manta.Process.{
  kill_process_group, kill_cgroup, remove_loop, remove_cgroup_dir, move_pid_to_cgroup,
  prepare_sandbox_cgroup, attached, attach_process_to_cgroup, remove_round, cgroup_retry,
}

module _ (env : Env) where
  pub kill-Keeps : (pid : Option ℕ) → Keeps (kill_process_group env pid)
  unfolding kill_process_group
  kill-Keeps none = search keeps_rules
  kill-Keeps (some pid) = search keeps_rules depth 10

  pub kill_cgroup-Keeps : (path : Str) → Keeps (kill_cgroup env path)
  unfolding kill_cgroup
  kill_cgroup-Keeps path = search keeps_rules depth 12

  round-Keeps :
      (path : Str) (until : ℕ) (again : M (Unit {0}))
      → Keeps again
      → Keeps (remove_round env path until again)
  round-Keeps path until again h = search keeps_rules depth 15

  pause-Keeps : (rest : M (Unit {0})) → Keeps rest → Keeps (ignore env (sleep cgroup_retry) >> rest)
  pause-Keeps rest h = search keeps_rules depth 10

  remove_loop-Keeps : (path : Str) (until fuel : ℕ) → Keeps (remove_loop env path until fuel)
  unfolding remove_loop
  remove_loop-Keeps path until zero = round-Keeps path until _ (Keeps-raise _)
  remove_loop-Keeps path until (suc fuel) =
      round-Keeps path until (ignore env (sleep cgroup_retry) >> remove_loop env path until fuel)
        (pause-Keeps (remove_loop env path until fuel) (remove_loop-Keeps path until fuel))

  pub remove_cgroup-Keeps : (path : Str) (timeout : ℕ) → Keeps (remove_cgroup_dir env path timeout)
  unfolding remove_cgroup_dir
  remove_cgroup-Keeps path timeout = search (keeps_rules, remove_loop-Keeps) depth 10

  pub prepare-Keeps : (cfg : Config) (path : Str) → Keeps (prepare_sandbox_cgroup env cfg path)
  unfolding prepare_sandbox_cgroup
  prepare-Keeps cfg path = search keeps_rules depth 12

  move-Keeps : (path : Str) (pid : ℕ) → Keeps (move_pid_to_cgroup env path pid)
  unfolding move_pid_to_cgroup
  move-Keeps path pid = search keeps_rules depth 12

  attached-Keeps : (path : Str) (r : Result (Unit {0})) → Keeps (attached env path r)
  attached-Keeps path (ok u) = search keeps_rules
  attached-Keeps path (err e) = search keeps_rules depth 8

  pub attach-Keeps : (path : Str) (pid : ℕ) → Keeps (attach_process_to_cgroup env path pid)
  unfolding attach_process_to_cgroup
  attach-Keeps path pid = search (keeps_rules, move-Keeps, attached-Keeps) depth 10
