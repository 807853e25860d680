-- ===== src/Process/Silence.antt =====
-- What the code on cgroups does to processes: nothing by calls on processes.
use manta.Prelude.{ℕ, zero, suc, ◌≡◌, refl, Bool, [], inl, inr, Bool-cases}
use manta.Text.{Str, is_empty}
use manta.Types.{Config}
use manta.Machine.{Op, Env, Result, ok, err, World, M, ignore, ◌>>◌, sleep}
use manta.Machine.Counts.{Silent}
use manta.Machine.Silence.{IsOnProcesses, Silent-raise, silent_rules}
use manta.Process.{
  kill_cgroup, remove_loop, remove_cgroup_dir, move_pid_to_cgroup, prepare_sandbox_cgroup, attached,
  attach_process_to_cgroup, remove_round, cgroup_retry,
}

module _ (env : Env) {p : Op → Bool → Bool} (on : IsOnProcesses p) where
  pub kill_cgroup-Silent : (path : Str) → Silent p (kill_cgroup env path)
  unfolding kill_cgroup
  kill_cgroup-Silent path = search (silent_rules, on) depth 12

  round-Silent :
      (path : Str) (until : ℕ) (again : M (Unit {0}))
      → Silent p again
      → Silent p (remove_round env path until again)
  round-Silent path until again h = search (silent_rules, on) depth 15

  pause-Silent :
      (rest : M (Unit {0})) → Silent p rest → Silent p (ignore env (sleep cgroup_retry) >> rest)
  pause-Silent rest h = search (silent_rules, on) depth 10

  remove_loop-Silent : (path : Str) (until fuel : ℕ) → Silent p (remove_loop env path until fuel)
  unfolding remove_loop
  remove_loop-Silent path until zero = round-Silent path until _ (Silent-raise _)
  remove_loop-Silent path until (suc fuel) =
      round-Silent path until (ignore env (sleep cgroup_retry) >> remove_loop env path until fuel)
        (pause-Silent (remove_loop env path until fuel) (remove_loop-Silent path until fuel))

  pub remove_cgroup-Silent :
      (path : Str) (timeout : ℕ) → Silent p (remove_cgroup_dir env path timeout)
  unfolding remove_cgroup_dir
  remove_cgroup-Silent path timeout = search (silent_rules, remove_loop-Silent) depth 10

  pub prepare-Silent : (cfg : Config) (path : Str) → Silent p (prepare_sandbox_cgroup env cfg path)
  unfolding prepare_sandbox_cgroup
  prepare-Silent cfg path = search (silent_rules, on) depth 12

  move-Silent : (path : Str) (pid : ℕ) → Silent p (move_pid_to_cgroup env path pid)
  unfolding move_pid_to_cgroup
  move-Silent path pid = search (silent_rules, on) depth 12

  attached-Silent : (path : Str) (r : Result (Unit {0})) → Silent p (attached env path r)
  attached-Silent path (ok u) = search silent_rules
  attached-Silent path (err e) = search (silent_rules, on) depth 8

  pub attach-Silent : (path : Str) (pid : ℕ) → Silent p (attach_process_to_cgroup env path pid)
  unfolding attach_process_to_cgroup
  attach-Silent path pid = search (silent_rules, move-Silent, attached-Silent) depth 10

attached_total :
    (env : Env) (path : Str) (r : Result (Unit {0})) (w : World)
    → (s : Str) × ((attached env path r w).0 ≡ ok s)
attached_total env path (ok u) w = (path, refl)
attached_total env path (err e) w = ([], refl)

-- Attaching a process to a cgroup does not fail.
pub attach_total :
    (env : Env) (path : Str) (pid : ℕ) (w : World)
    → (s : Str) × ((attach_process_to_cgroup env path pid w).0 ≡ ok s)
unfolding attach_process_to_cgroup
attach_total env path pid w = elim (Bool-cases (is_empty path)) [
  | inl e ↦ rw e ([], refl)
  | inr e ↦ rw e (attached_total env path _ _)
]
