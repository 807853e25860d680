-- ===== src/Process.antt =====
-- cmd/server/procutil.go, and `cgroup.go` with the two functions of `sandbox.go` that use it.
pub mod Silence
pub mod Keeps
pub mod Ends
use manta.Prelude.{
  ℕ, zero, suc, ◌+◌, ◌/◌, [], ◌∷◌, Bool, true, false, Option, none, some, leb, ◌&&◌, if◌then◌else◌,
}
use manta.Text.{Str, lit, is_empty, join}
use manta.Text.Trim.{trim_space}
use manta.Types.{Config}
use manta.Machine.{
  Env, Error, Result, ok, err, World, M, pure, raise, try, need, ignore, observe, catch, gets,
  ◌>>=◌, ◌>>◌, kill_group, kill_process, stat, write_file, mkdir, remove, sleep,
}

-- 50 * time.Millisecond
abbrev pub cgroup_retry : ℕ
cgroup_retry = 50000000

module _ (env : Env) where
  -- The error of the kill is dropped by every caller. The kill of the group succeeds also where
  -- there is no such process.
  unfoldable pub kill_process_group : Option ℕ → M (Unit {0})
  kill_process_group none = pure tt
  kill_process_group (some pid) = do
    killed ← try env (kill_group pid)
    if killed then pure tt else ignore env (kill_process pid)

  abbrev pub write_kill : Str → M (Unit {0})
  write_kill path = do
    need env (stat (join path "cgroup.kill")) Error.cgroup_kill_missing
    need env (write_file (join path "cgroup.kill")) Error.write_cgroup_kill

  unfoldable pub kill_cgroup : Str → M (Unit {0})
  kill_cgroup path = if is_empty (trim_space path) then pure tt else write_kill path

  -- os.Remove succeeds also where the directory does not exist.
  -- One round of the loop: `again` is what follows an error that passes.
  abbrev pub remove_round : Str → ℕ → M (Unit {0}) → M (Unit {0})
  remove_round path until again = do
    removed ← try env (remove path)
    busy ← observe env.busy
    now ← observe env.now
    if removed then pure tt else if busy && leb now until then again else raise Error.remove_cgroup

  unfoldable pub remove_loop : Str → ℕ → ℕ → M (Unit {0})
  remove_loop path until zero = remove_round path until (raise Error.out_of_fuel)
  remove_loop path until (suc fuel) =
      let rest = remove_loop path until fuel in
      remove_round path until (ignore env (sleep cgroup_retry) >> rest)

  unfoldable pub remove_cgroup_dir : Str → ℕ → M (Unit {0})
  remove_cgroup_dir path timeout = do
    now ← observe env.now
    let loop = remove_loop path (now + timeout) (timeout / cgroup_retry + 1)
    if is_empty (trim_space path) then pure tt else loop

  unfoldable pub move_pid_to_cgroup : Str → ℕ → M (Unit {0})
  move_pid_to_cgroup path pid = do
    need env (stat (join path "cgroup.procs")) Error.cgroup_procs_missing
    need env (write_file (join path "cgroup.procs")) Error.write_cgroup_procs

  -- The path of the new cgroup, or the empty string.
  abbrev pub make_cgroup : Str → M Str
  make_cgroup path = do made ← try env (mkdir path); if made then pure path else pure []

  unfoldable pub prepare_sandbox_cgroup : Config → Str → M Str
  prepare_sandbox_cgroup cfg path = if cfg.enable_cgroups then make_cgroup path else pure []

  abbrev pub attached : Str → Result (Unit {0}) → M Str
  attached path (ok _) = pure path
  attached path (err e) = do ignore env (remove path); pure []

  abbrev pub attach : Str → ℕ → M Str
  attach path pid = do moved ← catch (move_pid_to_cgroup path pid); attached path moved

  unfoldable pub attach_process_to_cgroup : Str → ℕ → M Str
  attach_process_to_cgroup path pid = if is_empty path then pure [] else attach path pid
