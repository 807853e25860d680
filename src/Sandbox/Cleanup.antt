-- ===== src/Sandbox/Cleanup.antt =====
-- `cleanupSandbox` of sandbox.go. The error list of the source is a list here; the SSH client of a
-- sandbox is never set.
pub mod Keeps
pub mod Kills
use manta.Prelude.{ℕ, Bool, true, false, List, [], ◌∷◌, ◌++◌, Option, none, some, if◌then◌else◌}
use manta.Text.{Str, is_empty}
use manta.Types.{Sandbox}
use manta.Machine.{
  Env, Error, Result, ok, err, World, M, pure, try, ignore, observe, catch, ◌>>=◌, ◌>>◌, close_conn,
  wait_exit, remove_all,
}
use manta.Netns.Pool.{release_netns}
use manta.Process.{kill_process_group, kill_cgroup, remove_cgroup_dir}

abbrev pub errors_of : Result (Unit {0}) → List Error
errors_of (ok _) = []
errors_of (err e) = e ∷ []

-- 1500 * time.Millisecond
abbrev pub cgroup_timeout : ℕ
cgroup_timeout = 1500000000

module _ (env : Env) where
  abbrev pub close_agent : Option ℕ → M (Unit {0})
  close_agent none = pure tt
  close_agent (some c) = ignore env (close_conn c)

  abbrev pub kill_cgroup_errors : Str → M (List Error)
  kill_cgroup_errors path = do
    killed ← catch (kill_cgroup env path)
    pure (if is_empty path then [] else errors_of killed)

  -- Kills the process group and waits for the process, 5 seconds at most.
  abbrev pub stop_process : Option ℕ → M (List Error)
  stop_process none = pure []
  stop_process (some pid) = do
    kill_process_group env (some pid)
    exited ← try env (wait_exit pid)
    late ← observe env.busy
    pure (
        if exited
        then []
        else if late
        then Error.exit_timeout ∷ []
        else Error.wait_firecracker ∷ [])

  -- What follows the end of the process: the cgroup, the network and the directory.
  abbrev pub clear_up : Sandbox → List Error → M (Sandbox × List Error)
  clear_up sb errors = do
    _ ← catch (remove_cgroup_dir env sb.cgroup_path cgroup_timeout)
    release_netns env sb.netns
    removed ← try env (remove_all sb.dir)
    pure (
      record sb { agent = none; netns = none },
      errors ++ (if removed then [] else Error.remove_sandbox_dir ∷ []),
    )

  -- The sandbox as it is left, and the errors.
  unfoldable pub cleanup_sandbox : Sandbox → M (Sandbox × List Error)
  cleanup_sandbox sb = do
    close_agent sb.agent
    cgroup_errors ← kill_cgroup_errors sb.cgroup_path
    process_errors ← stop_process sb.process
    clear_up sb (cgroup_errors ++ process_errors)
