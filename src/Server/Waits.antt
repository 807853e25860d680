-- ===== src/Server/Waits.antt =====
-- The loops of the server that wait for something until a deadline.
use manta.Prelude.{ℕ}
use manta.Prelude.Int.{ℤ}
use manta.Text.{Str}
use manta.Machine.{Env, World}
use manta.Agent.Clock.{IsClock}
use manta.Agent.Ready.{Returns}
use manta.Process.{remove_cgroup_dir}
use manta.Process.Ends.{remove_cgroup_dir-Returns}
use manta.Sandbox.Restore.{wait_for_unix_socket, load_snapshot_with_retry}
use manta.Sandbox.Restore.Ends.{wait_for_unix_socket-Returns, load_snapshot_with_retry-Returns}
use manta.Server.Exec.{wait_for_exec_ssh}
use manta.Server.Exec.Ends.{wait_for_exec_ssh-Returns}

-- On a clock that goes on as time.Now and time.Sleep promise, each of these loops ends, whatever the
-- world answers: the wait for Firecracker's socket, the loading of a snapshot with its retries, the
-- removal of a cgroup, and the wait for ssh.
pub waits_end :
    {env : Env} (clock : IsClock env) (w : World)
    → ((path : Str) → Returns (wait_for_unix_socket env path w).0)
      × ((socket state mem : Str) → Returns (load_snapshot_with_retry env socket state mem w).0)
      × ((path : Str) (timeout : ℕ) → Returns (remove_cgroup_dir env path timeout w).0)
      × ((ip : Str) (timeout : ℤ) → Returns (wait_for_exec_ssh env ip timeout w).0)
waits_end clock w = (
  λ path. wait_for_unix_socket-Returns clock path w,
  λ socket state mem. load_snapshot_with_retry-Returns clock socket state mem w,
  λ path timeout. remove_cgroup_dir-Returns clock path timeout w,
  λ ip timeout. wait_for_exec_ssh-Returns clock ip timeout w,
)
