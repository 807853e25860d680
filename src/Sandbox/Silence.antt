-- ===== src/Sandbox/Silence.antt =====
-- The parts of building a sandbox that start and kill no process.
use manta.Prelude.{ℕ, zero, suc, Bool}
use manta.Text.{Str}
use manta.Types.{Config, NetnsConfig}
use manta.Machine.{Op, Env, Error, Result, ok, err, M, ignore, ◌>>◌, sleep}
use manta.Machine.Counts.{Silent}
use manta.Machine.Silence.{IsOnProcesses, Silent-raise, silent_rules}
use manta.Netns.Silence.{acquire-Silent, release-Silent}
use manta.Agent.Silence.{call-Silent, wait-Silent}
use manta.Sandbox.{renamed, materialize_sandbox_rootfs, prepare_runtime, configure_guest_network}
use manta.Sandbox.Create.{join_results, acquire_parts}
use manta.Sandbox.Restore.{
  socket_loop, wait_for_unix_socket, load_loop, load_snapshot_with_retry, resume, socket_round,
  load_round, socket_retry, load_retry,
}

module _ (env : Env) {p : Op → Bool → Bool} (on : IsOnProcesses p) where
  pub renamed-Silent : {A : Type 0} (e : Error) (r : Result A) → Silent p (renamed e r)
  renamed-Silent e (ok a) = search silent_rules
  renamed-Silent e (err d) = search silent_rules

  pub network-Silent : (c : ℕ) (nc : NetnsConfig) → Silent p (configure_guest_network env c nc)
  unfolding configure_guest_network
  network-Silent c nc = search (silent_rules, renamed-Silent, call-Silent env on) depth 10

  pub runtime-Silent : (dir : Str) → Silent p (prepare_runtime env dir)
  unfolding prepare_runtime
  runtime-Silent dir = search (silent_rules, on) depth 15

  pub rootfs-Silent :
      (cfg : Config) (src dst : Str) → Silent p (materialize_sandbox_rootfs env cfg src dst)
  unfolding materialize_sandbox_rootfs
  rootfs-Silent cfg src dst = search (silent_rules, on) depth 10

  join-Silent : (r : Result (Unit {0})) (s : Result NetnsConfig) → Silent p (join_results env r s)
  join-Silent (ok u) (ok nc) = search silent_rules
  join-Silent (ok u) (err e) = search silent_rules
  join-Silent (err e) (ok nc) = search (silent_rules, release-Silent env on) depth 8
  join-Silent (err e) (err d) = search silent_rules

  pub parts-Silent : (cfg : Config) (id src dir : Str) → Silent p (acquire_parts env cfg id src dir)
  unfolding acquire_parts
  parts-Silent cfg id src dir =
      search (silent_rules, rootfs-Silent, acquire-Silent env on, join-Silent) depth 10

  pause-Silent :
      (d : ℕ) (rest : M (Unit {0})) → Silent p rest → Silent p (ignore env (sleep d) >> rest)
  pause-Silent d rest h = search (silent_rules, on) depth 10

  socket_round-Silent :
      (path : Str) (until : ℕ) (again : M (Unit {0}))
      → Silent p again
      → Silent p (socket_round env path until again)
  socket_round-Silent path until again h = search (silent_rules, on) depth 15

  socket_loop-Silent : (path : Str) (until fuel : ℕ) → Silent p (socket_loop env path until fuel)
  unfolding socket_loop
  socket_loop-Silent path until zero = socket_round-Silent path until _ (Silent-raise _)
  socket_loop-Silent path until (suc fuel) =
      socket_round-Silent path until
        (ignore env (sleep socket_retry) >> socket_loop env path until fuel)
        (pause-Silent socket_retry (socket_loop env path until fuel)
          (socket_loop-Silent path until fuel))

  pub socket-Silent : (path : Str) → Silent p (wait_for_unix_socket env path)
  unfolding wait_for_unix_socket
  socket-Silent path = search (silent_rules, socket_loop-Silent) depth 10

  load_round-Silent :
      (socket state mem : Str) (until : ℕ) (again : M (Unit {0}))
      → Silent p again
      → Silent p (load_round env socket state mem until again)
  load_round-Silent socket state mem until again h = search (silent_rules, on) depth 15

  load_loop-Silent :
      (socket state mem : Str) (until fuel : ℕ)
      → Silent p (load_loop env socket state mem until fuel)
  unfolding load_loop
  load_loop-Silent socket state mem until zero =
      load_round-Silent socket state mem until _ (Silent-raise _)
  load_loop-Silent socket state mem until (suc fuel) =
      load_round-Silent socket state mem until
        (ignore env (sleep load_retry) >> load_loop env socket state mem until fuel)
        (pause-Silent load_retry (load_loop env socket state mem until fuel)
          (load_loop-Silent socket state mem until fuel))

  load-Silent : (socket state mem : Str) → Silent p (load_snapshot_with_retry env socket state mem)
  unfolding load_snapshot_with_retry
  load-Silent socket state mem = search (silent_rules, load_loop-Silent) depth 10

  pub resume-Silent :
      (cfg : Config) (dir state mem : Str) (nc : NetnsConfig)
      → Silent p (resume env cfg dir state mem nc)
  unfolding resume
  resume-Silent cfg dir state mem nc =
      search (silent_rules, load-Silent, wait-Silent env on) depth 10
