-- ===== src/Sandbox/Keeps.antt =====
-- Building, restoring and removing a sandbox leaves the map of sandboxes alone.
use manta.Prelude.{ℕ, zero, suc}
use manta.Text.{Str}
use manta.Types.{Config, NetnsConfig}
use manta.Machine.{Env, Error, Result, ok, err, M, ignore, ◌>>◌, sleep}
use manta.Machine.Keeps.{Keeps}
use manta.Machine.Keeps.{Keeps-raise, keeps_rules}
use manta.Netns.Keeps.{acquire-Keeps, release-Keeps}
use manta.Agent.Keeps.{call-Keeps, wait-Keeps}
use manta.Sandbox.{renamed, materialize_sandbox_rootfs, prepare_runtime, configure_guest_network}
use manta.Sandbox.Create.{join_results, acquire_parts}
use manta.Sandbox.Restore.{
  socket_loop, wait_for_unix_socket, load_loop, load_snapshot_with_retry, resume, socket_round,
  load_round, socket_retry, load_retry,
}

module _ (env : Env) where
  pub renamed-Keeps : {A : Type 0} (e : Error) (r : Result A) → Keeps (renamed e r)
  renamed-Keeps e (ok a) = search keeps_rules
  renamed-Keeps e (err d) = search keeps_rules

  pub network-Keeps : (c : ℕ) (nc : NetnsConfig) → Keeps (configure_guest_network env c nc)
  unfolding configure_guest_network
  network-Keeps c nc = search (keeps_rules, renamed-Keeps, call-Keeps env) depth 10

  pub runtime-Keeps : (dir : Str) → Keeps (prepare_runtime env dir)
  unfolding prepare_runtime
  runtime-Keeps dir = search keeps_rules depth 15

  pub rootfs-Keeps :
      (cfg : Config) (src dst : Str) → Keeps (materialize_sandbox_rootfs env cfg src dst)
  unfolding materialize_sandbox_rootfs
  rootfs-Keeps cfg src dst = search keeps_rules depth 10

  join-Keeps : (r : Result (Unit {0})) (s : Result NetnsConfig) → Keeps (join_results env r s)
  join-Keeps (ok u) (ok nc) = search keeps_rules
  join-Keeps (ok u) (err e) = search keeps_rules
  join-Keeps (err e) (ok nc) = search (keeps_rules, release-Keeps env) depth 8
  join-Keeps (err e) (err d) = search keeps_rules

  pub parts-Keeps : (cfg : Config) (id src dir : Str) → Keeps (acquire_parts env cfg id src dir)
  unfolding acquire_parts
  parts-Keeps cfg id src dir =
      search (keeps_rules, rootfs-Keeps, acquire-Keeps env, join-Keeps) depth 10

  pause-Keeps : (d : ℕ) (rest : M (Unit {0})) → Keeps rest → Keeps (ignore env (sleep d) >> rest)
  pause-Keeps d rest h = search keeps_rules depth 10

  socket_round-Keeps :
      (path : Str) (until : ℕ) (again : M (Unit {0}))
      → Keeps again
      → Keeps (socket_round env path until again)
  socket_round-Keeps path until again h = search keeps_rules depth 15

  socket_loop-Keeps : (path : Str) (until fuel : ℕ) → Keeps (socket_loop env path until fuel)
  unfolding socket_loop
  socket_loop-Keeps path until zero = socket_round-Keeps path until _ (Keeps-raise _)
  socket_loop-Keeps path until (suc fuel) =
      socket_round-Keeps path until
        (ignore env (sleep socket_retry) >> socket_loop env path until fuel)
        (pause-Keeps socket_retry (socket_loop env path until fuel)
          (socket_loop-Keeps path until fuel))

  pub socket-Keeps : (path : Str) → Keeps (wait_for_unix_socket env path)
  unfolding wait_for_unix_socket
  socket-Keeps path = search (keeps_rules, socket_loop-Keeps) depth 10

  load_round-Keeps :
      (socket state mem : Str) (until : ℕ) (again : M (Unit {0}))
      → Keeps again
      → Keeps (load_round env socket state mem until again)
  load_round-Keeps socket state mem until again h = search keeps_rules depth 15

  load_loop-Keeps :
      (socket state mem : Str) (until fuel : ℕ) → Keeps (load_loop env socket state mem until fuel)
  unfolding load_loop
  load_loop-Keeps socket state mem until zero =
      load_round-Keeps socket state mem until _ (Keeps-raise _)
  load_loop-Keeps socket state mem until (suc fuel) =
      load_round-Keeps socket state mem until
        (ignore env (sleep load_retry) >> load_loop env socket state mem until fuel)
        (pause-Keeps load_retry (load_loop env socket state mem until fuel)
          (load_loop-Keeps socket state mem until fuel))

  load-Keeps : (socket state mem : Str) → Keeps (load_snapshot_with_retry env socket state mem)
  unfolding load_snapshot_with_retry
  load-Keeps socket state mem = search (keeps_rules, load_loop-Keeps) depth 10

  pub resume-Keeps :
      (cfg : Config) (dir state mem : Str) (nc : NetnsConfig)
      → Keeps (resume env cfg dir state mem nc)
  unfolding resume
  resume-Keeps cfg dir state mem nc = search (keeps_rules, load-Keeps, wait-Keeps env) depth 10
