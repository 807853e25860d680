-- ===== src/Snapshot/Golden.antt =====
-- What ensureSnapshot of cmd/server/snapshot.go does to the process of the golden machine.
use manta.Prelude.{ℕ, ◌+◌, ◌≤◌, ◌≡◌, refl, Bool, true, false, if◌then◌else◌, arith}
use manta.Text.{Str}
use manta.Types.{Config, NetnsConfig}
use manta.Machine.{
  Op, Env, Error, Result, ok, err, World, Trace, M, pure, need, ignore, observe, catch, finally,
  continue, ◌>>=◌, ◌>>◌,
}
use manta.Machine.Trace.{count}
use manta.Machine.Counts.{Silent}
use manta.Machine.Silence.{IsOnProcesses, is_process, silent_rules}
use manta.Machine.Debt.{Owes, left, Debt, Neutral}
use manta.Process.{kill_process_group}
use manta.Agent.Silence.{wait-Silent}
use manta.Netns.Silence.{setup-Silent}
use manta.Agent.{wait_for_agent_ready}
use manta.Netns.Setup.{setup_netns}
use manta.Sandbox.{wrapped, materialize_sandbox_rootfs}
use manta.Sandbox.Silence.{rootfs-Silent, renamed-Silent}
use manta.Sandbox.Processes.{processes, is_started, is_killed, Silent-Neutral, start-Debt}
use manta.Snapshot.{
  SnapshotPaths, validate_snapshot_meta, write_snapshot_meta, kill_and_wait, take_snapshot,
  boot_golden, remove_golden_netns, build_snapshot, rebuilt, reuse, ensure_snapshot,
}
use manta.Snapshot.Silence.{
  artifacts-Silent, validate-Silent, reset-Silent, write_meta-Silent, remove_netns-Silent,
}

-- Whatever the result, the kills are `n` more than the starts at least.
record Frees (n : ℕ) {A : Type 0} (m : M A) : Type 0 where
  at :
      (w : World)
      → count is_started (m w).1.trace + count is_killed w.trace + n
        ≤ count is_killed (m w).1.trace + count is_started w.trace

Frees-Neutral : {A : Type 0} (m : M A) → Neutral processes m → Frees 0 m
Frees-Neutral m n = record { at = λ w. omega (arith, n.no_takes.at w, n.no_gives.at w) }

Frees-bind :
    {A B : Type 0} (m : M A) (k : A → M B)
    → Frees 0 m
    → ((a : A) → Frees 0 (k a))
    → Frees 0 (m >>= k)
Frees-bind {A} {B} m k fm fk = record { at = λ w. next (m w).0 (m w).1 w (fm.at w) }
  where
    next :
        (r : Result A) (w' w : World)
        → count is_started w'.trace + count is_killed w.trace + 0
          ≤ count is_killed w'.trace + count is_started w.trace
        → count is_started (continue r k w').1.trace + count is_killed w.trace + 0
          ≤ count is_killed (continue r k w').1.trace + count is_started w.trace
    next (ok a) w' w h = omega (arith, (fk a).at w')
    next (err e) w' w h = h

-- What is started is freed by what follows.
Frees-start :
    {A B : Type 0} (m : M A) (k : A → M B)
    → Debt processes 0 1 m
    → ((a : A) → Frees 1 (k a))
    → Frees 0 (m >>= k)
Frees-start {A} {B} m k dm fk = record { at = λ w. next (m w).0 (m w).1 w (dm.at w) }
  where
    next :
        (r : Result A) (w' w : World)
        → Owes processes 0 (left 1 r) w.trace w'.trace
        → count is_started (continue r k w').1.trace + count is_killed w.trace + 0
          ≤ count is_killed (continue r k w').1.trace + count is_started w.trace
    next (ok a) w' w h = omega (arith, (fk a).at w')
    next (err e) w' w h = omega arith

Frees-finally :
    {A : Type 0} (c : M (Unit {0})) (m : M A)
    → Frees 0 m
    → Neutral processes c
    → Frees 0 (finally c m)
Frees-finally c m fm n = record {
  at = λ w. omega (arith, fm.at w, n.no_takes.at (m w).1, n.no_gives.at (m w).1);
}

Frees-finally_kill :
    {A : Type 0} (c : M (Unit {0})) (m : M A) → Frees 0 m → Frees 1 c → Frees 1 (finally c m)
Frees-finally_kill c m fm fc = record { at = λ w. omega (arith, fm.at w, fc.at (m w).1) }

Frees-observe :
    {A B : Type 0} (f : Trace → A) (k : A → M B)
    → ((a : A) → Frees 1 (k a))
    → Frees 1 (observe f >>= k)
Frees-observe f k fk = record { at = λ w. (fk (f w.trace)).at w }

Frees-if :
    {A : Type 0} (b : Bool) (m k : M A) → Frees 0 m → Frees 0 k → Frees 0 (if b then m else k)
Frees-if true m k fm fk = fm
Frees-if false m k fm fk = fk

module _ (env : Env) where
  kill-Frees : (pid : ℕ) → Frees 1 (kill_and_wait env pid)
  unfolding kill_and_wait kill_process_group count
  kill-Frees pid = record { at = λ w. ground arith }

module _ (env : Env) where
  quiet :
      {A : Type 0} (m : M A) → ((p : Op → Bool → Bool) → IsOnProcesses p → Silent p m) → Frees 0 m
  quiet m h = Frees-Neutral m (Silent-Neutral m h)

  one-Frees : {A : Type 0} (m : M A) → Frees 1 m → Frees 0 m
  one-Frees m f = record { at = λ w. omega (arith, f.at w) }

  call-Frees : (op : Op) (e : Error) → is_process op ≡ false → Frees 0 (need env op e)
  call-Frees op e h = quiet _ (λ p on. search (silent_rules, on) depth 8)

  ignore-Frees : (op : Op) → is_process op ≡ false → Frees 0 (ignore env op)
  ignore-Frees op h = quiet _ (λ p on. search (silent_rules, on) depth 8)

  wait-Frees :
      (uds : Str) (cfg : Config)
      → Frees 0 (
          wrapped Error.snapshot_agent_not_ready (
            wait_for_agent_ready env uds cfg.agent_port cfg.agent_wait_timeout
              cfg.agent_dial_timeout))
  wait-Frees uds cfg =
      quiet _ (λ p on. search (silent_rules, renamed-Silent env on, wait-Silent env on) depth 10)

  write_meta-Frees : (sp : SnapshotPaths) → Frees 0 (write_snapshot_meta env sp)
  write_meta-Frees sp = quiet _ (λ p on. write_meta-Silent env on sp)

  end-Frees :
      (sp : SnapshotPaths) (pid : ℕ) → Frees 0 (kill_and_wait env pid >> write_snapshot_meta env sp)
  end-Frees sp pid = Frees-bind _ _ (one-Frees _ (kill-Frees env pid)) (λ _. write_meta-Frees sp)

  take-Frees :
      (cfg : Config) (sp : SnapshotPaths) (pid : ℕ) → Frees 0 (take_snapshot env cfg sp pid)
  unfolding take_snapshot
  take-Frees cfg sp pid =
      Frees-bind _ _ (wait-Frees _ cfg)
        (λ c. search (Frees-bind, call-Frees, ignore-Frees, end-Frees) depth 20)

  boot-Frees :
      (cfg : Config) (sp : SnapshotPaths) (nc : NetnsConfig) → Frees 0 (boot_golden env cfg sp nc)
  unfolding boot_golden
  boot-Frees cfg sp nc =
      search
        (
          Frees-bind,
          Frees-start,
          Frees-observe,
          Frees-finally_kill,
          call-Frees,
          ignore-Frees,
          start-Debt env,
          kill-Frees env,
          take-Frees,
        )
        depth 20

  base_disk-Frees :
      (cfg : Config) (src dst : Str)
      → Frees 0 (wrapped Error.copy_base_disk (materialize_sandbox_rootfs env cfg src dst))
  base_disk-Frees cfg src dst =
      quiet _ (λ p on. search (silent_rules, renamed-Silent env on, rootfs-Silent env on) depth 10)

  setup-Frees :
      (id : Str) (subnet : ℕ)
      → Frees 0 (wrapped Error.setup_snapshot_netns (setup_netns env id subnet))
  setup-Frees id subnet =
      quiet _ (λ p on. search (silent_rules, renamed-Silent env on, setup-Silent env on) depth 10)

  netns-Frees :
      (cfg : Config) (sp : SnapshotPaths) (nc : NetnsConfig)
      → Frees 0 (finally (remove_golden_netns env nc) (boot_golden env cfg sp nc))
  netns-Frees cfg sp nc =
      Frees-finally _ _ (boot-Frees cfg sp nc)
        (Silent-Neutral _ (λ p on. remove_netns-Silent env on nc))

  pure-Frees : {A : Type 0} (a : A) → Frees 0 (pure a)
  pure-Frees a = record { at = λ w. omega arith }

  build-Frees : (cfg : Config) (sp : SnapshotPaths) → Frees 0 (build_snapshot env cfg sp)
  unfolding build_snapshot
  build-Frees cfg sp = Frees-bind _ _ (call-Frees _ _ refl) (λ _.
      Frees-bind _ _ (base_disk-Frees cfg _ _) (λ _.
        Frees-bind _ _ (setup-Frees _ _)
          (λ nc. Frees-bind _ _ (netns-Frees cfg sp nc) (λ _. pure-Frees sp))))

  rebuilt-Frees :
      (cfg : Config) (sp : SnapshotPaths) (r : Result (Unit {0})) → Frees 0 (rebuilt env cfg sp r)
  rebuilt-Frees cfg sp (ok _) = pure-Frees sp
  rebuilt-Frees cfg sp (err e) =
      Frees-bind _ _ (quiet _ (λ p on. reset-Silent env on sp)) (λ _. build-Frees cfg sp)

  reuse-Frees : (cfg : Config) (sp : SnapshotPaths) → Frees 0 (reuse env cfg sp)
  reuse-Frees cfg sp =
      Frees-bind _ _
        (quiet (catch (validate_snapshot_meta env sp cfg))
          (λ p on. search (silent_rules, validate-Silent env on) depth 8))
        (rebuilt-Frees cfg sp)

  ensure-Frees : (cfg : Config) → Frees 0 (ensure_snapshot env cfg)
  unfolding ensure_snapshot
  ensure-Frees cfg =
      Frees-bind _ _ (quiet _ (λ p on. artifacts-Silent env on _))
        (λ there. Frees-if there _ _ (reuse-Frees cfg _) (build-Frees cfg _))

-- However the golden snapshot is obtained or fails to be, the kill of a process group has been
-- called for at least as often as a Firecracker has been started.
pub ensure_snapshot_leaves_no_process :
    (env : Env) (cfg : Config) (w : World)
    → count is_started (ensure_snapshot env cfg w).1.trace + count is_killed w.trace
      ≤ count is_killed (ensure_snapshot env cfg w).1.trace + count is_started w.trace
ensure_snapshot_leaves_no_process env cfg w = omega (arith, (ensure-Frees env cfg).at w)
