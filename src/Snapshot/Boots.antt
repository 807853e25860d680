-- ===== src/Snapshot/Boots.antt =====
-- How many processes ensureSnapshot of cmd/server/snapshot.go starts.
use manta.Prelude.{ℕ, ◌+◌, ◌≡◌, refl, ◌∙◌, Bool, false, arith, inl, inr, Bool-cases}
use manta.Text.{Str}
use manta.Types.{Config, NetnsConfig}
use manta.Machine.{
  Op, Env, Error, Result, ok, err, World, Trace, M, pure, need, finally, continue, ◌>>=◌, ◌>>◌,
  start,
}
use manta.Machine.Trace.{count}
use manta.Machine.Counts.{Silent}
use manta.Machine.Silence.{is_process, silent_rules}
use manta.Process.{kill_process_group}
use manta.Agent.Silence.{wait-Silent}
use manta.Netns.Setup.{setup_netns}
use manta.Netns.Silence.{setup-Silent}
use manta.Sandbox.{wrapped, materialize_sandbox_rootfs}
use manta.Sandbox.Silence.{rootfs-Silent, renamed-Silent}
use manta.Sandbox.Processes.{is_started, started-IsOn}
use manta.Snapshot.{
  SnapshotPaths, kill_and_wait, take_snapshot, boot_golden, build_snapshot, write_snapshot_meta,
  remove_golden_netns,
}
use manta.Snapshot.Silence.{write_meta-Silent, remove_netns-Silent}

-- A success of the code starts `n` processes.
abbrev pub Booted {ℓ} : {A : Type ℓ} → ℕ → Result A → Trace → Trace → Type 0
Booted n (ok a) tr tr' = count is_started tr' ≡ count is_started tr + n
Booted n (err e) tr tr' = Unit {0}

pub record Boots (n : ℕ) {A : Type 0} (m : M A) : Type 0 where
  pub at : (w : World) → Booted n (m w).0 w.trace (m w).1.trace

pub Boots-Silent : {A : Type 0} (m : M A) → Silent is_started m → Boots 0 m
Boots-Silent {A} m s = record { at = λ w. same (m w).0 w (m w).1 (s.at w) }
  where
    same :
        (r : Result A) (w w' : World)
        → count is_started w'.trace ≡ count is_started w.trace
        → Booted 0 r w.trace w'.trace
    same (ok a) w w' h = omega arith
    same (err e) w w' h = tt

module _ {n : ℕ} where
  pub Boots-bind :
      {A B : Type 0} (m : M A) (k : A → M B)
      → Boots 0 m
      → ((a : A) → Boots n (k a))
      → Boots n (m >>= k)
  Boots-bind {A} {B} m k bm bk = record { at = λ w. next (m w).0 (m w).1 w (bm.at w) }
    where
      later :
          (s : Result B) (w w' w'' : World)
          → count is_started w'.trace ≡ count is_started w.trace + 0
          → Booted n s w'.trace w''.trace
          → Booted n s w.trace w''.trace
      later (ok b) w w' w'' h g = omega arith
      later (err e) w w' w'' h g = tt

      next :
          (r : Result A) (w' w : World)
          → Booted 0 r w.trace w'.trace
          → Booted n (continue r k w').0 w.trace (continue r k w').1.trace
      next (ok a) w' w h = later (k a w').0 w w' (k a w').1 h ((bk a).at w')
      next (err e) w' w h = tt

Boots-start :
    {A B : Type 0} (m : M A) (k : A → M B)
    → Boots 1 m
    → ((a : A) → Boots 0 (k a))
    → Boots 1 (m >>= k)
Boots-start {A} {B} m k bm bk = record { at = λ w. next (m w).0 (m w).1 w (bm.at w) }
  where
    later :
        (s : Result B) (w w' w'' : World)
        → count is_started w'.trace ≡ count is_started w.trace + 1
        → Booted 0 s w'.trace w''.trace
        → Booted 1 s w.trace w''.trace
    later (ok b) w w' w'' h g = omega arith
    later (err e) w w' w'' h g = tt

    next :
        (r : Result A) (w' w : World)
        → Booted 1 r w.trace w'.trace
        → Booted 1 (continue r k w').0 w.trace (continue r k w').1.trace
    next (ok a) w' w h = later (k a w').0 w w' (k a w').1 h ((bk a).at w')
    next (err e) w' w h = tt

Boots-finally :
    {A : Type 0} (n : ℕ) (c : M (Unit {0})) (m : M A)
    → Silent is_started c
    → Boots n m
    → Boots n (finally c m)
Boots-finally {A} n c m sc bm = record { at = λ w. same (m w).0 w (m w).1 (bm.at w) }
  where
    same :
        (r : Result A) (w w' : World)
        → Booted n r w.trace w'.trace
        → Booted n r w.trace (c w').1.trace
    same (ok a) w w' h = sc.at w' ∙ h
    same (err e) w w' h = tt

module _ (env : Env) where
  kill-Silent : (pid : ℕ) → Silent is_started (kill_and_wait env pid)
  unfolding kill_and_wait kill_process_group count
  kill-Silent pid = record { at = λ w. ground arith }

  call-Boots : (op : Op) (e : Error) → is_process op ≡ false → Boots 0 (need env op e)
  call-Boots op e h = Boots-Silent _ (search (silent_rules, started-IsOn) depth 8)

  start-Boots :
      (ns dir : Str) (config : Bool) (e : Error) → Boots 1 (need env (start ns dir config) e)
  unfolding count
  start-Boots ns dir config e = record {
    at = λ w. elim (Bool-cases (env.succeeds w.trace (start ns dir config))) [
      | inl t ↦ rw t (omega arith)
      | inr f ↦ rw f tt
    ];
  }

  end-Silent :
      (sp : SnapshotPaths) (pid : ℕ)
      → Silent is_started (kill_and_wait env pid >> write_snapshot_meta env sp)
  end-Silent sp pid = search (silent_rules, kill-Silent, write_meta-Silent env started-IsOn) depth 8

  take-Silent :
      (cfg : Config) (sp : SnapshotPaths) (pid : ℕ)
      → Silent is_started (take_snapshot env cfg sp pid)
  unfolding take_snapshot
  take-Silent cfg sp pid =
      search
        (
          silent_rules,
          started-IsOn,
          renamed-Silent env started-IsOn,
          wait-Silent env started-IsOn,
          end-Silent,
        )
        depth 25

  boot-Boots :
      (cfg : Config) (sp : SnapshotPaths) (nc : NetnsConfig) → Boots 1 (boot_golden env cfg sp nc)
  unfolding boot_golden
  boot-Boots cfg sp nc =
      search
        (
          Boots-bind, Boots-start, Boots-finally, Boots-Silent, silent_rules, started-IsOn,
          start-Boots, kill-Silent, take-Silent,
        )
        depth 20

  base_disk-Boots :
      (cfg : Config) (src dst : Str)
      → Boots 0 (wrapped Error.copy_base_disk (materialize_sandbox_rootfs env cfg src dst))
  base_disk-Boots cfg src dst = Boots-Silent _ (
      search (silent_rules, renamed-Silent env started-IsOn, rootfs-Silent env started-IsOn) depth
        10)

  setup-Boots :
      (id : Str) (subnet : ℕ)
      → Boots 0 (wrapped Error.setup_snapshot_netns (setup_netns env id subnet))
  setup-Boots id subnet = Boots-Silent _ (
      search (silent_rules, renamed-Silent env started-IsOn, setup-Silent env started-IsOn) depth
        10)

  netns-Boots :
      (cfg : Config) (sp : SnapshotPaths) (nc : NetnsConfig)
      → Boots 1 (finally (remove_golden_netns env nc) (boot_golden env cfg sp nc))
  netns-Boots cfg sp nc =
      Boots-finally 1 _ _ (remove_netns-Silent env started-IsOn nc) (boot-Boots cfg sp nc)

  pub build-Boots : (cfg : Config) (sp : SnapshotPaths) → Boots 1 (build_snapshot env cfg sp)
  unfolding build_snapshot
  build-Boots cfg sp = Boots-bind _ _ (call-Boots _ _ refl) (λ _.
      Boots-bind _ _ (base_disk-Boots cfg _ _) (λ _. Boots-bind _ _ (setup-Boots _ _) (λ nc.
        Boots-start _ _ (netns-Boots cfg sp nc)
          (λ _. Boots-Silent (pure sp) (search silent_rules)))))
