-- ===== src/Snapshot/Reuse.antt =====
-- When ensureSnapshot of cmd/server/snapshot.go takes the snapshot that is there.
use manta.Prelude.{◌≡◌, refl, ◌∙◌, ◌↔◌, Bool, true, false, arith, if◌then◌else◌, ap, subst}
use manta.Types.{Config}
use manta.Machine.{Env, Error, Result, ok, err, World, Trace, M, continue}
use manta.Machine.Trace.{count}
use manta.Sandbox.Processes.{is_started, started-IsOn}
use manta.Snapshot.Boots.{Booted, Boots, Boots-Silent, Boots-bind, build-Boots}
use manta.Snapshot.Silence.{artifacts-Silent, reset-Silent, validate-Silent}
use manta.Snapshot.{
  SnapshotPaths, snapshot_layout, validate_snapshot_meta, artifacts_exist, build_snapshot, rebuilt,
  reuse, ensure_snapshot,
}
use manta.Snapshot.Current.{
  seen, IsValid, IsCurrent, artifacts_all, artifacts-IsThere, validate-IsValid,
}

module _ (env : Env) (cfg : Config) where
  rebuild-Boots : (sp : SnapshotPaths) (e : Error) → Boots 1 (rebuilt env cfg sp (err e))
  rebuild-Boots sp e =
      Boots-bind _ _ (Boots-Silent _ (reset-Silent env started-IsOn sp))
        (λ _. build-Boots env cfg sp)

  -- The code that starts a process is not what succeeded without one.
  Boots-absurd :
      {A : Type 0} (m : M A) (a : A) (w w0 : World)
      → Boots 1 m
      → count is_started w.trace ≡ count is_started w0.trace
      → (m w).0 ≡ ok a
      → count is_started (m w).1.trace ≡ count is_started w0.trace
      → ⊥
  Boots-absurd {A} m a w w0 b before e after = started (m w).0 e (b.at w)
    where
      started : (r : Result A) → r ≡ ok a → Booted 1 r w.trace (m w).1.trace → ⊥
      started (ok x) e h = absurd (omega arith)
      started (err d) e h = cc

  -- What was there is current if the code succeeds and starts no process.
  reuse-IsValid :
      (sp sp' : SnapshotPaths) (w w0 : World)
      → count is_started w.trace ≡ count is_started w0.trace
      → (reuse env cfg sp w).0 ≡ ok sp'
      → count is_started (reuse env cfg sp w).1.trace ≡ count is_started w0.trace
      → IsValid env sp cfg w.trace
  reuse-IsValid sp sp' w w0 before e after =
      valid (validate_snapshot_meta env sp cfg w).0 refl e after
    where
      w' : World
      w' = (validate_snapshot_meta env sp cfg w).1

      valid :
          (r : Result (Unit {0}))
          → (validate_snapshot_meta env sp cfg w).0 ≡ r
          → (rebuilt env cfg sp r w').0 ≡ ok sp'
          → count is_started (rebuilt env cfg sp r w').1.trace ≡ count is_started w0.trace
          → IsValid env sp cfg w.trace
      valid (ok u) v e after = (validate-IsValid env cfg sp w).0 v
      valid (err d) v e after = absurd (
          Boots-absurd _ sp' w' w0 (rebuild-Boots sp d)
            ((validate-Silent env started-IsOn sp cfg).at w ∙ before) e after)

  ensure-IsCurrent :
      (sp' : SnapshotPaths) (w : World)
      → (ensure_snapshot env cfg w).0 ≡ ok sp'
      → count is_started (ensure_snapshot env cfg w).1.trace ≡ count is_started w.trace
      → IsCurrent env (snapshot_layout cfg.work_dir) cfg w.trace
  unfolding ensure_snapshot
  ensure-IsCurrent sp' w e after = current (artifacts_exist env sp w).0 refl e after
    where
      sp : SnapshotPaths
      sp = snapshot_layout cfg.work_dir

      w' : World
      w' = (artifacts_exist env sp w).1

      before : count is_started w'.trace ≡ count is_started w.trace
      before = (artifacts-Silent env started-IsOn sp).at w

      current :
          (r : Result Bool)
          → (artifacts_exist env sp w).0 ≡ r
          → (continue r (λ b. if b then reuse env cfg sp else build_snapshot env cfg sp) w').0
            ≡ ok sp'
          → count is_started
              (continue r
                (λ b. if b then reuse env cfg sp else build_snapshot env cfg sp)
                w').1.trace
            ≡ count is_started w.trace
          → IsCurrent env sp cfg w.trace
      current (ok true) r e after =
          let there = artifacts-IsThere env cfg sp w r in
          let same : w'.trace ≡ seen sp w.trace =
            ap (λ o. o.1.trace) (artifacts_all env cfg sp w there) in
          (there, subst (IsValid env sp cfg) same (reuse-IsValid sp sp' w' w before e after))
      current (ok false) r e after =
          absurd (Boots-absurd _ sp' w' w (build-Boots env cfg sp) before e after)
      current (err d) r e after = cc

seen-count : (sp : SnapshotPaths) (tr : Trace) → count is_started (seen sp tr) ≡ count is_started tr
unfolding count
seen-count sp tr = omega arith

-- ensureSnapshot succeeds without a start of Firecracker exactly when the three files are there and
-- the metadata can be read, has version 1 and, where a lineage is configured, that lineage.
pub ensure_snapshot-IsCurrent :
    (env : Env) (cfg : Config) (w : World)
    → (((ensure_snapshot env cfg w).0 ≡ ok (snapshot_layout cfg.work_dir))
        × (count is_started (ensure_snapshot env cfg w).1.trace ≡ count is_started w.trace))
      ↔ IsCurrent env (snapshot_layout cfg.work_dir) cfg w.trace
unfolding ensure_snapshot
ensure_snapshot-IsCurrent env cfg w = (
  λ (e, s). ensure-IsCurrent env cfg _ w e s,
  λ (there, valid).
      let reads = artifacts_all env cfg sp w there in
      let v = (validate-IsValid env cfg sp looked).1 valid in
      rw (reads, v)
        (refl, (validate-Silent env started-IsOn sp cfg).at looked ∙ seen-count sp w.trace),
)
  where
    sp : SnapshotPaths
    sp = snapshot_layout cfg.work_dir

    looked : World
    looked = record w { trace = seen sp w.trace }
