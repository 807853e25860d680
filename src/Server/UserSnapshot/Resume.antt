-- ===== src/Server/UserSnapshot/Resume.antt =====
-- A user snapshot pauses the machine of a sandbox that goes on running afterwards.
use manta.Prelude.{ℕ, ◌+◌, ◌≤◌, ◌≡◌, Bool, true, false, Option, none, some, arith}
use manta.Text.{Str}
use manta.Types.{Config, Sandbox, UserSnapshotMeta}
use manta.Machine.{
  Op, Env, Error, Result, ok, err, World, M, on_error, clean_up, continue, ignore, observe, ◌>>=◌,
  resume_vm, pause_vm, resume_vm_failed, pause_vm_failed, create_user_snapshot_dir,
}
use manta.Machine.Trace.{count}
use manta.Machine.Counts.{Counts, cost, counts_rules}
use manta.Sandbox.{materialize_sandbox_rootfs}
use manta.Server.{modify_sandbox}
use manta.Server.Exec.{set_agent}
use manta.Server.UserSnapshot.{
  close_agent, persist_disk, resume_with, capture, write_user_snapshot_meta, create_user_snapshot,
}

abbrev pub is_resumed : Op → Bool → Bool
is_resumed (resume_vm socket) done = true
is_resumed _ done = false

abbrev pub is_paused : Op → Bool → Bool
is_paused (pause_vm socket) done = done
is_paused _ done = false

-- The resumption that fails has been called too.
abbrev resumes_of : Error → ℕ
resumes_of resume_vm_failed = 1
resumes_of _ = 0

-- The failures before the machine is paused, and the failed pause itself, need no resumption.
abbrev pub reaches : Error → ℕ
reaches create_user_snapshot_dir = 0
reaches pause_vm_failed = 0
reaches _ = 1

-- At least one call for the resumption, unless the machine was not paused.
record Resumes {A : Type 0} (m : M A) : Type 0 where
  at :
      (w : World)
      → count is_resumed w.trace + cost reaches 1 (m w).0 ≤ count is_resumed (m w).1.trace

Resumes-bind :
    {A B : Type 0} (m : M A) (k : A → M B)
    → Counts is_resumed reaches 0 m
    → ((a : A) → Resumes (k a))
    → Resumes (m >>= k)
Resumes-bind {A} {B} m k cm rk = record { at = λ w. next (m w).0 (m w).1 w (cm.at w) }
  where
    next :
        (r : Result A) (w' w : World)
        → count is_resumed w'.trace ≡ count is_resumed w.trace + cost reaches 0 r
        → count is_resumed w.trace + cost reaches 1 (continue r k w').0
          ≤ count is_resumed (continue r k w').1.trace
    next (ok a) w' w h = omega (arith, (rk a).at w', h)
    next (err e) w' w h = omega (arith, h)

reaches_one : (e : Error) → reaches e ≤ 1
reaches_one e = ground arith

module _ (env : Env) where
  last-Counts :
      (sb : Sandbox) (meta : UserSnapshotMeta)
      → Counts is_resumed resumes_of 1 (resume_with env sb meta)
  unfolding resume_with count
  last-Counts sb meta = record { at = λ w. ground arith }

  disk-Counts :
      (cfg : Config) (src dst : Str) → Counts is_resumed resumes_of 0 (persist_disk env cfg src dst)
  unfolding persist_disk materialize_sandbox_rootfs count
  disk-Counts cfg src dst = record { at = λ w. ground arith }

  write-Counts :
      (cfg : Config) (id : Str)
      → Counts is_resumed resumes_of 0 (write_user_snapshot_meta env cfg id)
  unfolding write_user_snapshot_meta
  write-Counts cfg id = search counts_rules depth 12

  observe-Counts : Counts is_resumed resumes_of 0 (observe env.timestamp)
  observe-Counts = record { at = λ w. omega arith }

  capture-Counts :
      (cfg : Config) (sb : Sandbox) (id name : Str)
      → Counts is_resumed resumes_of 1 (capture env cfg sb id name)
  unfolding capture
  capture-Counts cfg sb id name =
      search (counts_rules, last-Counts, disk-Counts, write-Counts, observe-Counts) depth 20

  -- The deferred resumption covers every failure once the machine is paused.
  guarded-Resumes :
      (cfg : Config) (sb : Sandbox) (id name socket : Str)
      → Resumes (on_error (ignore env (resume_vm socket)) (capture env cfg sb id name))
  unfolding count
  guarded-Resumes cfg sb id name socket = record {
    at = λ w.
        resumed (capture env cfg sb id name w).0 (capture env cfg sb id name w).1 w
          ((capture-Counts cfg sb id name).at w);
  }
    where
      resumed :
          (r : Result UserSnapshotMeta) (w' w : World)
          → count is_resumed w'.trace ≡ count is_resumed w.trace + cost resumes_of 1 r
          → count is_resumed w.trace
              + cost reaches 1 (clean_up r (ignore env (resume_vm socket)) w').0
            ≤ count is_resumed (clean_up r (ignore env (resume_vm socket)) w').1.trace
      resumed (ok a) w' w h = omega (arith, h)
      resumed (err e) w' w h = omega (arith, h, reaches_one e)

  close-Counts : (c : Option ℕ) → Counts is_resumed reaches 0 (close_agent env c)
  unfolding count
  close-Counts none = record { at = λ w. omega arith }
  close-Counts (some c) = record { at = λ w. ground arith }

  modify-Counts : (key : Str) → Counts is_resumed reaches 0 (modify_sandbox key (set_agent none))
  unfolding modify_sandbox
  modify-Counts key = record { at = λ w. omega arith }

  create-Resumes :
      (cfg : Config) (key : Str) (sb : Sandbox) (id name : Str)
      → Resumes (create_user_snapshot env cfg key sb id name)
  unfolding create_user_snapshot
  create-Resumes cfg key sb id name =
      search (Resumes-bind, counts_rules, close-Counts, modify-Counts, guarded-Resumes) depth 12

-- A user snapshot calls for the machine to be resumed, whatever fails, unless it failed before the
-- pause or at it.
pub create_user_snapshot_resumes :
    (env : Env) (cfg : Config) (key : Str) (sb : Sandbox) (id name : Str) (w : World)
    → count is_resumed w.trace + cost reaches 1 (create_user_snapshot env cfg key sb id name w).0
      ≤ count is_resumed (create_user_snapshot env cfg key sb id name w).1.trace
create_user_snapshot_resumes env cfg key sb id name w = (create-Resumes env cfg key sb id name).at w
