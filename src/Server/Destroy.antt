-- ===== src/Server/Destroy.antt =====
-- The destruction of a running sandbox ends its process.
use manta.Prelude.{
  ℕ, ◌+◌, ◌≡◌, refl, ap, sym, subst, Bool, true, false, Option, none, some, arith, if◌then◌else◌,
}
use manta.Text.{Str, is_empty}
use manta.Text.Trim.{trim_space}
use manta.Types.{Sandbox, running, closing}
use manta.Machine.{Env, Error, Result, ok, err, World, M, pure}
use manta.Machine.Trace.{count}
use manta.Machine.Counts.{Silent}
use manta.Machine.Silence.{silent_rules, Silent-bind}
use manta.Machine.Debt.{Settles, Neutral}
use manta.Lifecycle.{begin_destroy, is_running}
use manta.Lifecycle.Drain.{
  Rounds, IsTimed, wait_for_exec_drain, wait_for_exec_drain-Explained, drain_timeout, Explained,
}
use manta.Sandbox.Processes.{process, is_started, is_kill_of, Silent-process-Neutral}
use manta.Sandbox.Cleanup.{cleanup_sandbox}
use manta.Sandbox.Cleanup.Kills.{
  Total, Settles-late, Settles-early, cleanup-Settles, cleanup-Silent,
}
use manta.Server.{drain, drained, destroy_begun, destroy_found, handle_destroy, set_sandboxes}
use manta.Server.Registry.{lookup, delete}

-- The loop of the drain ends, so the removal of the sandbox follows.
drain-Total : (r : Rounds) → IsTimed r → Total (drain r)
unfolding drain
drain-Total r timed = record {
  at = λ w. ended w _ (wait_for_exec_drain-Explained r timed drain_timeout);
}
  where
    ended :
        (w : World) (o : Option Bool)
        → Explained r (r.begins + drain_timeout) o
        → (u : Unit {0}) × ((drained o w).0 ≡ ok u)
    ended w none e = absurd e
    ended w (some b) e = (tt, refl)

drained-Silent : {p : manta.Machine.Op → Bool → Bool} (o : Option Bool) → Silent p (drained o)
drained-Silent none = search silent_rules
drained-Silent (some b) = search silent_rules

drain-Neutral : (n : ℕ) (r : Rounds) → Neutral (process n) (drain r)
unfolding drain
drain-Neutral n r =
    Silent-process-Neutral n _ (λ p on. drained-Silent (wait_for_exec_drain r drain_timeout))

begins :
    (sb : Sandbox) → sb.state ≡ running → begin_destroy sb ≡ (record sb { state = closing }, true)
unfolding begin_destroy
begins sb e =
    ap (λ s. if is_running s then (record sb { state = closing }, true) else (sb, false)) e

module _ (env : Env) (r : Rounds) (timed : IsTimed r) where
  begun-Settles :
      (sb : Sandbox) (pid : ℕ)
      → sb.process ≡ some pid
      → Settles (process pid) (destroy_begun env r (sb, true))
  begun-Settles sb pid e =
      Settles-late (drain r) _ (drain-Total r timed) (drain-Neutral pid r) (λ _.
        Settles-early _ _ (cleanup-Settles env pid sb e)
          (λ _. Silent-process-Neutral pid _ (λ p on. search (silent_rules, on) depth 8)))

  found-Settles :
      (sb : Sandbox) (pid : ℕ)
      → sb.state ≡ running
      → sb.process ≡ some pid
      → Settles (process pid) (destroy_found env r (some sb))
  found-Settles sb pid state e =
      Settles-early (destroy_begun env r (begin_destroy sb)) _
        (subst (λ b. Settles (process pid) (destroy_begun env r b)) (sym (begins sb state))
          (begun-Settles (record sb { state = closing }) pid e))
        (λ _. Silent-process-Neutral pid _ (λ p on. search (silent_rules, on) depth 8))

  begun-Silent : (b : Sandbox × Bool) → Silent is_started (destroy_begun env r b)
  begun-Silent (sb, false) = search silent_rules
  begun-Silent (sb, true) = Silent-bind (drain r) _ (drain-Neutral 0 r).no_takes (λ _.
      Silent-bind (cleanup_sandbox env sb) _ (cleanup-Silent env 0 sb)
        (λ c. record { at = λ w. refl }))

  found-Silent : (sb : Sandbox) → Silent is_started (destroy_found env r (some sb))
  found-Silent sb = search (silent_rules, begun-Silent) depth 8

-- The destruction of a running sandbox of the map that has a process starts no Firecracker and calls
-- for the kill of the process's group exactly once, whichever calls fail, and also where commands
-- are still running at the end of the drain.
pub handle_destroy_kills :
    (env : Env) (r : Rounds) (id : Str) (sb : Sandbox) (pid : ℕ) (w : World)
    → IsTimed r
    → is_empty (trim_space id) ≡ false
    → lookup id w.server.sandboxes ≡ some sb
    → sb.state ≡ running
    → sb.process ≡ some pid
    → let w' = (handle_destroy env r (some id) w).1 in
      (count is_started w'.trace ≡ count is_started w.trace)
      × (count (is_kill_of pid) w'.trace ≡ count (is_kill_of pid) w.trace + 1)
unfolding handle_destroy
handle_destroy_kills env r id sb pid w timed named found state e =
    let w1 = record w { server = set_sandboxes (delete id) w.server } in
    let starts = (found-Silent env r timed sb).at w1 in
    let owes = (found-Settles env r timed sb pid state e).at w1 in
    rw (named, found) (starts, omega (arith, starts, owes))
