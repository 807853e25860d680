-- ===== src/Agent/Silence.antt =====
-- The connection to the agent starts and kills no process.
use manta.Prelude.{ℕ, zero, suc, Bool, Option, none, some}
use manta.Prelude.Int.{ℤ}
use manta.Text.{Str}
use manta.Rpc.{Request, Response}
use manta.Machine.{Op, Env, Result, ok, err, M}
use manta.Machine.Counts.{Silent}
use manta.Machine.Silence.{IsOnProcesses, Silent-raise, silent_rules}
use manta.Agent.{
  dial_agent, call, after_ping, after_dial, wait_loop, wait_for_agent_ready, handshake, accepted,
  attempt, until_deadline,
}

module _ (env : Env) {p : Op → Bool → Bool} (on : IsOnProcesses p) where
  handshake-Silent : (c : ℕ) (line : Option Str) → Silent p (handshake env c line)
  handshake-Silent c none = search (silent_rules, on) depth 15
  handshake-Silent c (some line) = search (silent_rules, on) depth 15

  dial-Silent : (uds : Str) (port timeout : ℤ) → Silent p (dial_agent env uds port timeout)
  unfolding dial_agent
  dial-Silent uds port timeout = search (silent_rules, on, handshake-Silent) depth 20

  accepted-Silent : (resp : Option Response) → Silent p (accepted env resp)
  accepted-Silent none = search silent_rules
  accepted-Silent (some resp) = search silent_rules

  pub call-Silent : (c : ℕ) (req : Request) → Silent p (call env c req)
  unfolding call
  call-Silent c req = search (silent_rules, on, accepted-Silent) depth 15

  after_ping-Silent :
      (c : ℕ) (rest : M ℕ) (r : Result Response)
      → Silent p rest
      → Silent p (after_ping env c rest r)
  after_ping-Silent c rest (ok resp) h = search silent_rules
  after_ping-Silent c rest (err e) h = search (silent_rules, on) depth 10

  after_dial-Silent : (rest : M ℕ) (r : Result ℕ) → Silent p rest → Silent p (after_dial env rest r)
  after_dial-Silent rest (ok c) h = search (silent_rules, call-Silent, after_ping-Silent) depth 10
  after_dial-Silent rest (err e) h = search (silent_rules, on) depth 10

  attempt-Silent :
      (uds : Str) (port timeout : ℤ) (rest : M ℕ)
      → Silent p rest
      → Silent p (attempt env uds port timeout rest)
  attempt-Silent uds port timeout rest h =
      search (silent_rules, dial-Silent, after_dial-Silent) depth 10

  until-Silent : (until : ℕ) (m : M ℕ) → Silent p m → Silent p (until_deadline env until m)
  until-Silent until m h = search silent_rules depth 10

  loop-Silent :
      (uds : Str) (port timeout : ℤ) (until fuel : ℕ)
      → Silent p (wait_loop env uds port timeout until fuel)
  unfolding wait_loop
  loop-Silent uds port timeout until zero = until-Silent until _ (Silent-raise _)
  loop-Silent uds port timeout until (suc fuel) =
      until-Silent until (attempt env uds port timeout (wait_loop env uds port timeout until fuel))
        (attempt-Silent uds port timeout (wait_loop env uds port timeout until fuel)
          (loop-Silent uds port timeout until fuel))

  pub wait-Silent :
      (uds : Str) (port timeout dial_timeout : ℤ)
      → Silent p (wait_for_agent_ready env uds port timeout dial_timeout)
  unfolding wait_for_agent_ready
  wait-Silent uds port timeout dial_timeout = search (silent_rules, loop-Silent) depth 10
