-- ===== src/Agent/Keeps.antt =====
-- The connection to the agent changes nothing of the server.
use manta.Prelude.{ℕ, zero, suc, Option, none, some}
use manta.Prelude.Int.{ℤ}
use manta.Text.{Str}
use manta.Rpc.{Request, Response}
use manta.Machine.{Env, Result, ok, err, M}
use manta.Machine.Keeps.{Keeps}
use manta.Machine.Keeps.{Keeps-raise, keeps_rules}
use manta.Agent.{
  dial_agent, call, after_ping, after_dial, wait_loop, wait_for_agent_ready, handshake, accepted,
  attempt, until_deadline,
}

module _ (env : Env) where
  handshake-Keeps : (c : ℕ) (line : Option Str) → Keeps (handshake env c line)
  handshake-Keeps c none = search keeps_rules depth 15
  handshake-Keeps c (some line) = search keeps_rules depth 15

  pub dial-Keeps : (uds : Str) (port timeout : ℤ) → Keeps (dial_agent env uds port timeout)
  unfolding dial_agent
  dial-Keeps uds port timeout = search (keeps_rules, handshake-Keeps) depth 20

  accepted-Keeps : (resp : Option Response) → Keeps (accepted env resp)
  accepted-Keeps none = search keeps_rules
  accepted-Keeps (some resp) = search keeps_rules

  pub call-Keeps : (c : ℕ) (req : Request) → Keeps (call env c req)
  unfolding call
  call-Keeps c req = search (keeps_rules, accepted-Keeps) depth 15

  after_ping-Keeps :
      (c : ℕ) (rest : M ℕ) (r : Result Response) → Keeps rest → Keeps (after_ping env c rest r)
  after_ping-Keeps c rest (ok resp) h = search keeps_rules
  after_ping-Keeps c rest (err e) h = search keeps_rules depth 10

  after_dial-Keeps : (rest : M ℕ) (r : Result ℕ) → Keeps rest → Keeps (after_dial env rest r)
  after_dial-Keeps rest (ok c) h = search (keeps_rules, call-Keeps, after_ping-Keeps) depth 10
  after_dial-Keeps rest (err e) h = search keeps_rules depth 10

  attempt-Keeps :
      (uds : Str) (port timeout : ℤ) (rest : M ℕ)
      → Keeps rest
      → Keeps (attempt env uds port timeout rest)
  attempt-Keeps uds port timeout rest h =
      search (keeps_rules, dial-Keeps, after_dial-Keeps) depth 10

  until-Keeps : (until : ℕ) (m : M ℕ) → Keeps m → Keeps (until_deadline env until m)
  until-Keeps until m h = search keeps_rules depth 10

  loop-Keeps :
      (uds : Str) (port timeout : ℤ) (until fuel : ℕ)
      → Keeps (wait_loop env uds port timeout until fuel)
  unfolding wait_loop
  loop-Keeps uds port timeout until zero = until-Keeps until _ (Keeps-raise _)
  loop-Keeps uds port timeout until (suc fuel) =
      until-Keeps until (attempt env uds port timeout (wait_loop env uds port timeout until fuel)) (
        attempt-Keeps uds port timeout (wait_loop env uds port timeout until fuel)
          (loop-Keeps uds port timeout until fuel))

  pub wait-Keeps :
      (uds : Str) (port timeout dial_timeout : ℤ)
      → Keeps (wait_for_agent_ready env uds port timeout dial_timeout)
  unfolding wait_for_agent_ready
  wait-Keeps uds port timeout dial_timeout = search (keeps_rules, loop-Keeps) depth 10
