-- ===== src/Agent/Ready.antt =====
-- The wait for the agent ends, and what it returns when it does.
use manta.Prelude.{
  ℕ, zero, suc, ◌+◌, ◌*◌, ◌≤◌, Option, none, some, arith, ltb, inl, inr, Bool-cases,
}
use manta.Prelude.Int.{ℤ, pos, negsuc}
use manta.Text.{Str}
use manta.Rpc.{Request, Response}
use manta.Machine.{Env, Result, ok, err, World, M, out_of_fuel, ignore, ◌>>◌, sleep}
use manta.Agent.{
  dial_agent, call, after_ping, after_dial, wait_loop, wait_for_agent_ready, deadline, rounds,
  retry_interval, ping_request, handshake, accepted,
}
use manta.Agent.Clock.{IsClock, Passes, passes_rules}

-- The loop's fuel has not run out.
abbrev pub Returns {ℓ} : {A : Type ℓ} → Result A → Type 0
Returns (ok a) = Unit {0}
Returns (err out_of_fuel) = ⊥
Returns (err _) = Unit {0}

module _ {env : Env} (clock : IsClock env) where
  handshake-Passes : (c : ℕ) (line : Option Str) → Passes env (handshake env c line)
  handshake-Passes c none = search (passes_rules, clock) depth 15
  handshake-Passes c (some line) = search (passes_rules, clock) depth 15

  pub dial-Passes : (uds : Str) (port timeout : ℤ) → Passes env (dial_agent env uds port timeout)
  unfolding dial_agent
  dial-Passes uds port timeout = search (passes_rules, clock, handshake-Passes) depth 20

  accepted-Passes : (resp : Option Response) → Passes env (accepted env resp)
  accepted-Passes none = search passes_rules
  accepted-Passes (some resp) = search passes_rules

  pub call-Passes : (c : ℕ) (req : Request) → Passes env (call env c req)
  unfolding call
  call-Passes c req = search (passes_rules, clock, accepted-Passes) depth 15

  -- A round that does not return goes on with the rest after `retry_interval` at least.
  abbrev Goes : ℕ → M ℕ → World → Type 0
  Goes t rest w = (v : World) → t + retry_interval ≤ env.now v.trace → Returns (rest v).0

  pause-Returns :
      (t : ℕ) (rest : M ℕ) (w : World)
      → t ≤ env.now w.trace
      → Goes t rest w
      → Returns ((ignore env (sleep retry_interval) >> rest) w).0
  pause-Returns t rest w h go = go _ (
      omega
        (arith, clock.sleeps w.trace retry_interval (env.succeeds w.trace (sleep retry_interval))))

  after_ping-Returns :
      (t c : ℕ) (rest : M ℕ) (r : Result Response) (w : World)
      → t ≤ env.now w.trace
      → Goes t rest w
      → Returns (after_ping env c rest r w).0
  after_ping-Returns t c rest (ok resp) w h go = tt
  after_ping-Returns t c rest (err e) w h go =
      pause-Returns t rest _ (omega (arith, clock.forward w.trace _)) go

  after_dial-Returns :
      (t : ℕ) (rest : M ℕ) (r : Result ℕ) (w : World)
      → t ≤ env.now w.trace
      → Goes t rest w
      → Returns (after_dial env rest r w).0
  after_dial-Returns t rest (ok c) w h go =
      after_ping-Returns t c rest _ _ (omega (arith, (call-Passes c ping_request).at w)) go
  after_dial-Returns t rest (err e) w h go = pause-Returns t rest w h go

  loop-Returns :
      (uds : Str) (port dial_timeout : ℤ) (until fuel : ℕ) (w : World)
      → until ≤ env.now w.trace + fuel * retry_interval
      → Returns (wait_loop env uds port dial_timeout until fuel w).0
  unfolding wait_loop
  loop-Returns uds port dt until zero w enough = elim (Bool-cases (ltb (env.now w.trace) until)) [
    | inl early ↦ absurd (ground arith)
    | inr late ↦ rw late tt
  ]
  loop-Returns uds port dt until (suc fuel) w enough =
      elim (Bool-cases (ltb (env.now w.trace) until)) [
        | inl early ↦ rw early (
            after_dial-Returns (env.now w.trace) (wait_loop env uds port dt until fuel)
              (dial_agent env uds port dt w).0 (dial_agent env uds port dt w).1
              ((dial-Passes uds port dt).at w)
              (λ v h. loop-Returns uds port dt until fuel v (omega arith)))
        | inr late ↦ rw late tt
      ]

  pub deadline-le :
      (now : ℕ) (timeout : ℤ) → deadline now timeout ≤ now + rounds timeout * retry_interval
  deadline-le now (pos n) = omega arith
  deadline-le now (negsuc n) = omega arith

  -- If time goes on as `time.Now` and `time.Sleep` promise, the wait for the agent ends: the rounds
  -- that fit into the timeout suffice, also for a timeout that is not positive.
  pub wait_for_agent_ready-Returns :
      (uds : Str) (port timeout dial_timeout : ℤ) (w : World)
      → Returns (wait_for_agent_ready env uds port timeout dial_timeout w).0
  unfolding wait_for_agent_ready
  wait_for_agent_ready-Returns uds port timeout dial_timeout w =
      loop-Returns uds port dial_timeout (deadline (env.now w.trace) timeout) (rounds timeout) w
        (deadline-le (env.now w.trace) timeout)
