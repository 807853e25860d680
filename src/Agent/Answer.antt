-- ===== src/Agent/Answer.antt =====
-- waitForAgentReady of cmd/server/agent.go, for an agent that answers from some time on.
use manta.Prelude.{
  ℕ, zero, suc, ◌+◌, ◌*◌, ◌≤◌, Bool, true, false, Option, none, some, ◌∷◌, arith, ◌<◌, ◌≡◌, refl,
  lt→ltb,
}
use native.Mathlib.Decide.{dec_lt}
use native.Mathlib.Nat.{le_trans}
use manta.Prelude.Int.{ℤ, pos}
use manta.Text.{Str, is_empty}
use manta.Text.Trim.{trim_space}
use manta.Rpc.{Request, Response}
use manta.Machine.{
  Op, Env, Result, ok, err, World, M, ignore, ◌>>◌, dial_unix, send_connect, send, receive_line,
  receive, sleep, close_conn, Event, Trace,
}
use manta.Agent.{
  dial_agent, call, after_ping, after_dial, attempt, wait_loop, wait_for_agent_ready, deadline,
  rounds, retry_interval, ping_request, handshake, handshake_ok, accepted, valid_port,
}
use manta.Agent.Clock.{IsClock}
use manta.Agent.Haste.{IsPrompt, dial_agent-Costs, call-Costs}
use manta.Agent.Ready.{deadline-le, dial-Passes, call-Passes}

-- What a client of the agent asks of its connection.
abbrev pub is_talk : Op → Bool
is_talk (dial_unix _) = true
is_talk (send_connect _) = true
is_talk (send _ _) = true
is_talk (receive_line _) = true
is_talk (receive _) = true
is_talk _ = false

abbrev pub Greets : Env → Option Str → Type 0
Greets env none = ⊥
Greets env (some line) = handshake_ok env line ≡ true

abbrev pub IsWell : Option Response → Type 0
IsWell none = ⊥
IsWell (some resp) = resp.ok ≡ true

-- From the time `since` on the agent takes connections and replies that it is well.
pub record IsUp (env : Env) (since : ℕ) : Type 0 where
  pub listens :
      (tr : Trace) (op : Op) → is_talk op ≡ true → since ≤ env.now tr → env.succeeds tr op ≡ true
  pub greets : (tr : Trace) → since ≤ env.now tr → Greets env (env.line tr)
  pub replies : (tr : Trace) → since ≤ env.now tr → IsWell (env.response tr)

abbrev did : Op → Event
did op = record { op = op; done = true }

module _ {env : Env} {since : ℕ} (clock : IsClock env) (up : IsUp env since) where
  later : (tr : Trace) (op : Op) → since ≤ env.now tr → since ≤ env.now (did op ∷ tr)
  later tr op h = le_trans h (clock.forward tr _)

  handshake-Greets :
      (c : ℕ) (line : Option Str) (w : World) → Greets env line → (handshake env c line w).0 ≡ ok c
  handshake-Greets c none w g = absurd g
  handshake-Greets c (some line) w g = rw g refl

  dial_agent-Greets :
      (uds : Str) (port timeout : ℤ) (w : World)
      → is_empty (trim_space uds) ≡ false
      → valid_port port ≡ true
      → since ≤ env.now w.trace
      → (dial_agent env uds port timeout w).0 ≡ ok (env.conn (did (dial_unix uds) ∷ w.trace))
  unfolding dial_agent
  dial_agent-Greets uds port timeout w named valid h =
      let h1 = later w.trace (dial_unix uds) h in
      let c = env.conn (did (dial_unix uds) ∷ w.trace) in
      let h2 = later _ (send_connect c) h1 in
      let h3 = later _ (receive_line c) h2 in
      rw
        (
          named,
          valid,
          up.listens _ (dial_unix uds) refl h,
          up.listens _ (send_connect c) refl h1,
          up.listens _ (receive_line c) refl h2,
        )
        (handshake-Greets c _ _ (up.greets _ h3))

  accepted-IsWell :
      (resp : Option Response) (w : World)
      → IsWell resp
      → (r : Response) × (accepted env resp w).0 ≡ ok r
  accepted-IsWell none w h = absurd h
  accepted-IsWell (some resp) w h = (resp, rw h refl)

  call-IsWell :
      (c : ℕ) (req : Request) (w : World)
      → since ≤ env.now w.trace
      → (r : Response) × (call env c req w).0 ≡ ok r
  unfolding call
  call-IsWell c req w h =
      let h1 = later w.trace (send c req) h in
      let h2 = later _ (receive c) h1 in
      rw (up.listens _ (send c req) refl h, up.listens _ (receive c) refl h1)
        (accepted-IsWell _ _ (up.replies _ h2))

  module _ {slack : ℕ} (prompt : IsPrompt env slack) where
    -- A round that fails lasts so long at most.
    abbrev round_time : ℕ
    round_time = retry_interval + 8 * slack

    -- The outcome is a connection, a round after `by` at the latest.
    abbrev pub Connects : ℕ → Result ℕ × World → Type 0
    Connects by o = (c : ℕ) × o.0 ≡ ok c × env.now o.1.trace ≤ by + 6 * slack

    -- The rest connects when a failed round that began at `t` hands over to it in time.
    abbrev Goes : ℕ → ℕ → M ℕ → Type 0
    Goes by t rest =
        (v : World)
        → t + retry_interval ≤ env.now v.trace
        → env.now v.trace ≤ t + round_time
        → Connects by (rest v)

    pause-Connects :
        (by t : ℕ) (rest : M ℕ) (w : World)
        → t ≤ env.now w.trace
        → env.now w.trace ≤ t + 7 * slack
        → Goes by t rest
        → Connects by ((ignore env (sleep retry_interval) >> rest) w)
    pause-Connects by t rest w h h' go =
        go _
          (omega (
            arith,
            clock.sleeps w.trace retry_interval (env.succeeds w.trace (sleep retry_interval)),
          ))
          (omega (
            arith,
            prompt.within w.trace (record {
              op = sleep retry_interval;
              done = env.succeeds w.trace (sleep retry_interval);
            }),
          ))

    after_ping-Connects :
        (by t c : ℕ) (rest : M ℕ) (r : Result Response) (w : World)
        → t ≤ env.now w.trace
        → env.now w.trace ≤ t + 6 * slack
        → t ≤ by
        → Goes by t rest
        → Connects by (after_ping env c rest r w)
    after_ping-Connects by t c rest (ok resp) w h h' b go = (c, refl, omega arith)
    after_ping-Connects by t c rest (err e) w h h' b go =
        pause-Connects by t rest _ (omega (arith, clock.forward w.trace _))
          (omega (
            arith,
            prompt.within w.trace
                (record { op = close_conn c; done = env.succeeds w.trace (close_conn c) }),
          ))
          go

    after_dial-Connects :
        (by t : ℕ) (rest : M ℕ) (r : Result ℕ) (w : World)
        → t ≤ env.now w.trace
        → env.now w.trace ≤ t + 4 * slack
        → t ≤ by
        → Goes by t rest
        → Connects by (after_dial env rest r w)
    after_dial-Connects by t rest (ok c) w h h' b go =
        after_ping-Connects by t c rest _ _ (omega (arith, (call-Passes clock c ping_request).at w))
          (omega (arith, (call-Costs prompt c ping_request).at w)) b go
    after_dial-Connects by t rest (err e) w h h' b go =
        pause-Connects by t rest w h (omega arith) go

    module _ (uds : Str) (port dial_timeout : ℤ) (named : is_empty (trim_space uds) ≡ false)
        (valid : valid_port port ≡ true) where
      -- A round that begins when the agent is up returns its connection.
      attempt-Connects :
          (by : ℕ) (rest : M ℕ) (w : World)
          → since ≤ env.now w.trace
          → env.now w.trace ≤ by
          → Connects by (attempt env uds port dial_timeout rest w)
      attempt-Connects by rest w h b =
          let w' = (dial_agent env uds port dial_timeout w).1 in
          let c = env.conn (did (dial_unix uds) ∷ w.trace) in
          let passes = (dial-Passes clock uds port dial_timeout).at w in
          let costs = (dial_agent-Costs prompt uds port dial_timeout).at w in
          let costs' = (call-Costs prompt c ping_request).at w' in
          let pong = call-IsWell c ping_request w' (omega arith) in
          rw (dial_agent-Greets uds port dial_timeout w named valid h, pong.1)
            (c, refl, omega arith)

      loop-Connects :
          (by until fuel : ℕ) (w : World)
          → env.now w.trace ≤ by
          → since + round_time ≤ by
          → by < until
          → until ≤ env.now w.trace + fuel * retry_interval
          → Connects by (wait_loop env uds port dial_timeout until fuel w)
      unfolding wait_loop
      loop-Connects by until zero w early up_by room enough = absurd (omega arith)
      loop-Connects by until (suc fuel) w early up_by room enough =
          let rest = wait_loop env uds port dial_timeout until fuel in
          let before : env.now w.trace < until = omega arith in
          rw (lt→ltb _ _ before) (elim (dec_lt (env.now w.trace) since) [
            | no le ↦ attempt-Connects by rest w (omega arith) early
            | yes lt ↦
                let (r, w') = dial_agent env uds port dial_timeout w in
                after_dial-Connects by (env.now w.trace) rest r w'
                  ((dial-Passes clock uds port dial_timeout).at w)
                  ((dial_agent-Costs prompt uds port dial_timeout).at w) early
                  (λ v h h'. loop-Connects by until fuel v (omega arith) up_by room (omega arith))
          ])

      -- The wait for an agent that takes connections from the time `since` on ends with a
      -- connection, where every call takes `slack` at most beside what a sleep is asked for, and
      -- the deadline is later than a time `by` that is not before the wait begins, and by a whole
      -- round not before `since`. The connection is there six calls after `by` at the latest.
      pub wait_for_agent_ready-Connects :
          (by timeout : ℕ) (w : World)
          → env.now w.trace ≤ by
          → since + round_time ≤ by
          → by < env.now w.trace + timeout
          → Connects by (wait_for_agent_ready env uds port (pos timeout) dial_timeout w)
      unfolding wait_for_agent_ready
      wait_for_agent_ready-Connects by timeout w early up_by room =
          loop-Connects by (deadline (env.now w.trace) (pos timeout)) (rounds (pos timeout)) w early
            up_by room (deadline-le clock (env.now w.trace) (pos timeout))
