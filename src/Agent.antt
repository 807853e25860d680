-- ===== src/Agent.antt =====
-- cmd/server/agent.go: the host's connection to the agent in a guest. A deadline on a connection is
-- not modelled: that a read or write fails, for whatever cause, is the world's answer.
pub mod Clock
pub mod Haste
pub mod Ready
pub mod Answer
pub mod Silence
pub mod Keeps
use manta.Prelude.{
  ℕ, zero, suc, ◌+◌, ◌-◌, ◌/◌, Bool, true, false, Option, none, some, ltb, leb, not, ◌&&◌, ◌||◌,
  if◌then◌else◌,
}
use manta.Prelude.Int.{ℤ, pos, negsuc, pos_or}
use manta.Text.{Str, lit, is_empty, str_eq, has_prefix}
use manta.Text.Trim.{trim_space}
use manta.Rpc.{Request, Response}
use manta.Machine.{
  Env, Error, Result, ok, err, World, M, pure, raise, check, try, need, ignore, observe, catch,
  ◌>>=◌, ◌>>◌, dial_unix, send_connect, send, receive_line, receive, close_conn, sleep, Event,
}

-- port > 0 and port <= 65535
abbrev pub valid_port : ℤ → Bool
valid_port (pos n) = ltb 0 n && leb n 65535
valid_port (negsuc n) = false

abbrev pub ping_request : Request
ping_request = record { kind = lit "ping"; exec = none; net = none }

-- time.Now().Add(timeout); a time before the start of the clock is as good as its start.
abbrev pub deadline : ℕ → ℤ → ℕ
deadline now (pos n) = now + n
deadline now (negsuc n) = now - suc n

-- 10 * time.Millisecond
abbrev pub retry_interval : ℕ
retry_interval = 10000000

-- The rounds of a loop that waits `retry_interval` in each and ends at a deadline.
abbrev pub rounds : ℤ → ℕ
rounds (pos n) = n / retry_interval + 1
rounds (negsuc n) = 0

module _ (env : Env) where
  -- The reply to CONNECT; a failed one closes the connection.
  abbrev pub handshake_ok : Str → Bool
  handshake_ok line = has_prefix line (lit "OK ") || str_eq (trim_space line) (lit "OK")

  abbrev pub close_and_raise : ℕ → Error → M ℕ
  close_and_raise c e = do ignore env (close_conn c); raise e

  abbrev pub handshake : ℕ → Option Str → M ℕ
  handshake c none = close_and_raise c Error.agent_read
  handshake c (some line) =
      if handshake_ok line then pure c else close_and_raise c Error.connect_refused

  -- A line or message that a connection delivers, if the read succeeds.
  abbrev pub read_line : ℕ → M (Option Str)
  read_line c = do
    done ← try env (receive_line c)
    line ← observe env.line
    if done then pure line else pure none

  unfoldable pub dial_agent : Str → ℤ → ℤ → M ℕ
  dial_agent uds_path port timeout = do
    check (not (is_empty (trim_space uds_path))) Error.uds_path_empty
    check (valid_port port) Error.invalid_agent_port
    need env (dial_unix uds_path) Error.agent_dial
    c ← observe env.conn
    sent ← try env (send_connect c)
    let greet = (do line ← read_line c; handshake c line)
    if sent then greet else close_and_raise c Error.agent_write

  abbrev pub accepted : Option Response → M Response
  accepted none = raise Error.agent_read
  accepted (some resp) =
      if resp.ok
      then pure resp
      else if is_empty (trim_space resp.error)
      then raise Error.agent_not_ok
      else raise (Error.agent_said resp.error)

  abbrev pub read_response : ℕ → M (Option Response)
  read_response c = do
    done ← try env (receive c)
    resp ← observe env.response
    if done then pure resp else pure none

  -- `Call` on a connection that is not nil.
  unfoldable pub call : ℕ → Request → M Response
  call c req = do need env (send c req) Error.agent_write; resp ← read_response c; accepted resp

  -- What a round does after the ping: the connection, or a pause and the rounds that are left.
  abbrev pub after_ping : ℕ → M ℕ → Result Response → M ℕ
  after_ping c rest (ok resp) = pure c
  after_ping c rest (err e) = do ignore env (close_conn c); ignore env (sleep retry_interval); rest

  abbrev pub after_dial : M ℕ → Result ℕ → M ℕ
  after_dial rest (ok c) = do pong ← catch (call c ping_request); after_ping c rest pong
  after_dial rest (err e) = do ignore env (sleep retry_interval); rest

  -- One round of the loop.
  abbrev pub attempt : Str → ℤ → ℤ → M ℕ → M ℕ
  attempt uds_path port dial_timeout rest = do
    dialled ← catch (dial_agent uds_path port dial_timeout)
    after_dial rest dialled

  abbrev pub until_deadline : ℕ → M ℕ → M ℕ
  until_deadline until m = do
    now ← observe env.now
    if ltb now until then m else raise Error.agent_not_ready

  unfoldable pub wait_loop : Str → ℤ → ℤ → ℕ → ℕ → M ℕ
  wait_loop uds_path port dial_timeout until zero = until_deadline until (raise Error.out_of_fuel)
  wait_loop uds_path port dial_timeout until (suc fuel) =
      let rest = wait_loop uds_path port dial_timeout until fuel in
      until_deadline until (attempt uds_path port dial_timeout rest)

  unfoldable pub wait_for_agent_ready : Str → ℤ → ℤ → ℤ → M ℕ
  wait_for_agent_ready uds_path port timeout dial_timeout = do
    now ← observe env.now
    wait_loop uds_path port dial_timeout (deadline now timeout) (rounds timeout)
