-- ===== src/Agent/Haste.antt =====
-- The time that the calls of one round of waitForAgentReady of cmd/server/agent.go last at most.
use manta.Prelude.{
  ℕ, suc, ◌+◌, ◌*◌, ◌≤◌, ◌≡◌, refl, Bool, true, false, Option, none, some, ◌∷◌, if◌then◌else◌,
  arith,
}
use manta.Prelude.Int.{ℤ}
use manta.Text.{Str}
use manta.Rpc.{Request, Response}
use manta.Machine.{
  Op, Env, Error, Result, ok, err, World, M, pure, raise, check, try, observe, continue, ◌>>=◌,
  sleep, Event, Trace,
}
use manta.Agent.{dial_agent, call, handshake, accepted, close_and_raise, read_line, read_response}

-- How long a call is asked to last.
abbrev pub asked : Op → ℕ
asked (sleep d) = d
asked _ = 0

-- A sleep lasts what it is asked for and a little more, and any other call only a little.
pub record IsPrompt (env : Env) (slack : ℕ) : Type 0 where
  pub within : (tr : Trace) (e : Event) → env.now (e ∷ tr) ≤ env.now tr + asked e.op + slack

-- The code makes `n` calls at most, none of which is a sleep.
pub record Costs (env : Env) (slack n : ℕ) {A : Type 0} (m : M A) : Type 0 where
  pub at : (w : World) → env.now (m w).1.trace ≤ env.now w.trace + n * slack

-- The code makes no call.
record Free (env : Env) {A : Type 0} (m : M A) : Type 0 where
  at : (w : World) → env.now (m w).1.trace ≡ env.now w.trace

module _ {env : Env} where
  Free-pure : {A : Type 0} (a : A) → Free env (pure a)
  Free-pure a = record { at = λ w. refl }

  Free-raise : {A : Type 0} (e : Error) → Free env (raise {A = A} e)
  Free-raise e = record { at = λ w. refl }

  Free-check : (b : Bool) (e : Error) → Free env (check b e)
  Free-check true e = Free-pure tt
  Free-check false e = Free-raise e

  Free-observe : {A : Type 0} (f : Trace → A) → Free env (observe f)
  Free-observe f = record { at = λ w. refl }

  Free-if :
      {A : Type 0} (b : Bool) (m k : M A) → Free env m → Free env k → Free env (if b then m else k)
  Free-if true m k pm pk = pm
  Free-if false m k pm pk = pk

module _ {env : Env} {slack : ℕ} where
  Costs-Free : {A : Type 0} (n : ℕ) (m : M A) → Free env m → Costs env slack n m
  Costs-Free n m free = record { at = λ w. rw (free.at w) (omega arith) }

  Costs-Free-bind :
      {A B : Type 0} (n : ℕ) (m : M A) (k : A → M B)
      → Free env m
      → ((a : A) → Costs env slack n (k a))
      → Costs env slack n (m >>= k)
  Costs-Free-bind {A} {B} n m k free pk = record { at = λ w. next (m w).0 (m w).1 w (free.at w) }
    where
      next :
          (r : Result A) (w' w : World)
          → env.now w'.trace ≡ env.now w.trace
          → env.now (continue r k w').1.trace ≤ env.now w.trace + n * slack
      next (ok a) w' w h = omega (arith, (pk a).at w')
      next (err e) w' w h = omega arith

  Costs-bind :
      {A B : Type 0} (n : ℕ) (m : M A) (k : A → M B)
      → Costs env slack 1 m
      → ((a : A) → Costs env slack n (k a))
      → Costs env slack (suc n) (m >>= k)
  Costs-bind {A} {B} n m k pm pk = record { at = λ w. next (m w).0 (m w).1 w (pm.at w) }
    where
      next :
          (r : Result A) (w' w : World)
          → env.now w'.trace ≤ env.now w.trace + 1 * slack
          → env.now (continue r k w').1.trace ≤ env.now w.trace + suc n * slack
      next (ok a) w' w h = omega (arith, (pk a).at w')
      next (err e) w' w h = omega arith

  Costs-if :
      {A : Type 0} (b : Bool) (n : ℕ) (m k : M A)
      → Costs env slack n m
      → Costs env slack n k
      → Costs env slack n (if b then m else k)
  Costs-if true n m k pm pk = pm
  Costs-if false n m k pm pk = pk

ruleset costs_rules = (
  Free-pure, Free-raise, Free-check, Free-observe, Free-if, Costs-Free, Costs-Free-bind, Costs-bind,
  Costs-if,
)

module _ {env : Env} {slack : ℕ} (prompt : IsPrompt env slack) where
  Costs-try : (op : Op) → asked op ≡ 0 → Costs env slack 1 (try env op)
  Costs-try op e = record { at = λ w. omega (arith, e, prompt.within w.trace (happened w)) }
    where
      happened : World → Event
      happened w = record { op = op; done = env.succeeds w.trace op }

  close-Costs : (c n : ℕ) (e : Error) → Costs env slack (suc n) (close_and_raise env c e)
  close-Costs c n e = search (costs_rules, Costs-try) depth 15

  handshake-Costs : (c : ℕ) (line : Option Str) → Costs env slack 1 (handshake env c line)
  handshake-Costs c none = close-Costs c 0 _
  handshake-Costs c (some line) = search (costs_rules, close-Costs) depth 15

  read_line-Costs : (c : ℕ) → Costs env slack 1 (read_line env c)
  read_line-Costs c = search (costs_rules, Costs-try) depth 15

  pub dial_agent-Costs :
      (uds : Str) (port timeout : ℤ) → Costs env slack 4 (dial_agent env uds port timeout)
  unfolding dial_agent
  dial_agent-Costs uds port timeout =
      search (costs_rules, Costs-try, close-Costs, read_line-Costs, handshake-Costs) depth 25

  accepted-Free : (resp : Option Response) → Free env (accepted env resp)
  accepted-Free none = search costs_rules
  accepted-Free (some resp) = search costs_rules

  read_response-Costs : (c : ℕ) → Costs env slack 1 (read_response env c)
  read_response-Costs c = search (costs_rules, Costs-try) depth 15

  pub call-Costs : (c : ℕ) (req : Request) → Costs env slack 2 (call env c req)
  unfolding call
  call-Costs c req = search (costs_rules, Costs-try, read_response-Costs, accepted-Free) depth 20
