-- ===== src/Agent/Clock.antt =====
-- What the waiting loops rely on of the clock, and that actions do not turn it back.
use manta.Prelude.{ℕ, ◌+◌, ◌≤◌, Bool, true, false, ◌∷◌, if◌then◌else◌}
use native.Mathlib.Nat.{le_refl, le_trans}
use manta.Machine.{
  Op, Env, Error, Result, ok, err, World, M, pure, raise, check, try, observe, catch, continue,
  ◌>>=◌, sleep, Event, Trace,
}

-- Time does not go back while calls are made, and `time.Sleep` lasts as long as it is asked to.
pub record IsClock (env : Env) : Type 0 where
  pub forward : (tr : Trace) (e : Event) → env.now tr ≤ env.now (e ∷ tr)
  pub sleeps :
      (tr : Trace) (d : ℕ) (done : Bool)
      → env.now tr + d ≤ env.now (record { op = sleep d; done = done } ∷ tr)

pub record Passes (env : Env) {A : Type 0} (m : M A) : Type 0 where
  pub at : (w : World) → env.now w.trace ≤ env.now (m w).1.trace

module _ {env : Env} where
  pub Passes-pure : {A : Type 0} (a : A) → Passes env (pure a)
  Passes-pure a = record { at = λ w. le_refl _ }

  pub Passes-raise : {A : Type 0} (e : Error) → Passes env (raise {A = A} e)
  Passes-raise e = record { at = λ w. le_refl _ }

  pub Passes-check : (b : Bool) (e : Error) → Passes env (check b e)
  Passes-check true e = Passes-pure tt
  Passes-check false e = Passes-raise e

  pub Passes-observe : {A : Type 0} (f : Trace → A) → Passes env (observe f)
  Passes-observe f = record { at = λ w. le_refl _ }

  pub Passes-bind :
      {A B : Type 0} (m : M A) (k : A → M B)
      → Passes env m
      → ((a : A) → Passes env (k a))
      → Passes env (m >>= k)
  Passes-bind {A} {B} m k pm pk = record { at = λ w. next (m w).0 (m w).1 w (pm.at w) }
    where
      next :
          (r : Result A) (w' w : World)
          → env.now w.trace ≤ env.now w'.trace
          → env.now w.trace ≤ env.now (continue r k w').1.trace
      next (ok a) w' w h = le_trans h ((pk a).at w')
      next (err e) w' w h = h

  pub Passes-if :
      {A : Type 0} (b : Bool) (m k : M A)
      → Passes env m
      → Passes env k
      → Passes env (if b then m else k)
  Passes-if true m k pm pk = pm
  Passes-if false m k pm pk = pk

  pub Passes-catch : {A : Type 0} (m : M A) → Passes env m → Passes env (catch m)
  Passes-catch m pm = record { at = pm.at }

module _ {env : Env} (clock : IsClock env) where
  pub Passes-try : (op : Op) → Passes env (try env op)
  Passes-try op = record { at = λ w. clock.forward w.trace _ }

pub ruleset passes_rules = (
  Passes-pure, Passes-raise, Passes-check, Passes-observe, Passes-bind, Passes-if, Passes-catch,
  Passes-try,
)
