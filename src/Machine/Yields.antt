-- ===== src/Machine/Yields.antt =====
-- What an action returns where it succeeds: rules for the ways to build one.
use manta.Prelude.{Bool, true, false, if◌then◌else◌}
use manta.Machine.{
  Error, Result, ok, err, World, Trace, M, pure, raise, observe, on_error, continue, clean_up,
  ◌>>=◌,
}

-- A success has the property; a failure has nothing to show.
abbrev pub Returned : {A : Type 0} → (A → Type 0) → Result A → Type 0
Returned P (ok a) = P a
Returned P (err e) = Unit

pub record Yields {A : Type 0} (P : A → Type 0) (m : M A) : Type 0 where
  pub at : (w : World) → Returned P (m w).0

module _ {A : Type 0} {P : A → Type 0} where
  pub Yields-pure : (a : A) → P a → Yields P (pure a)
  Yields-pure a h = record { at = λ w. h }

  pub Yields-raise : (e : Error) → Yields P (raise e)
  Yields-raise e = record { at = λ w. tt }

  pub Yields-observe : (f : Trace → A) → ((tr : Trace) → P (f tr)) → Yields P (observe f)
  Yields-observe f h = record { at = λ w. h w.trace }

  pub Yields-bind :
      {B : Type 0} (m : M B) (k : B → M A) → ((b : B) → Yields P (k b)) → Yields P (m >>= k)
  Yields-bind {B} m k h = record { at = λ w. next (m w).0 (m w).1 }
    where
      next : (r : Result B) (w : World) → Returned P (continue r k w).0
      next (ok b) w = (h b).at w
      next (err e) w = tt

  -- What the first step returns is used by the second.
  pub Yields-then :
      {B : Type 0} (Q : B → Type 0) (m : M B) (k : B → M A)
      → Yields Q m
      → ((b : B) → Q b → Yields P (k b))
      → Yields P (m >>= k)
  Yields-then {B} Q m k hm hk = record { at = λ w. next (m w).0 (m w).1 (hm.at w) }
    where
      next : (r : Result B) (w : World) → Returned Q r → Returned P (continue r k w).0
      next (ok b) w q = (hk b q).at w
      next (err e) w q = tt

  pub Yields-on_error : (c : M (Unit {0})) (m : M A) → Yields P m → Yields P (on_error c m)
  Yields-on_error c m h = record { at = λ w. cleaned (m w).0 (m w).1 (h.at w) }
    where
      cleaned : (r : Result A) (w : World) → Returned P r → Returned P (clean_up r c w).0
      cleaned (ok a) w p = p
      cleaned (err e) w p = tt

  pub Yields-if : (b : Bool) (m k : M A) → Yields P m → Yields P k → Yields P (if b then m else k)
  Yields-if true m k h i = h
  Yields-if false m k h i = i

pub ruleset yields_rules = (Yields-pure, Yields-bind, Yields-on_error, Yields-if)
