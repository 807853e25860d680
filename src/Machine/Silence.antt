-- ===== src/Machine/Silence.antt =====
-- Actions that make no call of some kind, where that kind is one of the calls that start, kill or
-- wait for processes: rules for each way to build an action.
use manta.Prelude.{◌≡◌, refl, ◌∙◌, Bool, true, false, arith, if◌then◌else◌}
use manta.Types.{Server}
use manta.Machine.{
  Op, Env, Error, Result, ok, err, World, Trace, M, pure, raise, check, try, on_error, observe,
  gets, modify, catch, finally, continue, clean_up, ◌>>=◌, start, kill_group, kill_process,
  wait_exit,
}
use manta.Machine.Trace.{count}
use manta.Machine.Counts.{Silent}

abbrev pub is_process : Op → Bool
is_process (start ns dir config) = true
is_process (kill_group pid) = true
is_process (kill_process pid) = true
is_process (wait_exit pid) = true
is_process _ = false

-- `p` picks calls on processes only.
pub record IsOnProcesses (p : Op → Bool → Bool) : Type 0 where
  pub spares : (op : Op) (done : Bool) → is_process op ≡ false → p op done ≡ false

module _ {p : Op → Bool → Bool} where
  pub Silent-pure : {A : Type 0} (a : A) → Silent p (pure a)
  Silent-pure a = record { at = λ w. refl }

  pub Silent-raise : {A : Type 0} (e : Error) → Silent p (raise {A = A} e)
  Silent-raise e = record { at = λ w. refl }

  pub Silent-check : (b : Bool) (e : Error) → Silent p (check b e)
  Silent-check true e = record { at = λ w. refl }
  Silent-check false e = record { at = λ w. refl }

  pub Silent-observe : {A : Type 0} (f : Trace → A) → Silent p (observe f)
  Silent-observe f = record { at = λ w. refl }

  pub Silent-gets : {A : Type 0} (f : Server → A) → Silent p (gets f)
  Silent-gets f = record { at = λ w. refl }

  pub Silent-modify : (f : Server → Server) → Silent p (modify f)
  Silent-modify f = record { at = λ w. refl }

  pub Silent-bind :
      {A B : Type 0} (m : M A) (k : A → M B)
      → Silent p m
      → ((a : A) → Silent p (k a))
      → Silent p (m >>= k)
  Silent-bind {A} {B} m k sm sk = record { at = λ w. next (m w).0 (m w).1 w (sm.at w) }
    where
      next :
          (r : Result A) (w' w : World)
          → count p w'.trace ≡ count p w.trace
          → count p (continue r k w').1.trace ≡ count p w.trace
      next (ok a) w' w h = (sk a).at w' ∙ h
      next (err e) w' w h = h

  pub Silent-if :
      {A : Type 0} (b : Bool) (m k : M A) → Silent p m → Silent p k → Silent p (if b then m else k)
  Silent-if true m k sm sk = sm
  Silent-if false m k sm sk = sk

  pub Silent-catch : {A : Type 0} (m : M A) → Silent p m → Silent p (catch m)
  Silent-catch m sm = record { at = sm.at }

  pub Silent-finally :
      {A : Type 0} (c : M (Unit {0})) (m : M A) → Silent p c → Silent p m → Silent p (finally c m)
  Silent-finally c m sc sm = record { at = λ w. sc.at (m w).1 ∙ sm.at w }

  pub Silent-on_error :
      {A : Type 0} (c : M (Unit {0})) (m : M A) → Silent p c → Silent p m → Silent p (on_error c m)
  Silent-on_error {A} c m sc sm = record { at = λ w. cleaned (m w).0 (m w).1 w (sm.at w) }
    where
      cleaned :
          (r : Result A) (w' w : World)
          → count p w'.trace ≡ count p w.trace
          → count p (clean_up r c w').1.trace ≡ count p w.trace
      cleaned (ok a) w' w h = h
      cleaned (err e) w' w h = sc.at w' ∙ h

module _ (env : Env) {p : Op → Bool → Bool} (on : IsOnProcesses p) where
  pub Silent-try : (op : Op) → is_process op ≡ false → Silent p (try env op)
  unfolding count
  Silent-try op h = record { at = λ w. ground (arith, on.spares op (env.succeeds w.trace op) h) }

pub ruleset silent_rules = (
  Silent-pure, Silent-raise, Silent-check, Silent-observe, Silent-gets, Silent-modify, Silent-bind,
  Silent-if, Silent-catch, Silent-finally, Silent-on_error, Silent-try,
)
