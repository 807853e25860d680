-- ===== src/Machine/Keeps.antt =====
-- Actions that leave the server's map of sandboxes and the counter of their ids as they are: rules
-- for each way to build an action.
use manta.Prelude.{ℕ, ◌≡◌, refl, ◌∙◌, Bool, true, false, List, if◌then◌else◌}
use manta.Text.{Str}
use manta.Types.{Server, Sandbox}
use manta.Machine.{
  Op, Env, Error, Result, ok, err, World, Trace, M, pure, raise, check, try, on_error, observe,
  gets, modify, catch, finally, continue, clean_up, ◌>>=◌,
}

abbrev pub registry : Server → List (Str × Sandbox) × ℕ
registry s = (s.sandboxes, s.next_sandbox_id)

pub record Keeps {A : Type 0} (m : M A) : Type 0 where
  pub at : (w : World) → registry (m w).1.server ≡ registry w.server

pub Keeps-pure : {A : Type 0} (a : A) → Keeps (pure a)
Keeps-pure a = record { at = λ w. refl }

pub Keeps-raise : {A : Type 0} (e : Error) → Keeps (raise {A = A} e)
Keeps-raise e = record { at = λ w. refl }

pub Keeps-check : (b : Bool) (e : Error) → Keeps (check b e)
Keeps-check true e = record { at = λ w. refl }
Keeps-check false e = record { at = λ w. refl }

pub Keeps-observe : {A : Type 0} (f : Trace → A) → Keeps (observe f)
Keeps-observe f = record { at = λ w. refl }

pub Keeps-gets : {A : Type 0} (f : Server → A) → Keeps (gets f)
Keeps-gets f = record { at = λ w. refl }

pub Keeps-modify :
    (f : Server → Server) → ((s : Server) → registry (f s) ≡ registry s) → Keeps (modify f)
Keeps-modify f h = record { at = λ w. h w.server }

pub Keeps-bind :
    {A B : Type 0} (m : M A) (k : A → M B) → Keeps m → ((a : A) → Keeps (k a)) → Keeps (m >>= k)
Keeps-bind {A} {B} m k sm sk = record { at = λ w. next (m w).0 (m w).1 w (sm.at w) }
  where
    next :
        (r : Result A) (w' w : World)
        → registry w'.server ≡ registry w.server
        → registry (continue r k w').1.server ≡ registry w.server
    next (ok a) w' w h = (sk a).at w' ∙ h
    next (err e) w' w h = h

pub Keeps-if : {A : Type 0} (b : Bool) (m k : M A) → Keeps m → Keeps k → Keeps (if b then m else k)
Keeps-if true m k sm sk = sm
Keeps-if false m k sm sk = sk

pub Keeps-catch : {A : Type 0} (m : M A) → Keeps m → Keeps (catch m)
Keeps-catch m sm = record { at = sm.at }

pub Keeps-finally :
    {A : Type 0} (c : M (Unit {0})) (m : M A) → Keeps c → Keeps m → Keeps (finally c m)
Keeps-finally c m sc sm = record { at = λ w. sc.at (m w).1 ∙ sm.at w }

pub Keeps-on_error :
    {A : Type 0} (c : M (Unit {0})) (m : M A) → Keeps c → Keeps m → Keeps (on_error c m)
Keeps-on_error {A} c m sc sm = record { at = λ w. cleaned (m w).0 (m w).1 w (sm.at w) }
  where
    cleaned :
        (r : Result A) (w' w : World)
        → registry w'.server ≡ registry w.server
        → registry (clean_up r c w').1.server ≡ registry w.server
    cleaned (ok a) w' w h = h
    cleaned (err e) w' w h = sc.at w' ∙ h

pub Keeps-try : (env : Env) (op : Op) → Keeps (try env op)
Keeps-try env op = record { at = λ w. refl }

pub ruleset keeps_rules = (
  Keeps-pure, Keeps-raise, Keeps-check, Keeps-observe, Keeps-gets, Keeps-bind, Keeps-if,
  Keeps-catch, Keeps-finally, Keeps-on_error, Keeps-try,
)
